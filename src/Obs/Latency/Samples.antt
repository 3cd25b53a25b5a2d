-- ===== src/Obs/Latency/Samples.antt =====
-- The samples that a recorder keeps of one series.
use lad_translate.Common.{
  ltb, ltb→lt, ltb-false→le, Bool-cases, length, length-append, drop, length-drop, drop-nil,
  drop-append, drop-drop, ℕ, ◌+◌, ◌-◌, ◌≡◌, sym, ap, ◌∙◌, inl, inr, List, [], ◌∷◌, ◌++◌,
  append_assoc, append-nil, arith,
}
use lad_translate.Common.Int.{ℤ}
use lad_translate.Obs.Latency.{append_sample}

-- Every value of a list appended to a series, in order.
abbrev pub append_all : ℕ → List ℤ → List ℤ → List ℤ
append_all cap series [] = series
append_all cap series (v ∷ vs) = append_all cap (append_sample cap series v) vs

-- The last `cap` of a list.
abbrev pub latest : ℕ → List ℤ → List ℤ
latest cap xs = drop (length xs - cap) xs

append_sample-latest :
    (cap : ℕ) (xs : List ℤ) (v : ℤ)
    → append_sample cap (latest cap xs) v ≡ latest cap (xs ++ v ∷ [])
unfolding append_sample
append_sample-latest cap xs v = elim (Bool-cases (ltb cap (length (latest cap xs ++ v ∷ [])))) [
  | inl q ↦
      rw (q, append_sample)
        (ap (λ (ys : List ℤ). drop over ys) joined
          ∙ drop-drop over (length xs - cap) (xs ++ v ∷ [])
          ∙ ap (λ (n : ℕ). drop n (xs ++ v ∷ [])) (omega (arith, sizes, longer, ltb→lt _ _ q)))
  | inr q ↦
      rw (q, append_sample)
        (joined
          ∙ ap (λ (n : ℕ). drop n (xs ++ v ∷ []))
              (omega (arith, sizes, longer, ltb-false→le _ _ q)))
]
  where
    over : ℕ
    over = length (latest cap xs ++ v ∷ []) - cap

    joined : latest cap xs ++ v ∷ [] ≡ drop (length xs - cap) (xs ++ v ∷ [])
    joined = sym (drop-append (length xs - cap) xs (v ∷ []) (omega arith))

    sizes : length (latest cap xs ++ v ∷ []) ≡ length xs - (length xs - cap) + 1
    sizes = omega (arith, length-append (latest cap xs) (v ∷ []), length-drop (length xs - cap) xs)

    longer : length (xs ++ v ∷ []) ≡ length xs + 1
    longer = omega (arith, length-append xs (v ∷ []))

append_all-latest_of :
    (cap : ℕ) (xs vs : List ℤ) → append_all cap (latest cap xs) vs ≡ latest cap (xs ++ vs)
append_all-latest_of cap xs [] = ap (latest cap) (sym (append-nil xs))
append_all-latest_of cap xs (v ∷ vs) =
    ap (λ (series : List ℤ). append_all cap series vs) (append_sample-latest cap xs v)
    ∙ append_all-latest_of cap (xs ++ v ∷ []) vs
    ∙ ap (latest cap) (append_assoc xs (v ∷ []) vs)

-- Whatever values a series is given, it keeps the last `cap` of them, in order.
pub append_all-latest : (cap : ℕ) (values : List ℤ) → append_all cap [] values ≡ latest cap values
append_all-latest cap values =
    ap (λ (series : List ℤ). append_all cap series values) (sym (drop-nil (0 - cap)))
    ∙ append_all-latest_of cap [] values
