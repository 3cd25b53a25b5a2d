-- ===== src/Chunker/Stability/Finals.antt =====
-- The tracker's invariant, and what a final hypothesis does to the agreed length.
use lad_translate.Common.{
  Bool-cases, length, take, replicate, length-replicate, length-map, All, All-replicate, ℕ, zero,
  suc, ◌≤◌, ◌≡◌, refl, sym, ap, ◌∙◌, subst, inl, inr, true, some, List, [], ◌∷◌, map, arith,
}
use lad_translate.Chunker.Stability.{StabilityTracker, agreed_length, add, new_tracker}
use lad_translate.Common.Text.{Text}
use lad_translate.Adapters.Events.{Hypothesis}
use lad_translate.Chunker.Words.{Unicode, tokenise, normalise_token}
use lad_translate.Chunker.Stability.Agreement.{Agree, agreed_length-greatest}
use lad_translate.Chunker.Stability.Window.{append_bounded-full, append_times-replicate}

-- The window asks for one hypothesis at least, and never holds more than it asks for.
pub record IsValid (t : StabilityTracker) : Type 0 where
  pub positive : 1 ≤ t.n
  pub bounded : length t.window ≤ t.n

pub new_tracker-IsValid : (n : ℕ) (t : StabilityTracker) → new_tracker n ≡ some t → IsValid t
unfolding new_tracker
new_tracker-IsValid n t e = ground arith

take-all : (h : List Text) → take (length h) h ≡ h
take-all [] = refl
take-all (x ∷ h) = ap (λ s. x ∷ s) (take-all h)

replicate-Agree : (n : ℕ) (h : List Text) → Agree (replicate n h) (length h)
replicate-Agree zero h = record { long = tt; same = tt }
replicate-Agree (suc n) h = record {
  long = All-replicate (λ g. length h ≤ length g) (suc n) h (omega arith);
  same = All-replicate (λ g. take (length h) g ≡ take (length h) h) (suc n) h refl;
}

-- A window of equal hypotheses agrees on all of their words.
agreed_length-replicate :
    (t : StabilityTracker) (h : List Text)
    → 1 ≤ t.n
    → t.window ≡ replicate t.n h
    → agreed_length t ≡ length h
agreed_length-replicate t h p e =
    let full : length t.window ≡ t.n = rw e (length-replicate t.n h) in
    let (agree, greatest) = agreed_length-greatest t p (omega arith) in
    omega (
      arith,
      greatest (length h) (subst (λ w. Agree w (length h)) (sym e) (replicate-Agree t.n h)),
      head_long t.n p (subst (λ w. All (λ g. agreed_length t ≤ length g) w) e agree.long),
    )
  where
    head_long : {r : ℕ} (n : ℕ) → 1 ≤ n → All (λ g. r ≤ length g) (replicate n h) → r ≤ length h
    head_long zero l a = elim l [ ]
    head_long (suc n) l a = a.0

module _ (u : Unicode) (t : StabilityTracker) (hyp : Hypothesis) where
  pub surface-add : (add u t hyp).latest_surface ≡ tokenise hyp.text
  unfolding add
  surface-add = refl

  pub committed-add : (add u t hyp).committed ≡ t.committed
  unfolding add
  committed-add = refl

  final_window :
      IsValid t
      → hyp.is_final ≡ true
      → (add u t hyp).window ≡ replicate t.n (map (normalise_token u) (tokenise hyp.text))
  unfolding add
  final_window v e = rw e (
      append_times-replicate t.n (map (normalise_token u) (tokenise hyp.text)) t.window v.positive
        v.bounded)

  pub add-IsValid : IsValid t → IsValid (add u t hyp)
  unfolding add
  add-IsValid v = elim (Bool-cases hyp.is_final) [
    | inl e ↦
        let w = final_window v e in
        record {
          positive = v.positive;
          bounded = rw w (
              omega
                (arith, length-replicate {0} t.n (map (normalise_token u) (tokenise hyp.text))));
        }
    | inr e ↦ record {
      positive = v.positive;
      bounded = rw e (
          append_bounded-full t.n t.window (map (normalise_token u) (tokenise hyp.text)) v.positive
            v.bounded);
    }
  ]

  -- A final that a valid tracker hears settles every word of its text at once.
  pub agreed_length-final :
      IsValid t → hyp.is_final ≡ true → agreed_length (add u t hyp) ≡ length (tokenise hyp.text)
  unfolding add
  agreed_length-final v e =
      agreed_length-replicate (add u t hyp) (map (normalise_token u) (tokenise hyp.text))
        (add-IsValid v).positive (final_window v e)
      ∙ length-map (tokenise hyp.text) (normalise_token u)
