-- ===== src/Chunker/Stability/Agreement.antt =====
-- What `_agreed_length` returns: the longest prefix that all hypotheses of the window share.
use lad_translate.Common.{
  ltb, Bool-cases, length, get_or, take, All, All-map, take-eq_of_get_or, get_or-take, ℕ, zero, suc,
  ◌+◌, ◌≤◌, ◌<◌, ◌≡◌, refl, sym, ap, ◌∙◌, inl, inr, true, false, List, [], ◌∷◌, arith,
}
use lad_translate.Common.Text.{Text, text_eq_iff}
use lad_translate.Chunker.Stability.{
  StabilityTracker, agreed_length, shortest, all_at, token_at, agreed_loop,
}

-- The first hypothesis of the window.
abbrev pub oldest : List (List Text) → List Text
oldest [] = []
oldest (h ∷ w) = h

-- All hypotheses of `w` are at least `k` words long, and their first `k` words are the same.
pub record Agree (w : List (List Text)) (k : ℕ) : Type 0 where
  pub long : All (λ h. k ≤ length h) w
  pub same : All (λ h. take k h ≡ take k (oldest w)) w

all_at-All :
    (token : Text) (i : ℕ) (w : List (List Text))
    → all_at token i w ≡ true
    → All (λ h. get_or h i [] ≡ token) w
unfolding all_at
all_at-All token i [] h = tt
all_at-All token i (x ∷ w) h =
    ground (arith, text_eq_iff (get_or x i []) token, all_at-All token i w)

All→all_at :
    (token : Text) (i : ℕ) (w : List (List Text))
    → All (λ h. get_or h i [] ≡ token) w
    → all_at token i w ≡ true
unfolding all_at
All→all_at token i [] h = refl
All→all_at token i (x ∷ w) h =
    ground (arith, text_eq_iff (get_or x i []) token, All→all_at token i w h.1)

shortest-le : (w : List (List Text)) → All (λ h. shortest w ≤ length h) w
unfolding shortest
shortest-le [] = tt
shortest-le (h ∷ []) = (omega arith, tt)
shortest-le (g ∷ (h ∷ w)) =
    (omega arith, All-map (h ∷ w) (λ x p. omega arith) (shortest-le (h ∷ w)))

le-shortest :
    (k : ℕ) (h : List Text) (w : List (List Text))
    → All (λ h. k ≤ length h) (h ∷ w)
    → k ≤ shortest (h ∷ w)
unfolding shortest
le-shortest k h [] p = p.0
le-shortest k g (h ∷ w) p = omega (arith, le-shortest k h w p.1)

-- What the loop has found when it starts at `i` with `k` rounds left.
record Found (w : List (List Text)) (i k r : ℕ) : Type 0 where
  above : i ≤ r
  below : r ≤ i + k
  agrees : (j : ℕ) → i ≤ j → j < r → all_at (token_at w j) j w ≡ true
  ends : r < i + k → all_at (token_at w r) r w ≡ false

agreed_loop-Found : (w : List (List Text)) (k i : ℕ) → Found w i k (agreed_loop w k i i)
unfolding agreed_loop
agreed_loop-Found w zero i = record {
  above = omega arith;
  below = omega arith;
  agrees = λ j p q. absurd (omega arith);
  ends = λ p. absurd (omega arith);
}
agreed_loop-Found w (suc k) i = elim (Bool-cases (all_at (token_at w i) i w)) [
  | inl hit ↦ rw hit (extend hit (agreed_loop-Found w k (i + 1)))
  | inr miss ↦ rw miss (record {
    above = omega arith;
    below = omega arith;
    agrees = λ j p q. absurd (omega arith);
    ends = λ p. miss;
  })
]
  where
    extend : {r : ℕ} → all_at (token_at w i) i w ≡ true → Found w (i + 1) k r → Found w i (suc k) r
    extend hit f = record {
      above = omega (arith, f.above);
      below = omega (arith, f.below);
      agrees = λ j p q. ground (arith, hit, f.agrees j);
      ends = λ p. f.ends (omega arith);
    }

module _ (w : List (List Text)) {k : ℕ} where
  -- Words that agree at every index below `k` make equal prefixes.
  prefixes :
      (g : List Text) (v : List (List Text))
      → k ≤ length g
      → All (λ h. k ≤ length h) v
      → ((i : ℕ) → i < k → All (λ h. get_or h i [] ≡ get_or g i []) v)
      → All (λ h. take k h ≡ take k g) v
  prefixes g [] p q f = tt
  prefixes g (h ∷ v) p q f =
      (take-eq_of_get_or [] k h g q.0 p (λ i l. (f i l).0), prefixes g v p q.1 (λ i l. (f i l).1))

-- Where the first `k` words of all are the same, so is each of them.
at_index :
    (k : ℕ) (g : List Text) (v : List (List Text)) (i : ℕ)
    → i < k
    → All (λ h. take k h ≡ take k g) v
    → All (λ h. get_or h i [] ≡ get_or g i []) v
at_index k g v i l = All-map v λ h e.
    sym (get_or-take [] k h i l) ∙ ap (λ (s : List Text). get_or s i []) e ∙ get_or-take [] k g i l

agreed_loop-Agree :
    (g : List Text) (w : List (List Text))
    → Agree (g ∷ w) (agreed_loop (g ∷ w) (shortest (g ∷ w)) 0 0)
unfolding token_at
agreed_loop-Agree g w =
    let f = agreed_loop-Found (g ∷ w) (shortest (g ∷ w)) 0 in
    let long : All (λ h. agreed_loop (g ∷ w) (shortest (g ∷ w)) 0 0 ≤ length h) (g ∷ w) =
      All-map (g ∷ w) (λ h p. omega (arith, f.below)) (shortest-le (g ∷ w)) in
    record {
      long = long;
      same =
          prefixes (g ∷ w) g (g ∷ w) long.0 long
            (λ i l. all_at-All (get_or g i []) i (g ∷ w) (f.agrees i (omega arith) l));
    }

agreed_loop-max :
    (g : List Text) (w : List (List Text)) (k : ℕ)
    → Agree (g ∷ w) k
    → k ≤ agreed_loop (g ∷ w) (shortest (g ∷ w)) 0 0
unfolding token_at
agreed_loop-max g w k a =
    let r = agreed_loop (g ∷ w) (shortest (g ∷ w)) 0 0 in
    let f = agreed_loop-Found (g ∷ w) (shortest (g ∷ w)) 0 in
    let fits = le-shortest k g w a.long in
    elim (Bool-cases (ltb r k)) [
      | inl more ↦ absurd (
          grind (
            arith,
            f.ends,
            All→all_at (get_or g r []) r (g ∷ w) (at_index k g (g ∷ w) r (ground arith) a.same),
          ))
      | inr enough ↦ ground arith
    ]

-- The same for any window that is not empty.
window-Agree :
    (w : List (List Text))
    → 1 ≤ length w
    → Agree w (agreed_loop w (shortest w) 0 0)
      × ((k : ℕ) → Agree w k → k ≤ agreed_loop w (shortest w) 0 0)
window-Agree [] h = elim h [ ]
window-Agree (g ∷ w) h = (agreed_loop-Agree g w, agreed_loop-max g w)

-- Once the window is full its hypotheses agree on that many words, and on no greater number.
pub agreed_length-greatest :
    (t : StabilityTracker)
    → 1 ≤ t.n
    → t.n ≤ length t.window
    → Agree t.window (agreed_length t) × ((k : ℕ) → Agree t.window k → k ≤ agreed_length t)
unfolding agreed_length
agreed_length-greatest t p full = elim (Bool-cases (ltb (length t.window) t.n)) [
  | inl short ↦ absurd (ground arith)
  | inr e ↦ rw e (window-Agree t.window (omega arith))
]

-- Once a window that asks for one hypothesis at least is full, all its hypotheses agree on the
-- first `agreed_length` words, and any number of words that they agree on is at most that.
pub agreed_length-Agree :
    (t : StabilityTracker) (k : ℕ)
    → 1 ≤ t.n
    → t.n ≤ length t.window
    → Agree t.window k
    → Agree t.window (agreed_length t) × (k ≤ agreed_length t)
agreed_length-Agree t k p full h =
    let (agree, greatest) = agreed_length-greatest t p full in (agree, greatest k h)
