-- ===== src/Common/Every.antt =====
-- A predicate at every element of a list, and lists compared by what stands at each index.
use Prim.Native.Nat.{ℕ, zero, suc, ◌≤◌, ◌<◌}
use mathlib.Core.Path.{◌≡◌, refl}
use mathlib.Core.List.{List, [], ◌∷◌, ◌++◌}
use native.Mathlib.Omega.{arith}
use lad_translate.Common.Lists.{length, get_or, take, drop, replicate}

abbrev pub All {ℓ κ} : {A : Type ℓ} → (A → Type κ) → List A → Type κ
All P [] = Unit
All P (x ∷ xs) = P x × All P xs

module _ {ℓ κ} {A : Type ℓ} (P : A → Type κ) where
  pub All-append : (xs ys : List A) → All P xs → All P ys → All P (xs ++ ys)
  All-append [] ys h k = k
  All-append (x ∷ xs) ys h k = (h.0, All-append xs ys h.1 k)

  pub All-drop : (n : ℕ) (xs : List A) → All P xs → All P (drop n xs)
  All-drop zero xs h = h
  All-drop (suc n) [] h = h
  All-drop (suc n) (x ∷ xs) h = All-drop n xs h.1

  pub All-take : (n : ℕ) (xs : List A) → All P xs → All P (take n xs)
  All-take zero xs h = tt
  All-take (suc n) [] h = h
  All-take (suc n) (x ∷ xs) h = (h.0, All-take n xs h.1)

  pub All-replicate : (n : ℕ) (x : A) → P x → All P (replicate n x)
  All-replicate zero x h = tt
  All-replicate (suc n) x h = (h, All-replicate n x h)

module _ {ℓ κ λ'} {A : Type ℓ} {P : A → Type κ} {Q : A → Type λ'} where
  pub All-map : (xs : List A) → ((x : A) → P x → Q x) → All P xs → All Q xs
  All-map [] f h = tt
  All-map (x ∷ xs) f h = (f x h.0, All-map xs f h.1)

module _ {ℓ} {A : Type ℓ} (d : A) where
  -- Lists that are long enough and agree below `k` have the same first `k` elements.
  pub take-eq_of_get_or :
      (k : ℕ) (xs ys : List A)
      → k ≤ length xs
      → k ≤ length ys
      → ((i : ℕ) → i < k → get_or xs i d ≡ get_or ys i d)
      → take k xs ≡ take k ys
  take-eq_of_get_or zero xs ys p q h = refl
  take-eq_of_get_or (suc k) [] ys p q h = elim p [ ]
  take-eq_of_get_or (suc k) (x ∷ xs) [] p q h = elim q [ ]
  take-eq_of_get_or (suc k) (x ∷ xs) (y ∷ ys) p q h = ground (
    arith,
    h 0 (omega arith),
    take-eq_of_get_or k xs ys (omega arith) (omega arith) (λ i l. h (suc i) (omega arith)),
  )

  pub get_or-take : (k : ℕ) (xs : List A) (i : ℕ) → i < k → get_or (take k xs) i d ≡ get_or xs i d
  get_or-take zero xs i h = elim h [ ]
  get_or-take (suc k) [] i h = refl
  get_or-take (suc k) (x ∷ xs) zero h = refl
  get_or-take (suc k) (x ∷ xs) (suc i) h = get_or-take k xs i (omega arith)
