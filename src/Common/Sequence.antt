-- ===== src/Common/Sequence.antt =====
-- Subsequences: what is left of a list when some of its elements are left out.
use mathlib.Core.List.{List, [], ◌∷◌, ◌++◌}

module _ {ℓ} {A : Type ℓ} where
  pub data Within : List A → List A → Type ℓ where
    end : Within [] []
    keep : {x : A} {xs ys : List A} → Within xs ys → Within (x ∷ xs) (x ∷ ys)
    skip : {x : A} {xs ys : List A} → Within xs ys → Within xs (x ∷ ys)

  -- The same element at the end of both.
  pub Within-snoc : {xs ys : List A} (x : A) → Within xs ys → Within (xs ++ x ∷ []) (ys ++ x ∷ [])
  Within-snoc x end = keep end
  Within-snoc x (keep w) = keep (Within-snoc x w)
  Within-snoc x (skip w) = skip (Within-snoc x w)

  pub Within-refl : (xs : List A) → Within xs xs
  Within-refl [] = end
  Within-refl (x ∷ xs) = keep (Within-refl xs)

  pub Within-trans : {ys zs : List A} → Within ys zs → {xs : List A} → Within xs ys → Within xs zs
  Within-trans end w = w
  Within-trans (skip v) w = skip (Within-trans v w)
  Within-trans (keep v) (keep w) = keep (Within-trans v w)
  Within-trans (keep v) (skip w) = skip (Within-trans v w)

  -- A stretch in the middle is left out.
  pub Within-middle : (os ms xs : List A) → Within (os ++ xs) (os ++ (ms ++ xs))
  Within-middle [] [] xs = Within-refl xs
  Within-middle [] (m ∷ ms) xs = skip (Within-middle [] ms xs)
  Within-middle (o ∷ os) ms xs = keep (Within-middle os ms xs)
