-- ===== src/Common/Text/Strip.antt =====
-- What `str.strip()` leaves, and what stays in front of it.
use lad_translate.Common.Text.{Text, is_space, cut_space, strip_end, strip_start, strip}
use lad_translate.Common.Tests.{if◌then◌else◌, Bool-cases}
use mathlib.Core.Path.{subst, ◌≡◌, refl, ap}
use mathlib.Core.Logic.{inl, inr}
use mathlib.Core.Bool.{false}
use mathlib.Core.List.{[], ◌∷◌, ◌++◌}

-- The first character is no space.
abbrev StartsWell : Text → Type 0
StartsWell [] = Unit
StartsWell (c ∷ s) = is_space c ≡ false

-- No space at either end.
pub record IsStripped (s : Text) : Type 0 where
  start : StartsWell s
  end : strip_end s ≡ s

strip_start-StartsWell : (s : Text) → StartsWell (strip_start s)
unfolding strip_start
strip_start-StartsWell [] = tt
strip_start-StartsWell (c ∷ s) = elim (Bool-cases (is_space c)) [
  | inl e ↦ rw e (strip_start-StartsWell s)
  | inr e ↦ rw e e
]

cut_space-StartsWell : (c : _) (r : Text) → is_space c ≡ false → StartsWell (cut_space c r)
unfolding cut_space
cut_space-StartsWell c [] e = rw e e
cut_space-StartsWell c (d ∷ r) e = e

strip_end-StartsWell : (s : Text) → StartsWell s → StartsWell (strip_end s)
unfolding strip_end
strip_end-StartsWell [] e = tt
strip_end-StartsWell (c ∷ s) e = cut_space-StartsWell c (strip_end s) e

cut_twice : (c : _) (r : Text) → strip_end r ≡ r → strip_end (cut_space c r) ≡ cut_space c r
unfolding strip_end cut_space
cut_twice c [] e = elim (Bool-cases (is_space c)) [ inl f ↦ rw f refl | inr f ↦ rw (f, f) refl ]
cut_twice c (d ∷ r) e = ap (cut_space c) e

strip_end-strip_end : (s : Text) → strip_end (strip_end s) ≡ strip_end s
unfolding strip_end
strip_end-strip_end [] = refl
strip_end-strip_end (c ∷ s) = cut_twice c (strip_end s) (strip_end-strip_end s)

pub strip-IsStripped : (s : Text) → IsStripped (strip s)
unfolding strip
strip-IsStripped s = record {
  start = strip_end-StartsWell (strip_start s) (strip_start-StartsWell s);
  end = strip_end-strip_end (strip_start s);
}

pub nil-IsStripped : IsStripped []
unfolding strip_end
nil-IsStripped = record { start = tt; end = refl }

-- What a stripped end has behind its first character is stripped there too.
tail_end : (c : _) (s : Text) → strip_end (c ∷ s) ≡ c ∷ s → strip_end s ≡ s
unfolding strip_end
tail_end c s e = by_rest (strip_end s) e
  where
    by_rest : (r : Text) → cut_space c r ≡ c ∷ s → r ≡ s
    by_rest [] h = elim (Bool-cases (is_space c)) [
      | inl e ↦ absurd (cc (subst (λ b. Path Text (if b then [] else c ∷ []) (c ∷ s)) e h))
      | inr e ↦
          ap (λ t. elim t [ [] ↦ [] | ◌∷◌ x y ↦ y ])
            (subst (λ b. Path Text (if b then [] else c ∷ []) (c ∷ s)) e h)
    ]
    by_rest (d ∷ r) h = ap (λ t. elim t [ [] ↦ [] | ◌∷◌ x y ↦ y ]) h

behind : (c : _) (r : Text) → is_space c ≡ false → cut_space c r ≡ c ∷ r
unfolding cut_space
behind c [] e = rw e refl
behind c (d ∷ r) e = refl

strip_end-append :
    (c : _) (a b : Text)
    → strip_end (c ∷ a) ≡ c ∷ a
    → strip_end ((c ∷ a) ++ b) ≡ (c ∷ a) ++ strip_end b
unfolding strip_end cut_space
strip_end-append c [] b e = elim (Bool-cases (is_space c)) [
  | inl f ↦ absurd (cc (subst (λ x. Path Text (if x then [] else c ∷ []) (c ∷ [])) f e))
  | inr f ↦ behind c (strip_end b) f
]
strip_end-append c (d ∷ a) b e = rw (strip_end-append d a b (tail_end c (d ∷ a) e)) refl

-- A text behind a stripped one: the stripped one stays in front.
pub strip-append : (a b : Text) → IsStripped a → (r : Text) × (strip (a ++ b) ≡ a ++ r)
unfolding strip strip_start
strip-append [] b s = (strip b, refl)
strip-append (c ∷ a) b s = (strip_end b, rw s.start (strip_end-append c a b s.end))
