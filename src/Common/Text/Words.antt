-- ===== src/Common/Text/Words.antt =====
-- `split` yields words, and takes apart what `join` has put together.
use Prim.Native.Nat.{◌≤◌}
use mathlib.Core.Path.{◌≡◌, refl, ap, ◌∙◌, sym}
use mathlib.Core.Logic.{inl, inr}
use mathlib.Core.Bool.{false}
use mathlib.Core.List.{List, [], ◌∷◌, ◌++◌, append_assoc, append-nil}
use native.Mathlib.Omega.{arith}
use lad_translate.Common.Tests.{Bool-cases}
use lad_translate.Common.Lists.{length}
use lad_translate.Common.Every.{All, All-append}
use lad_translate.Common.Text.{Text, is_space, split_from, split, join}

-- A word holds one character at least and no space.
pub record IsWord (w : Text) : Type 0 where
  pub some_char : 1 ≤ length w
  pub no_space : All (λ c. is_space c ≡ false) w

split_from-IsWord :
    (word s : Text) → All (λ c. is_space c ≡ false) word → All IsWord (split_from word s)
unfolding split_from
split_from-IsWord [] [] h = tt
split_from-IsWord (w ∷ word) [] h = (record { some_char = omega arith; no_space = h }, tt)
split_from-IsWord [] (c ∷ s) h = elim (Bool-cases (is_space c)) [
  | inl e ↦ rw e (split_from-IsWord [] s tt)
  | inr e ↦ rw e (split_from-IsWord (c ∷ []) s (e, tt))
]
split_from-IsWord (w ∷ word) (c ∷ s) h = elim (Bool-cases (is_space c)) [
  | inl e ↦ rw e (record { some_char = omega arith; no_space = h }, split_from-IsWord [] s tt)
  | inr e ↦ rw e (
      split_from-IsWord ((w ∷ word) ++ c ∷ []) s
        (All-append (λ c. is_space c ≡ false) (w ∷ word) (c ∷ []) h (e, tt)))
]

pub split-IsWord : (s : Text) → All IsWord (split s)
unfolding split
split-IsWord s = split_from-IsWord [] s tt

-- Characters that are no spaces go on to the open word.
split_from-append :
    (word w s : Text)
    → All (λ c. is_space c ≡ false) w
    → split_from word (w ++ s) ≡ split_from (word ++ w) s
unfolding split_from
split_from-append word [] s h = rw (append-nil word)
split_from-append [] (c ∷ w) s h = rw h.0 (split_from-append (c ∷ []) w s h.1)
split_from-append (v ∷ word) (c ∷ w) s h = rw h.0 (
    split_from-append ((v ∷ word) ++ c ∷ []) w s h.1
    ∙ ap (λ t. split_from t s) (append_assoc (v ∷ word) (c ∷ []) w))

-- A space ends the open word.
split_from-space : (w s : Text) → 1 ≤ length w → split_from w (32 ∷ s) ≡ w ∷ split_from [] s
unfolding split_from
split_from-space [] s h = elim h [ ]
split_from-space (c ∷ w) s h = refl

split_from-end : (w : Text) → 1 ≤ length w → split_from w [] ≡ w ∷ []
unfolding split_from
split_from-end [] h = elim h [ ]
split_from-end (c ∷ w) h = refl

-- Splitting what was joined gives the words back.
pub split-join : (ws : List Text) → All IsWord ws → split (join ws) ≡ ws
unfolding split join
split-join [] h = refl
split-join (w ∷ []) h =
    ap (λ t. split_from [] t) (sym (append-nil w))
    ∙ split_from-append [] w [] h.0.no_space
    ∙ split_from-end w h.0.some_char
split-join (w ∷ (v ∷ ws)) h =
    split_from-append [] w (32 ∷ join (v ∷ ws)) h.0.no_space
    ∙ split_from-space w (join (v ∷ ws)) h.0.some_char
    ∙ ap (λ t. w ∷ t) (split-join (v ∷ ws) h.1)
