-- ===== src/Common/Text.antt =====
-- Python's `str` as its code points, with the operations that the program calls on it.
pub mod Words
pub mod Strip
use Prim.Native.Char.{code}
use Prim.Native.String.{String}
use lad_translate.Common.Tests.{leb, ◌==◌, if◌then◌else◌}
use Prim.Native.Nat.{ℕ}
use mathlib.Core.Path.{◌≡◌, refl}
use mathlib.Core.Logic.{◌↔◌}
use mathlib.Core.Bool.{Bool, true, false, ◌&&◌, ◌||◌}
use mathlib.Core.List.{List, [], ◌∷◌, ◌++◌}
use native.Mathlib.Omega.{arith}

abbrev pub Text : Type 0
Text = List ℕ

abbrev pub codes : String → Text
codes String.[] = []
codes (String.◌∷◌ c s) = code c ∷ codes s

-- `a == b` on strings.
abbrev pub text_eq : Text → Text → Bool
text_eq [] [] = true
text_eq [] (_ ∷ _) = false
text_eq (_ ∷ _) [] = false
text_eq (a ∷ s) (b ∷ t) = a == b && text_eq s t

pub text_eq→eq : (s t : Text) → text_eq s t ≡ true → s ≡ t
text_eq→eq [] [] h = refl
text_eq→eq [] (b ∷ t) h = ground arith
text_eq→eq (a ∷ s) [] h = ground arith
text_eq→eq (a ∷ s) (b ∷ t) h = ground (arith, text_eq→eq s t)

pub text_eq_refl : (s : Text) → text_eq s s ≡ true
text_eq_refl [] = refl
text_eq_refl (a ∷ s) = ground (arith, text_eq_refl s)

pub text_eq_iff : (s t : Text) → (text_eq s t ≡ true) ↔ (s ≡ t)
text_eq_iff s t = (text_eq→eq s t, λ e. ground (arith, text_eq_refl s))

pub text_eq_sym : (s t : Text) → text_eq s t ≡ text_eq t s
text_eq_sym [] [] = refl
text_eq_sym [] (b ∷ t) = refl
text_eq_sym (a ∷ s) [] = refl
text_eq_sym (a ∷ s) (b ∷ t) = ground (arith, text_eq_sym s t)

-- `s in names`
abbrev pub member : Text → List Text → Bool
member s [] = false
member s (t ∷ ts) = text_eq s t || member s ts

-- `c in chars`
abbrev pub has_char : ℕ → Text → Bool
has_char c [] = false
has_char c (d ∷ s) = c == d || has_char c s

abbrev pub is_between : ℕ → ℕ → ℕ → Bool
is_between lo hi c = leb lo c && leb c hi

-- The characters at which `str.split()` cuts.
unfoldable pub is_space : ℕ → Bool
is_space c =
    is_between 9 13 c
    || is_between 28 32 c
    || c == 0x85
    || c == 0xA0
    || c == 0x1680
    || is_between 0x2000 0x200A c
    || is_between 0x2028 0x2029 c
    || c == 0x202F
    || c == 0x205F
    || c == 0x3000

-- The words of a text behind an open word: what `str.split()` returns for `word + s`, where `word`
-- is empty or holds no space.
unfoldable pub split_from : Text → Text → List Text
unfolding is_space
split_from [] [] = []
split_from (w ∷ word) [] = (w ∷ word) ∷ []
split_from [] (c ∷ s) =
    let rest = split_from [] s in
    let more = split_from (c ∷ []) s in if is_space c then rest else more
split_from (w ∷ word) (c ∷ s) =
    let rest = split_from [] s in
    let more = split_from ((w ∷ word) ++ c ∷ []) s in if is_space c then (w ∷ word) ∷ rest else more

-- `text.split()`
unfoldable pub split : Text → List Text
unfolding split_from
split s = split_from [] s

-- `" ".join(words)`
unfoldable pub join : List Text → Text
join [] = []
join (w ∷ []) = w
join (w ∷ (v ∷ ws)) = w ++ (32 ∷ join (v ∷ ws))

-- A character in front of a text whose end is stripped.
unfoldable pub cut_space : ℕ → Text → Text
unfolding is_space
cut_space c [] = if is_space c then [] else c ∷ []
cut_space c (d ∷ s) = c ∷ (d ∷ s)

-- `text.rstrip()`, `text.lstrip()` and `text.strip()`
unfoldable pub strip_end : Text → Text
unfolding cut_space
strip_end [] = []
strip_end (c ∷ s) = cut_space c (strip_end s)

unfoldable pub strip_start : Text → Text
unfolding is_space
strip_start [] = []
strip_start (c ∷ s) = let rest = strip_start s in if is_space c then rest else c ∷ s

unfoldable pub strip : Text → Text
unfolding strip_end strip_start
strip s = strip_end (strip_start s)
