-- ===== src/Chunker/Words.antt =====
-- chunker/stability.py: `tokenise` and `normalise_token`, which compares words without the
-- punctuation at their edges.
use lad_translate.Common.{if◌then◌else◌, ℕ, Bool, ◌||◌, List, [], ◌∷◌}
use lad_translate.Common.Text.{Text, is_between, split}

-- The tables of the Unicode database that the source reads through `re` and `unicodedata`: the
-- classes `\w` and `\d`, and NFKC followed by `casefold()`.
pub record Unicode : Type 0 where
  pub is_word : ℕ → Bool
  pub is_digit : ℕ → Bool
  pub fold : Text → Text

unfoldable pub tokenise : Text → List Text
unfolding split
tokenise text = split text

module _ (u : Unicode) where
  -- The class of `_EDGE_PUNCT`: `\w`, the Arabic block (U+0600) and the Devanagari block (U+0900). The
  -- edges of a word are stripped down to these.
  unfoldable pub is_kept : ℕ → Bool
  is_kept c = u.is_word c || is_between 0x600 0x6FF c || is_between 0x900 0x97F c

  -- The first alternative of `_EDGE_PUNCT`.
  unfoldable pub strip_left : Text → Text
  unfolding is_kept
  strip_left [] = []
  strip_left (c ∷ s) = let rest = strip_left s in if is_kept c then c ∷ s else rest

  -- The second alternative: what stands behind the last kept character goes.
  abbrev trim : ℕ → Text → Text
  trim c [] = if is_kept c then c ∷ [] else []
  trim c (d ∷ s) = c ∷ (d ∷ s)

  unfoldable pub strip_right : Text → Text
  unfolding is_kept
  strip_right [] = []
  strip_right (c ∷ s) = trim c (strip_right s)

  unfoldable pub normalise_token : Text → Text
  unfolding strip_left strip_right
  normalise_token token = u.fold (strip_right (strip_left token))
