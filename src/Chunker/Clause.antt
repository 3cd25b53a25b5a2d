-- ===== src/Chunker/Clause.antt =====
-- chunker/clause.py: how good a cut is behind a word, and the latest usable cut of a run of words.
pub mod Cuts
use lad_translate.Common.{
  ltb, ◌==◌, if◌then◌else◌, length, get_or, ℕ, zero, suc, ◌+◌, ◌-◌, Bool, true, false, not, ◌||◌,
  List, [], ◌∷◌,
}
use lad_translate.Common.Text.{Text, codes, member, has_char}
use lad_translate.Chunker.Words.{Unicode, normalise_token}

pub data BoundaryStrength : Type 0 where
  none_ weak medium strong : BoundaryStrength

-- `strength >= BoundaryStrength.MEDIUM`
abbrev pub at_least_medium : BoundaryStrength → Bool
at_least_medium none_ = false
at_least_medium weak = false
at_least_medium medium = true
at_least_medium strong = true

-- Full stop, question mark and exclamation mark: Latin, Arabic, Devanagari and CJK.
abbrev pub strong_chars : Text
strong_chars = 0x2E ∷ 0x3F ∷ 0x21 ∷ 0x6D4 ∷ 0x964 ∷ 0x965 ∷ 0x3002 ∷ 0xFF1F ∷ 0xFF01 ∷ []

-- Comma, semicolon and colon: Latin, Arabic and CJK.
abbrev pub medium_chars : Text
medium_chars = 0x2C ∷ 0x3B ∷ 0x3A ∷ 0x60C ∷ 0x61B ∷ 0x3001 ∷ 0xFF0C ∷ 0xFF1B ∷ 0xFF1A ∷ []

abbrev pub abbreviations : List Text
abbreviations =
    codes "mr"
    ∷ codes "mrs"
    ∷ codes "ms"
    ∷ codes "dr"
    ∷ codes "prof"
    ∷ codes "sr"
    ∷ codes "jr"
    ∷ codes "st"
    ∷ codes "mt"
    ∷ codes "inc"
    ∷ codes "ltd"
    ∷ codes "llc"
    ∷ codes "co"
    ∷ codes "corp"
    ∷ codes "plc"
    ∷ codes "eg"
    ∷ codes "ie"
    ∷ codes "etc"
    ∷ codes "vs"
    ∷ codes "approx"
    ∷ codes "dept"
    ∷ codes "est"
    ∷ codes "jan"
    ∷ codes "feb"
    ∷ codes "mar"
    ∷ codes "apr"
    ∷ codes "jun"
    ∷ codes "jul"
    ∷ codes "aug"
    ∷ codes "sep"
    ∷ codes "sept"
    ∷ codes "oct"
    ∷ codes "nov"
    ∷ codes "dec"
    ∷ codes "mon"
    ∷ codes "tue"
    ∷ codes "wed"
    ∷ codes "thu"
    ∷ codes "fri"
    ∷ codes "sat"
    ∷ codes "sun"
    ∷ codes "am"
    ∷ codes "pm"
    ∷ codes "no"
    ∷ codes "vol"
    ∷ codes "fig"
    ∷ codes "pp"
    ∷ []

abbrev pub conjunctions : List Text
conjunctions =
    codes "and"
    ∷ codes "but"
    ∷ codes "or"
    ∷ codes "so"
    ∷ codes "yet"
    ∷ codes "for"
    ∷ codes "nor"
    ∷ codes "because"
    ∷ codes "although"
    ∷ codes "though"
    ∷ codes "while"
    ∷ codes "whereas"
    ∷ codes "since"
    ∷ codes "if"
    ∷ codes "unless"
    ∷ codes "until"
    ∷ codes "when"
    ∷ codes "whenever"
    ∷ codes "where"
    ∷ codes "wherever"
    ∷ codes "that"
    ∷ codes "which"
    ∷ codes "who"
    ∷ codes "whom"
    ∷ codes "whose"
    ∷ codes "after"
    ∷ codes "before"
    ∷ codes "however"
    ∷ codes "therefore"
    ∷ codes "moreover"
    ∷ codes "furthermore"
    ∷ codes "meanwhile"
    ∷ []

-- `token[-1]` of a token that is not empty.
unfoldable pub last_char : Text → ℕ
last_char [] = 0
last_char (c ∷ []) = c
last_char (c ∷ (d ∷ s)) = last_char (d ∷ s)

-- `token[:-1]`
unfoldable pub without_last : Text → Text
without_last [] = []
without_last (c ∷ []) = []
without_last (c ∷ (d ∷ s)) = c ∷ without_last (d ∷ s)

module _ (u : Unicode) where
  -- `_HAS_DIGIT.search(stem)`
  unfoldable pub has_digit : Text → Bool
  has_digit [] = false
  has_digit (c ∷ s) = u.is_digit c || has_digit s

  unfoldable pub ends_sentence : Text → Bool
  ends_sentence token =
      let stem = without_last token in
      if length token == 0 || not (has_char (last_char token) strong_chars)
      then false
      else if not (last_char token == b'.')
      then true
      else if length stem == 0
      then false
      else if has_digit stem
      then false
      else if length stem == 1
      then false
      else not (member (normalise_token u stem) abbreviations)

  unfoldable pub token_boundary_strength : Text → BoundaryStrength
  token_boundary_strength token =
      if length token == 0
      then none_
      else if ends_sentence token
      then strong
      else if has_char (last_char token) medium_chars
      then medium
      else none_

  unfoldable pub is_conjunction : Text → Bool
  is_conjunction token = member (normalise_token u token) conjunctions

  -- The first loop, over the `k` indices from `lo + k - 1` down to `lo`; an index of 0 in the result
  -- says that the loop ran through.
  unfoldable pub scan_clauses : List Text → ℕ → ℕ → ℕ × BoundaryStrength
  scan_clauses tokens lo zero = (0, none_)
  scan_clauses tokens lo (suc k) =
      let rest = scan_clauses tokens lo k in
      let strength = token_boundary_strength (get_or tokens (lo + k) []) in
      if at_least_medium strength then (lo + k + 1, strength) else rest

  -- The second loop, over the same kind of range.
  unfoldable pub scan_conjunctions : List Text → ℕ → ℕ → ℕ × BoundaryStrength
  scan_conjunctions tokens lo zero = (0, none_)
  scan_conjunctions tokens lo (suc k) =
      let rest = scan_conjunctions tokens lo k in
      if is_conjunction (get_or tokens (lo + k) []) then (lo + k, weak) else rest

  -- The first loop runs over `range(len - 1, min_words - 2, -1)`. For `min_words` 0 Python goes on to
  -- the index -1, the last word, which the loop has seen by then; with no words at all that raises
  -- an IndexError, and no caller asks it.
  unfoldable pub find_boundary : List Text → ℕ → Bool → ℕ × BoundaryStrength
  unfolding scan_clauses scan_conjunctions
  find_boundary tokens min_words allow_weak =
      let len = length tokens in
      let lo = min_words - 1 in
      let clauses = scan_clauses tokens lo (len - lo) in
      if ltb len min_words
      then (0, none_)
      else if ltb 0 clauses.0
      then clauses
      else if not allow_weak
      then (0, none_)
      else scan_conjunctions tokens min_words (len - min_words)
