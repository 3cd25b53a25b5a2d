-- ===== src/Db/Tenancy/Names.antt =====
-- Which schema names are accepted.
use lad_translate.Common.{
  leb, ◌==◌, if◌then◌else◌, leb→le, ==_iff, Bool-cases, length, All, ℕ, ◌≤◌, ◌≡◌, refl, sym, ap,
  ◌⊎◌, inl, inr, Bool, true, false, not, ◌&&◌, [], ◌∷◌, ◌++◌, arith,
}
use lad_translate.Common.Text.{Text, member}
use lad_translate.Db.Tenancy.{
  reserved_name, unsafe_name, empty_name, Checked, ok, error, validate_schema, matches_body,
  before_newline, is_letter, is_name_char, all_name_chars, reserved_schemas,
}

-- A letter, then at most 62 letters, digits and underscores.
pub record IsIdentifier (s : Text) : Type 0 where
  pub first : ℕ
  pub rest : Text
  pub spelt : s ≡ first ∷ rest
  pub letter : is_letter first ≡ true
  pub chars : All (λ c. is_name_char c ≡ true) rest
  pub short : length s ≤ 63

-- An identifier, by itself or with a newline behind it; the name as a whole is not reserved.
pub record IsAccepted (name : Text) : Type 0 where
  pub core : Text
  pub identifier : IsIdentifier core
  pub spelling : (name ≡ core) ⊎ (name ≡ core ++ 10 ∷ [])
  pub unreserved : member name reserved_schemas ≡ false

both_true : (a b : Bool) → a && b ≡ true → (a ≡ true) × (b ≡ true)
both_true a b h = ground (arith, h)

all_name_chars-All : (s : Text) → all_name_chars s ≡ true → All (λ c. is_name_char c ≡ true) s
all_name_chars-All [] h = tt
all_name_chars-All (c ∷ s) h =
    let (p, q) = both_true (is_name_char c) (all_name_chars s) h in (p, all_name_chars-All s q)

matches_body-IsIdentifier : (s : Text) → matches_body s ≡ true → IsIdentifier s
unfolding matches_body
matches_body-IsIdentifier [] h = cc h
matches_body-IsIdentifier (c ∷ s) h =
    let (p, q) = both_true (is_letter c) (all_name_chars s && leb (length s) 62) h in
    let (chars, short) = both_true (all_name_chars s) (leb (length s) 62) q in
    record {
      first = c;
      rest = s;
      spelt = refl;
      letter = p;
      chars = all_name_chars-All s chars;
      short = omega (arith, leb→le _ _ short);
    }

before_newline_cases : (s : Text) → (s ≡ before_newline s) ⊎ (s ≡ before_newline s ++ 10 ∷ [])
unfolding before_newline
before_newline_cases [] = inl refl
before_newline_cases (c ∷ []) = elim (Bool-cases (c == 10)) [
  | inl e ↦ rw (e, before_newline) (inr (ap (λ n. n ∷ []) ((==_iff c 10).0 e)))
  | inr e ↦ rw (e, before_newline) (inl refl)
]
before_newline_cases (c ∷ (d ∷ s)) = elim (before_newline_cases (d ∷ s)) [
  | inl e ↦ inl (ap (λ t. c ∷ t) e)
  | inr e ↦ inr (ap (λ t. c ∷ t) e)
]

abbrev name_or : Text → Checked Text → Text
name_or other (ok name) = name
name_or other (error e) = other

-- A name that `validate_schema` accepts comes back unchanged; it is no reserved name, and it is an
-- identifier of at most 63 characters, or such an identifier with a newline behind it.
pub validate_schema-IsAccepted :
    (name result : Text) → validate_schema name ≡ ok result → (result ≡ name) × IsAccepted name
unfolding validate_schema
validate_schema-IsAccepted name result h =
    by_tests (length name == 0) (matches_body (before_newline name)) (member name reserved_schemas)
      refl refl h
  where
    by_tests :
        (empty matching reserved : Bool)
        → matches_body (before_newline name) ≡ matching
        → member name reserved_schemas ≡ reserved
        → (if empty
            then error empty_name
            else if not matching
            then error unsafe_name
            else if reserved
            then error reserved_name
            else ok name)
          ≡ ok result
        → (result ≡ name) × IsAccepted name
    by_tests true matching reserved m r e = absurd (cc e)
    by_tests false false reserved m r e = absurd (cc e)
    by_tests false true true m r e = absurd (cc e)
    by_tests false true false m r e = (
      sym (ap (name_or name) e),
      record {
        core = before_newline name;
        identifier = matches_body-IsIdentifier (before_newline name) m;
        spelling = before_newline_cases name;
        unreserved = r;
      },
    )
