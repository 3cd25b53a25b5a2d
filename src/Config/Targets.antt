-- ===== src/Config/Targets.antt =====
-- The target languages of a session that is accepted.
use lad_translate.Common.{
  ltb, ◌==◌, if◌then◌else◌, ltb-false→le, ==_iff, Bool-cases, length, All, ◌≤◌, ◌≡◌, refl, inl, inr,
  Bool, true, false, not, some, List, [], ◌∷◌, arith,
}
use lad_translate.Common.Text.{Text, text_eq_iff, member}
use lad_translate.Config.{
  made, refused, SessionConfig, LanguageTarget, codes_of, target_codes, count_distinct,
  check_session, voice_among, voice_for, no_targets, too_many_targets, duplicate_targets,
  source_is_target,
}

-- No text stands twice in the list.
abbrev pub IsDistinct : List Text → Type 0
IsDistinct [] = Unit
IsDistinct (t ∷ ts) = (member t ts ≡ false) × IsDistinct ts

count_distinct_le : (ts : List Text) → count_distinct ts ≤ length ts
unfolding count_distinct
count_distinct_le [] = omega arith
count_distinct_le (t ∷ ts) = ground (arith, count_distinct_le ts)

count_distinct-IsDistinct : (ts : List Text) → length ts ≡ count_distinct ts → IsDistinct ts
unfolding count_distinct
count_distinct-IsDistinct [] h = tt
count_distinct-IsDistinct (t ∷ ts) h = elim (Bool-cases (member t ts)) [
  | inl e ↦ absurd (ground (arith, count_distinct_le ts, h, e))
  | inr e ↦ (e, count_distinct-IsDistinct ts (ground (arith, h, e)))
]

-- What `check_session` demands.
pub record IsSensible (c : SessionConfig) : Type 0 where
  pub some_target : 1 ≤ length c.targets
  pub capped : length c.targets ≤ c.limits.max_languages
  pub distinct : IsDistinct (target_codes c)
  pub foreign : member c.source_language (target_codes c) ≡ false

-- Each target's voice is the one that is looked up by its code.
abbrev pub HasOwnVoices : SessionConfig → Type 0
HasOwnVoices c = All (λ t. voice_for c t.code ≡ some t.voice_id) c.targets

voices-later :
    (t : LanguageTarget) (ts us : List LanguageTarget)
    → member t.code (codes_of us) ≡ false
    → All (λ u. voice_among u.code ts ≡ some u.voice_id) us
    → All (λ u. voice_among u.code (t ∷ ts) ≡ some u.voice_id) us
voices-later t ts [] h k = tt
voices-later t ts (u ∷ us) h k = (
  ground (arith, h, k.0, text_eq_iff t.code u.code),
  voices-later t ts us (ground (arith, h)) k.1,
)

voices-own :
    (ts : List LanguageTarget)
    → IsDistinct (codes_of ts)
    → All (λ u. voice_among u.code ts ≡ some u.voice_id) ts
voices-own [] h = tt
voices-own (t ∷ ts) h =
    (ground (arith, text_eq_iff t.code t.code), voices-later t ts ts h.0 (voices-own ts h.1))

-- A configuration that `check_session` accepts comes back unchanged, has from one to
-- `max_languages` targets with distinct codes, none of them the source language, and finds for each
-- target its own voice.
pub check_session-IsSensible :
    (c c' : SessionConfig) → check_session c ≡ made c' → (c' ≡ c) × IsSensible c × HasOwnVoices c
unfolding check_session target_codes voice_for
check_session-IsSensible c c' h =
    by_tests (length c.targets == 0) (ltb c.limits.max_languages (length c.targets))
      (length (target_codes c) == count_distinct (target_codes c))
      (member c.source_language (target_codes c)) refl refl refl refl h
  where
    by_tests :
        (empty over distinct echoes : Bool)
        → (length c.targets == 0) ≡ empty
        → ltb c.limits.max_languages (length c.targets) ≡ over
        → (length (target_codes c) == count_distinct (target_codes c)) ≡ distinct
        → member c.source_language (target_codes c) ≡ echoes
        → (if empty
            then refused no_targets
            else if over
            then refused too_many_targets
            else if not distinct
            then refused duplicate_targets
            else if echoes
            then refused source_is_target
            else made c)
          ≡ made c'
        → (c' ≡ c) × IsSensible c × HasOwnVoices c
    by_tests true over distinct echoes p q r s e = absurd (cc e)
    by_tests false true distinct echoes p q r s e = absurd (cc e)
    by_tests false false false echoes p q r s e = absurd (cc e)
    by_tests false false true true p q r s e = absurd (cc e)
    by_tests false false true false p q r s e =
        let d =
          count_distinct-IsDistinct (target_codes c)
            ((==_iff (length (target_codes c)) (count_distinct (target_codes c))).0 r) in
        (
          cc e,
          record {
            some_target = ground (arith, p);
            capped = ltb-false→le _ _ q;
            distinct = d;
            foreign = s;
          },
          voices-own c.targets d,
        )
