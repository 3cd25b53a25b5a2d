-- ===== src/Session/Drift.antt =====
-- session/drift.py: `DriftController`, which speeds speech up and skips phrases, language by
pub mod Speed
pub mod Control
-- language, to keep the playout queue short. Speeds are in thousandths of the normal rate.
use lad_translate.Common.{
  ltb, leb, if◌then◌else◌, ℕ, ◌+◌, ◌-◌, ◌*◌, min, max, Bool, false, not, ◌&&◌, Option, none, some,
  List, [], ◌∷◌,
}
use lad_translate.Common.Text.{Text, codes}
use lad_translate.Common.Int.{ℤ, pos, pos_part, ◌+ℤ◌}
use lad_translate.Common.Dict
use lad_translate.Common.Dict.{Dict, text_key}
use lad_translate.Common.Rounding.{round_half_even}

pub record DriftPolicy : Type 0 where
  pub comfortable_s : ℕ
  pub speedup_at_s : ℕ
  pub skip_at_s : ℕ
  pub max_speed : ℕ
  pub language : Option Text

-- The checks of `__post_init__`, in order.
pub data PolicyError : Type 0 where
  thresholds_must_increase max_speed_too_low ramp_too_short : PolicyError

pub data Checked : Type 0 where
  ok : DriftPolicy → Checked
  err : PolicyError → Checked

unfoldable pub check_policy : DriftPolicy → Checked
check_policy p =
    if not (ltb p.comfortable_s p.speedup_at_s && ltb p.speedup_at_s p.skip_at_s)
    then err thresholds_must_increase
    else if ltb p.max_speed 1000
    then err max_speed_too_low
    else if ltb (p.skip_at_s - p.speedup_at_s) 500_000_000
    then err ramp_too_short
    else ok p

abbrev pub default_policy_values : DriftPolicy
default_policy_values = record {
  comfortable_s = 500_000_000;
  speedup_at_s = 1_500_000_000;
  skip_at_s = 6_000_000_000;
  max_speed = 1300;
  language = none;
}

-- `LANGUAGE_POLICIES`
abbrev pub language_policies : Dict Text DriftPolicy
language_policies =
    (
      codes "ar",
      record {
        comfortable_s = 400_000_000;
        speedup_at_s = 1_000_000_000;
        skip_at_s = 6_000_000_000;
        max_speed = 1300;
        language = some (codes "ar");
      },
    )
    ∷ []

pub record LanguageDrift : Type 0 where
  pub language : Text
  pub queue_depth_s : ℕ
  pub peak_depth_s : ℕ
  pub skipped_phrases : ℕ
  pub skipped_seconds : ℤ
  pub speedup_phrases : ℕ

abbrev pub new_drift : Text → LanguageDrift
new_drift language = record {
  language = language;
  queue_depth_s = 0;
  peak_depth_s = 0;
  skipped_phrases = 0;
  skipped_seconds = pos 0;
  speedup_phrases = 0;
}

pub record DriftController : Type 0 where
  pub default_policy : DriftPolicy
  pub policies : Dict Text DriftPolicy
  pub state : Dict Text LanguageDrift

-- `a or b` on policies, which are never false.
abbrev pub or_else : Option DriftPolicy → DriftPolicy → DriftPolicy
or_else none p = p
or_else (some q) p = q

unfoldable pub resolve : Dict Text DriftPolicy → DriftPolicy → Text → DriftPolicy
resolve overrides default language =
    or_else (Dict.lookup language overrides)
      (or_else (Dict.lookup language language_policies) default)

unfoldable pub resolve_all :
    Dict Text DriftPolicy → DriftPolicy → List Text → Dict Text DriftPolicy → Dict Text DriftPolicy
unfolding resolve
resolve_all overrides default [] d = d
resolve_all overrides default (l ∷ ls) d =
    resolve_all overrides default ls (Dict.insert l (resolve overrides default l) d)

unfoldable pub new_states : List Text → Dict Text LanguageDrift → Dict Text LanguageDrift
new_states [] d = d
new_states (l ∷ ls) d = new_states ls (Dict.insert l (new_drift l) d)

-- `none` stands for an argument that is not given.
unfoldable pub new_controller :
    List Text → Option DriftPolicy → Option (Dict Text DriftPolicy) → DriftController
unfolding resolve_all new_states
new_controller languages default policies =
    let fallback = or_else default default_policy_values in
    let overrides : Dict Text DriftPolicy = elim policies [ none ↦ [] | some d ↦ d ] in
    record {
      default_policy = fallback;
      policies = resolve_all overrides fallback languages [];
      state = new_states languages [];
    }

unfoldable pub policy_for : DriftController → Text → DriftPolicy
policy_for c language = or_else (Dict.lookup language c.policies) c.default_policy

-- `max(0.0, queue_depth_s)` is the positive part.
abbrev pub observed : ℕ → LanguageDrift → LanguageDrift
observed depth s = record s { queue_depth_s = depth; peak_depth_s = max s.peak_depth_s depth }

-- A method that looks the language up and changes its state, if there is one.
abbrev pub on_state : (LanguageDrift → LanguageDrift) → DriftController → Text → DriftController
on_state f c language = elim (Dict.lookup language c.state) [
  | none ↦ c
  | some s ↦ record c { state = Dict.insert language (f s) c.state }
]

unfoldable pub observe : DriftController → Text → ℤ → DriftController
observe c language queue_depth_s = on_state (observed (pos_part queue_depth_s)) c language

-- The rate at a queue of `depth`, rounded to thousandths. The ramp is the part of the way from
-- `speedup_at_s` to `skip_at_s`, at most the whole way.
unfoldable pub speed_at : DriftPolicy → ℕ → ℕ
unfolding round_half_even
speed_at p depth =
    let span = p.skip_at_s - p.speedup_at_s in
    let gained = p.max_speed - 1000 in
    if leb depth p.speedup_at_s
    then 1000
    else if ltb 0 span
    then round_half_even (1000 * span + min span (depth - p.speedup_at_s) * gained) span
    else 1000 + gained

abbrev pub counted : DriftPolicy → LanguageDrift → LanguageDrift
counted p s =
    if leb s.queue_depth_s p.speedup_at_s
    then s
    else record s { speedup_phrases = s.speedup_phrases + 1 }

-- `speed_for` counts the phrase as sped up when it is.
unfoldable pub speed_for : DriftController → Text → DriftController × ℕ
unfolding speed_at policy_for
speed_for c language = elim (Dict.lookup language c.state) [
  | none ↦ (c, 1000)
  | some s ↦ (
    on_state (counted (policy_for c language)) c language,
    speed_at (policy_for c language) s.queue_depth_s,
  )
]

unfoldable pub should_skip : DriftController → Text → Bool
unfolding policy_for
should_skip c language = elim (Dict.lookup language c.state) [
  | none ↦ false
  | some s ↦ leb (policy_for c language).skip_at_s s.queue_depth_s
]

abbrev pub skipped : ℤ → LanguageDrift → LanguageDrift
skipped seconds s = record s {
  skipped_phrases = s.skipped_phrases + 1;
  skipped_seconds = s.skipped_seconds +ℤ seconds;
}

unfoldable pub note_skipped : DriftController → Text → ℤ → DriftController
note_skipped c language seconds = on_state (skipped seconds) c language
