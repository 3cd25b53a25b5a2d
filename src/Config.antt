-- ===== src/Config.antt =====
-- config.py: the configuration of a session. A constructor that checks its fields returns a result,
-- with one error for each ValueError.
pub mod Targets
pub mod Contexts
use lad_translate.Common.{
  ltb, ◌==◌, if◌then◌else◌, length, ℕ, suc, ◌*◌, not, Option, none, some, List, [], ◌∷◌,
}
use lad_translate.Chunker.Types.{ChunkerConfig}
use lad_translate.Common.Dict
use lad_translate.Common.Dict.{Dict, text_key}
use lad_translate.Common.Text.{Text, codes, text_eq, member}

pub data ConfigError : Type 0 where
  no_tenant_id no_database_url no_schema no_code no_targets too_many_targets duplicate_targets
        source_is_target :
      ConfigError

pub data Made {ℓ} (A : Type ℓ) : Type ℓ where
  made : A → Made A
  refused : ConfigError → Made A

pub record TenantContext : Type 0 where
  pub tenant_id : Text
  pub database_url : Text
  pub schema : Text

unfoldable pub new_context : Text → Text → Text → Made TenantContext
new_context tenant_id database_url schema =
    if length tenant_id == 0
    then refused no_tenant_id
    else if length database_url == 0
    then refused no_database_url
    else if length schema == 0
    then refused no_schema
    else made (record { tenant_id = tenant_id; database_url = database_url; schema = schema })

pub record LanguageTarget : Type 0 where
  pub code : Text
  pub voice_id : Text
  pub label : Text

unfoldable pub new_target : Text → Text → Text → Made LanguageTarget
new_target code voice_id label =
    if length code == 0
    then refused no_code
    else made (record { code = code; voice_id = voice_id; label = label })

pub record BackendSelection : Type 0 where
  pub stt : Text
  pub mt : Text
  pub tts : Text

-- `os.getenv(name, default)`
abbrev pub getenv_or : Text → Text → Dict Text Text → Text
getenv_or name default env = elim (Dict.lookup name env) [ none ↦ default | some v ↦ v ]

-- `BackendSelection()` in an environment.
unfoldable pub default_backends : Dict Text Text → BackendSelection
default_backends env = record {
  stt = getenv_or (codes "STT_BACKEND") (codes "faster-whisper") env;
  mt = getenv_or (codes "MT_BACKEND") (codes "opus-mt") env;
  tts = getenv_or (codes "TTS_BACKEND") (codes "piper") env;
}

-- Durations are in nanoseconds, and the fraction in thousandths.
pub record SessionLimits : Type 0 where
  pub max_duration_s : ℕ
  pub max_languages : ℕ
  pub max_idle_s : ℕ
  pub warn_at_fraction : ℕ

abbrev pub default_limits : SessionLimits
default_limits = record {
  max_duration_s = 4 * 60 * 60 * 1_000_000_000;
  max_languages = 8;
  max_idle_s = 15 * 60 * 1_000_000_000;
  warn_at_fraction = 900;
}

pub record SessionConfig : Type 0 where
  pub session_id : Text
  pub tenant : TenantContext
  pub room_name : Text
  pub event_name : Text
  pub source_language : Text
  pub targets : List LanguageTarget
  pub backends : BackendSelection
  pub chunker : ChunkerConfig
  pub limits : SessionLimits
  pub slo_seconds : ℕ

abbrev pub codes_of : List LanguageTarget → List Text
codes_of [] = []
codes_of (t ∷ ts) = t.code ∷ codes_of ts

unfoldable pub target_codes : SessionConfig → List Text
target_codes c = codes_of c.targets

-- `len(set(codes))`
unfoldable pub count_distinct : List Text → ℕ
count_distinct [] = 0
count_distinct (t ∷ ts) = let rest = count_distinct ts in if member t ts then rest else suc rest

-- `__post_init__` of SessionConfig, whose fields are those of `c`.
unfoldable pub check_session : SessionConfig → Made SessionConfig
unfolding count_distinct target_codes
check_session c =
    if length c.targets == 0
    then refused no_targets
    else if ltb c.limits.max_languages (length c.targets)
    then refused too_many_targets
    else if not (length (target_codes c) == count_distinct (target_codes c))
    then refused duplicate_targets
    else if member c.source_language (target_codes c)
    then refused source_is_target
    else made c

abbrev pub voice_among : Text → List LanguageTarget → Option Text
voice_among code [] = none
voice_among code (t ∷ ts) =
    let rest = voice_among code ts in if text_eq t.code code then some t.voice_id else rest

-- `none` is the KeyError.
unfoldable pub voice_for : SessionConfig → Text → Option Text
voice_for c code = voice_among code c.targets
