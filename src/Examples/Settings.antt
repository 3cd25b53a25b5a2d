-- ===== src/Examples/Settings.antt =====
-- The theorem about a session's configuration with two targets.
use lad_translate.Common.{◌≡◌, refl, [], ◌∷◌}
use lad_translate.Chunker.Types.{default_config}
use lad_translate.Common.Text.{codes}
use lad_translate.Config.{made, SessionConfig, default_limits, default_backends, check_session}
use lad_translate.Config.Targets.{IsSensible, HasOwnVoices, check_session-IsSensible}

abbrev pub session : SessionConfig
session = record {
  session_id = codes "s1";
  tenant = record { tenant_id = codes "1"; database_url = codes "db"; schema = codes "lad_acme" };
  room_name = codes "hall";
  event_name = codes "keynote";
  source_language = codes "en";
  targets =
      record { code = codes "fr"; voice_id = codes "siwis"; label = codes "French" }
      ∷ record { code = codes "hi"; voice_id = codes "priya"; label = codes "Hindi" }
      ∷ [];
  backends = default_backends [];
  chunker = default_config;
  limits = default_limits;
  slo_seconds = 2_000_000_000;
}

session_accepted : check_session session ≡ made session
unfolding check_session
session_accepted = refl

check_session-IsSensible_example : (session ≡ session) × IsSensible session × HasOwnVoices session
check_session-IsSensible_example = check_session-IsSensible session session session_accepted
