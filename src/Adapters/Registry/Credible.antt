-- ===== src/Adapters/Registry/Credible.antt =====
-- What adapters/registry.py says of a set of backends.
use lad_translate.Adapters.Registry.{
  BackendSpec, is_credible, stt_backends, mt_backends, tts_backends, Built, built, unknown,
  not_written, build_stt, build_mt, build_tts, BackendCapabilities, report, blocking, capabilities,
  with_warning, note_of, caps_of,
}
use lad_translate.Common.Dict
use lad_translate.Common.Dict.{Dict, text_key}
use lad_translate.Common.Text.{Text, codes, text_eq}
use lad_translate.Common.{
  Bool-cases, length, ◌≡◌, refl, ◌↔◌, inl, inr, Bool, true, false, ◌&&◌, Option, none, some, List,
  [], ◌∷◌, arith,
}

-- Nothing blocks a set exactly when each of its three backends is credible.
blocking_iff :
    (device stt mt tts : Text) (a b c : BackendSpec)
    → (blocking device stt a mt b tts c ≡ [])
      ↔ ((is_credible device a && (is_credible device b && is_credible device c)) ≡ true)
unfolding blocking
blocking_iff device stt mt tts a b c = elim (Bool-cases (is_credible device a)) [
  | inr e ↦ rw e ((λ x. absurd (cc x)), λ x. absurd (cc x))
  | inl e ↦ elim (Bool-cases (is_credible device b)) [
    | inr f ↦ rw (e, f) ((λ x. absurd (cc x)), λ x. absurd (cc x))
    | inl f ↦ elim (Bool-cases (is_credible device c)) [
      | inr g ↦ rw (e, f, g) ((λ x. absurd (cc x)), λ x. absurd (cc x))
      | inl g ↦ rw (e, f, g) ((λ x. refl), λ x. refl)
    ]
  ]
]

abbrev is_unknown : {A : Type 0} → Built A → Bool
is_unknown (built x) = false
is_unknown unknown = true
is_unknown not_written = false

abbrev is_missing : {A : Type 0} → Option A → Bool
is_missing none = true
is_missing (some x) = false

stt-known : (name : Text) → is_unknown (build_stt name) ≡ is_missing (Dict.lookup name stt_backends)
unfolding build_stt stt_backends Dict.lookup
stt-known name = elim (Bool-cases (text_eq (codes "faster-whisper") name)) [
  | inl e ↦ rw e refl
  | inr e ↦ elim (Bool-cases (text_eq (codes "fastconformer") name)) [
    | inl f ↦ rw (e, f) refl
    | inr f ↦ elim (Bool-cases (text_eq (codes "qwen3-asr") name)) [
      | inl g ↦ rw (e, f, g) refl
      | inr g ↦ rw (e, f, g) refl
    ]
  ]
]

mt-known : (name : Text) → is_unknown (build_mt name) ≡ is_missing (Dict.lookup name mt_backends)
unfolding build_mt mt_backends Dict.lookup
mt-known name = elim (Bool-cases (text_eq (codes "opus-mt") name)) [
  | inl e ↦ rw e refl
  | inr e ↦ elim (Bool-cases (text_eq (codes "nllb-200") name)) [
    | inl f ↦ rw (e, f) refl
    | inr f ↦ elim (Bool-cases (text_eq (codes "routing") name)) [
      | inl g ↦ rw (e, f, g) refl
      | inr g ↦ rw (e, f, g) refl
    ]
  ]
]

tts-known : (name : Text) → is_unknown (build_tts name) ≡ is_missing (Dict.lookup name tts_backends)
unfolding build_tts tts_backends Dict.lookup
tts-known name = elim (Bool-cases (text_eq (codes "piper") name)) [
  | inl e ↦ rw e refl
  | inr e ↦ elim (Bool-cases (text_eq (codes "kokoro") name)) [
    | inl f ↦ rw (e, f) refl
    | inr f ↦ elim (Bool-cases (text_eq (codes "chatterbox") name)) [
      | inl g ↦ rw (e, f, g) refl
      | inr g ↦ rw (e, f, g) refl
    ]
  ]
]

-- The builders know exactly the names that the tables have, for each of the three kinds.
pub build-known :
    (name : Text)
    → (is_unknown (build_stt name) ≡ is_missing (Dict.lookup name stt_backends))
      × (is_unknown (build_mt name) ≡ is_missing (Dict.lookup name mt_backends))
      × (is_unknown (build_tts name) ≡ is_missing (Dict.lookup name tts_backends))
build-known name = (stt-known name, mt-known name, tts-known name)

warning_iff :
    (device : Text) (names : List Text) (x y z : Text)
    → (length (with_warning device names (x ∷ y ∷ z ∷ [])) ≡ 3) ↔ (names ≡ [])
warning_iff device [] x y z = ((λ e. refl), λ e. refl)
warning_iff device (n ∷ ns) x y z = ((λ e. absurd (omega (arith, e))), λ e. absurd (cc e))

-- A report is made exactly for backends that the tables have; it calls the set credible exactly when
-- nothing blocks it, and warns exactly when something does.
pub capabilities-credible :
    (stt mt tts device : Text) (a b c : BackendSpec)
    → Dict.lookup stt stt_backends ≡ some a
    → Dict.lookup mt mt_backends ≡ some b
    → Dict.lookup tts tts_backends ≡ some c
    → (caps : BackendCapabilities) × (capabilities stt mt tts device ≡ report caps)
      × ((caps.latency_credible ≡ true) ↔ (blocking device stt a mt b tts c ≡ []))
      × ((length caps.notes ≡ 3) ↔ (blocking device stt a mt b tts c ≡ []))
unfolding capabilities caps_of
capabilities-credible stt mt tts device a b c e f g =
    let r = blocking_iff device stt mt tts a b c in
    (
      caps_of device stt mt tts a b c,
      rw (e, f, g) refl,
      (r.1, r.0),
      warning_iff device (blocking device stt a mt b tts c) (note_of stt a) (note_of mt b)
          (note_of tts c),
    )
