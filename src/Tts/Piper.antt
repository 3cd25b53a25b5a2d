-- ===== src/Tts/Piper.antt =====
-- adapters/tts_piper.py, with VoiceSpec and SpeechChunk of adapters/base.py. Piper's voice is the
-- record PiperVoice. A speed is in thousandths.
pub mod Stream
use lad_translate.Common.{
  ltb, ◌==◌, if◌then◌else◌, length, ℕ, ◌+◌, Bool, true, false, Option, none, some, List, [], ◌∷◌,
}
use lad_translate.Common.Text.{Text, codes, strip}
use lad_translate.Common.Dict
use lad_translate.Common.Dict.{Dict, text_key}

pub record VoiceSpec : Type 0 where
  pub language : Text
  pub voice_id : Text
  pub speed : ℕ

pub record SpeechChunk : Type 0 where
  pub pcm : List ℕ
  pub sample_rate : ℕ
  pub chunk_id : ℕ
  pub language : Text
  pub is_last : Bool
  pub t_wall : ℕ

abbrev pub default_voices : Dict Text Text
default_voices =
    (codes "fr", codes "fr_FR-siwis-medium")
    ∷ (codes "de", codes "de_DE-thorsten-medium")
    ∷ (codes "es", codes "es_ES-davefx-medium")
    ∷ (codes "ar", codes "ar_JO-kareem-medium")
    ∷ (codes "te", codes "te_IN-maya-medium")
    ∷ (codes "hi", codes "hi_IN-pratham-medium")
    ∷ []

-- `synthesize` takes the text and the length scale, a fraction, and gives the pieces of audio and
-- whether it raises behind them.
pub record PiperVoice : Type 0 where
  pub sample_rate : ℕ
  pub synthesize : Text → ℕ × ℕ → List (List ℕ) × Bool

pub record PiperTts : Type 0 where
  pub names : Dict Text Text
  pub voices : Dict Text PiperVoice
  pub common_rate : Option ℕ

-- The KeyError, the FileNotFoundError and the ValueError of `_load`.
pub data LoadError : Type 0 where
  no_name no_file mixed_rates : LoadError

pub data Loaded : Type 0 where
  loaded : PiperTts → Loaded
  failed : LoadError → Loaded

abbrev pub with_rate : PiperTts → ℕ → Option ℕ → Loaded
with_rate p rate none = loaded (record p { common_rate = some rate })
with_rate p rate (some common) = if rate == common then loaded p else failed mixed_rates

abbrev pub load_name : (Text → Bool) → (Text → PiperVoice) → Text → PiperTts → Option Text → Loaded
load_name has_file load_voice language p none = failed no_name
load_name has_file load_voice language p (some name) =
    if has_file name
    then with_rate (record p { voices = Dict.insert language (load_voice name) p.voices })
        (load_voice name).sample_rate p.common_rate
    else failed no_file

-- One round of the loop of `_load`.
unfoldable pub load_one : (Text → Bool) → (Text → PiperVoice) → Text → PiperTts → Loaded
unfolding Dict.lookup Dict.insert
load_one has_file load_voice language p =
    load_name has_file load_voice language p (Dict.lookup language p.names)

unfoldable pub load : (Text → Bool) → (Text → PiperVoice) → List Text → PiperTts → Loaded
unfolding load_one
load has_file load_voice [] p = loaded p
load has_file load_voice (language ∷ languages) p = elim (load_one has_file load_voice language p) [
  | loaded q ↦ load has_file load_voice languages q
  | failed e ↦ failed e
]

-- `voices or {}`
unfoldable pub new_piper : (Text → Bool) → (Text → PiperVoice) → List Text → Dict Text Text → Loaded
unfolding load Dict.update
new_piper has_file load_voice languages voices =
    load has_file load_voice languages
      (record { names = Dict.update default_voices voices; voices = []; common_rate = none })

unfoldable pub supports : PiperTts → Text → Bool
unfolding Dict.lookup
supports p language = elim (Dict.lookup language p.voices) [ none ↦ false | some v ↦ true ]

-- How a stream ends. `waiting` is a `get` that nothing answers.
pub data Ending : Type 0 where
  finished raised waiting : Ending

abbrev pub is_end : Option (List ℕ) → Bool
is_end none = true
is_end (some piece) = false

-- The loop over `queue`, from the piece that was taken from it last. Without a common rate the
-- property `sample_rate` raises. The clock is read at each `yield`.
unfoldable pub yield_all :
    Option ℕ
    → Text
    → ℕ
    → (ℕ → ℕ)
    → ℕ
    → Option (List ℕ)
    → List (Option (List ℕ))
    → List SpeechChunk × Ending
yield_all rate language chunk_id clock i none queue = ([], finished)
yield_all rate language chunk_id clock i (some pending) [] = ([], waiting)
yield_all none language chunk_id clock i (some pending) (nxt ∷ queue) = ([], raised)
yield_all (some rate) language chunk_id clock i (some pending) (nxt ∷ queue) =
    let rest = yield_all (some rate) language chunk_id clock (i + 1) nxt queue in
    (
      record {
        pcm = pending;
        sample_rate = rate;
        chunk_id = chunk_id;
        language = language;
        is_last = is_end nxt;
        t_wall = clock i;
      }
          ∷ rest.0,
      rest.1,
    )

abbrev pub from_queue :
    Option ℕ → Text → ℕ → (ℕ → ℕ) → List (Option (List ℕ)) → List SpeechChunk × Ending
from_queue rate language chunk_id clock [] = ([], waiting)
from_queue rate language chunk_id clock (first ∷ queue) =
    yield_all rate language chunk_id clock 0 first queue

-- What `produce` puts into the queue.
unfoldable pub produce : List (List ℕ) → List (Option (List ℕ))
produce [] = none ∷ []
produce (piece ∷ pieces) = some piece ∷ produce pieces

-- `1.0 / voice.speed if voice.speed > 0 else 1.0`
unfoldable pub length_scale : ℕ → ℕ × ℕ
length_scale speed = if ltb 0 speed then (1000, speed) else (1, 1)

-- `await future` raises what the synthesis raised.
abbrev pub await_future : Bool → List SpeechChunk × Ending → List SpeechChunk × Ending
await_future fails (chunks, finished) = (chunks, (if fails then raised else finished))
await_future fails (chunks, raised) = (chunks, raised)
await_future fails (chunks, waiting) = (chunks, waiting)

abbrev pub speak_with :
    PiperTts → Text → VoiceSpec → ℕ → (ℕ → ℕ) → Option PiperVoice → List SpeechChunk × Ending
speak_with p text voice chunk_id clock none = ([], raised)
speak_with p text voice chunk_id clock (some v) =
    let made = v.synthesize text (length_scale voice.speed) in
    if length (strip text) == 0
    then ([], finished)
    else await_future made.1
        (from_queue p.common_rate voice.language chunk_id clock (produce made.0))

unfoldable pub synthesise : PiperTts → Text → VoiceSpec → ℕ → (ℕ → ℕ) → List SpeechChunk × Ending
unfolding length_scale yield_all produce Dict.lookup
synthesise p text voice chunk_id clock =
    speak_with p text voice chunk_id clock (Dict.lookup voice.language p.voices)
