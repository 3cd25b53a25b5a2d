-- ===== src/Examples/Whispers.antt =====
-- The theorems about the Whisper recogniser, on short streams, and about the backends.
use lad_translate.Adapters.Events.{AudioFrame}
use lad_translate.Adapters.Registry.{BackendSpec, stt_backends, mt_backends, tts_backends}
use lad_translate.Stt.Whisper.{
  default_options, Pass, Ear, WhisperStt, new_whisper, window_s, on_frame, transcribe,
}
use lad_translate.Stt.Whisper.Cumulative.{IsCumulative, transcribe-IsCumulative}
use lad_translate.Stt.Whisper.Window.{on_frame-window, noise_grows}
use lad_translate.Common.Text.{Text, codes}
use lad_translate.Common.Text.Strip.{nil-IsStripped}
use lad_translate.Common.Dict
use lad_translate.Common.Dict.{Dict, text_key}
use lad_translate.Common.{ℕ, ◌<◌, ◌≡◌, refl, ◌⊎◌, Option, none, some, List, [], ◌∷◌, arith}

abbrev ear : Ear ℕ
ear = record { resample = λ f. f.pcm; rms = λ xs. 20_000; lower = λ s. s }

abbrev frame : ℕ → AudioFrame
frame t = record { pcm = 1 ∷ 2 ∷ []; sample_rate = 16_000; t_audio = t; t_wall = t }

abbrev said : Text → ℕ → Pass
said text now = record {
  segments = record { text = text; no_speech_prob = 10; doubt = 100 } ∷ [];
  elapsed_s = 100_000_000;
  now = now;
}

abbrev nothing_said : Pass
nothing_said = record { segments = []; elapsed_s = 100_000_000; now = 0 }

abbrev start : WhisperStt ℕ
start = new_whisper

abbrev events : List (AudioFrame × Pass)
events = (frame 0, said (codes "hello") 1) ∷ (frame 600_000_000, said (codes "hello all") 2) ∷ []

transcribe-IsCumulative_example :
    IsCumulative 0 []
      (transcribe default_options ear events (said (codes "hello all of you") 3) start).0
transcribe-IsCumulative_example =
    transcribe-IsCumulative default_options ear events (said (codes "hello all of you") 3) start
      nil-IsStripped

on_frame-window_example :
    let out = on_frame default_options ear (frame 0) (said (codes "hello") 1) start in
    (window_s default_options ear out.1.buffer < 8_000_000_000)
    ⊎ ((out.0 ≡ none) × (out.1.buffer ≡ 1 ∷ 2 ∷ []))
on_frame-window_example =
    on_frame-window default_options ear (frame 0) (said (codes "hello") 1) start (omega arith)

abbrev noise : List (AudioFrame × Pass)
noise = (frame 0, nothing_said) ∷ (frame 9_000_000_000, nothing_said) ∷ []

noise_grows_example :
    let out = transcribe default_options ear noise nothing_said start in
    (out.0 ≡ []) × (out.1.buffer ≡ 1 ∷ 2 ∷ 1 ∷ 2 ∷ [])
noise_grows_example =
    noise_grows default_options ear noise nothing_said start (omega arith)
      ((refl, refl, refl), ((refl, refl, refl), tt)) refl

abbrev spec_or : Option BackendSpec → BackendSpec
spec_or none = record { name = []; credible_on = []; note = [] }
spec_or (some s) = s

abbrev whisper : BackendSpec
unfolding stt_backends Dict.lookup
whisper = spec_or (Dict.lookup (codes "faster-whisper") stt_backends)

abbrev opus : BackendSpec
unfolding mt_backends Dict.lookup
opus = spec_or (Dict.lookup (codes "opus-mt") mt_backends)

abbrev piper : BackendSpec
unfolding tts_backends Dict.lookup
piper = spec_or (Dict.lookup (codes "piper") tts_backends)

whisper_listed : Dict.lookup (codes "faster-whisper") stt_backends ≡ some whisper
unfolding stt_backends Dict.lookup whisper
whisper_listed = refl

opus_listed : Dict.lookup (codes "opus-mt") mt_backends ≡ some opus
unfolding mt_backends Dict.lookup opus
opus_listed = refl

piper_listed : Dict.lookup (codes "piper") tts_backends ≡ some piper
unfolding tts_backends Dict.lookup piper
piper_listed = refl
