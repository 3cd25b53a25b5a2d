-- ===== src/Examples/Voices.antt =====
-- The theorem about speech, with one French voice that makes two pieces.
use lad_translate.Common.{◌==◌, if◌then◌else◌, length, ◌≡◌, refl, true, false, none, some, [], ◌∷◌}
use lad_translate.Common.Text.{codes, strip}
use lad_translate.Common.Dict
use lad_translate.Common.Dict.{Dict, text_key}
use lad_translate.Tts.Piper.{
  VoiceSpec, PiperVoice, PiperTts, loaded, new_piper, finished, raised, length_scale, synthesise,
}
use lad_translate.Tts.Piper.Stream.{IsStream, piper_or, synthesise-IsStream}

abbrev siwis : PiperVoice
siwis = record {
  sample_rate = 22_050;
  synthesize = λ text scale. ((1 ∷ []) ∷ (2 ∷ []) ∷ [], false);
}

abbrev no_voices : PiperTts
no_voices = record { names = []; voices = []; common_rate = none }

abbrev one_voice : PiperTts
one_voice = piper_or no_voices (new_piper (λ name. true) (λ name. siwis) (codes "fr" ∷ []) [])

it_starts : new_piper (λ name. true) (λ name. siwis) (codes "fr" ∷ []) [] ≡ loaded one_voice
unfolding new_piper Dict.insert Dict.lookup Dict.update
it_starts = refl

its_voice : Dict.lookup (codes "fr") one_voice.voices ≡ some siwis
unfolding new_piper Dict.insert Dict.lookup Dict.update
its_voice = refl

has_words : (length (strip (codes "bonjour")) == 0) ≡ false
unfolding strip
has_words = refl

abbrev in_french : VoiceSpec
in_french = record { language = codes "fr"; voice_id = codes "siwis"; speed = 1000 }

synthesise-IsStream_example :
    let made = siwis.synthesize (codes "bonjour") (length_scale 1000) in
    let out = synthesise one_voice (codes "bonjour") in_french 7 (λ i. i) in
    IsStream made.0 22_050 out.0 × (out.1 ≡ (if made.1 then raised else finished))
synthesise-IsStream_example =
    synthesise-IsStream (λ name. true) (λ name. siwis) (codes "fr" ∷ []) [] one_voice
      (codes "bonjour") in_french 7 (λ i. i) siwis it_starts its_voice has_words
