-- ===== src/Examples/Opus.antt =====
-- The theorems about the Opus adapter, with a pair model for French and a family model for Telugu.
use lad_translate.Common.{
  if◌then◌else◌, ◌>>=◌, ℕ, ◌≡◌, refl, Bool, false, ◌&&◌, ◌||◌, none, some, List, [], ◌∷◌,
}
use lad_translate.Common.Text.{Text, codes, text_eq, member, split, join}
use lad_translate.Common.Dict
use lad_translate.Common.Dict.{Dict, text_key}
use lad_translate.Mt.Opus.{
  Cases, Model, OpusMt, opened, new_opus, supports, translate_sync, translate_many,
}
use lad_translate.Mt.Opus.Loading.{HasTarget, adapter_or, new_opus-HasTarget}
use lad_translate.Mt.Opus.Fan.{translate_many-answers}

abbrev has_model : Text → Bool
has_model directory = text_eq directory (codes "en-fr") || text_eq directory (codes "en-dra")

abbrev echo : Text → ℕ → Model
echo path workers = record {
  path = path;
  workers = workers;
  encode = λ text. split text;
  decode = λ tokens. join tokens;
  eos = codes "</s>";
  translate_batch = λ tokens beam longest. some tokens;
}

abbrev no_cases : Cases
no_cases = record { is_upper = λ s. false; lower = λ s. s }

abbrev no_adapter : OpusMt
no_adapter = record {
  source_language = codes "en";
  cases = no_cases;
  beam_size = 1;
  max_output_ratio = 3000;
  pairs = [];
}

abbrev pub chosen : List Text
chosen = codes "fr" ∷ codes "te" ∷ []

abbrev pub adapter : OpusMt
adapter = adapter_or no_adapter (new_opus has_model echo no_cases (codes "en") chosen 1 3000)

pool_starts : new_opus has_model echo no_cases (codes "en") chosen 1 3000 ≡ opened adapter
unfolding new_opus Dict.insert
pool_starts = refl

new_opus-HasTarget_example : HasTarget has_model echo (codes "en") chosen adapter (codes "te")
new_opus-HasTarget_example =
    new_opus-HasTarget has_model echo no_cases (codes "en") (codes "te") chosen 1 3000 adapter
      pool_starts

translate_many-answers_example :
    let answers = translate_many adapter (codes "hello") (codes "en") chosen in
    Dict.HasUniqueKeys answers
    × (Dict.lookup (codes "te") answers ≡ (
        if member (codes "te") chosen && supports adapter (codes "en") (codes "te")
        then some (elim (translate_sync adapter (codes "hello") (codes "te")) [
          | none ↦ []
          | some words ↦ words
        ])
        else none))
translate_many-answers_example =
    translate_many-answers adapter (codes "hello") (codes "en") (codes "te") chosen

-- The family model is told the language, and the text ends.
told_telugu :
    translate_sync adapter (codes "hello") (codes "te") ≡ some (codes ">>tel<< hello </s>")
unfolding translate_sync new_opus Dict.lookup ◌>>=◌ split join Dict.insert
told_telugu = refl
