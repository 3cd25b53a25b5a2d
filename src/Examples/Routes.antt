-- ===== src/Examples/Routes.antt =====
-- The theorems about the NLLB adapter and about a router over both adapters.
use lad_translate.Examples.Opus.{adapter}
use lad_translate.Common.{
  if◌then◌else◌, length, ◌≡◌, sym, ap, ◌⊎◌, inl, inr, Bool, true, false, ◌&&◌, Option, none, some,
  List, [], ◌∷◌,
}
use lad_translate.Common.Text.{text_eq, Text, codes, member, split}
use lad_translate.Common.Dict
use lad_translate.Common.Dict.{Dict, text_key}
use lad_translate.Mt.Opus.{OpusMt}
use lad_translate.Mt.Nllb
use lad_translate.Mt.Nllb.{Nllb, NllbMt, new_nllb, translate_batch}
use lad_translate.Mt.Nllb.Batch.{IsComplete, translate_many-IsComplete}
use lad_translate.Mt.Routing.{
  MtBackend, Router, opus, nllb, backend_for, wanted, run, translate_many,
}
use lad_translate.Mt.Routing.Shares.{share}
use lad_translate.Mt.Backends.{opus_backend, nllb_backend, IsBuiltIn, translate_many-separate}

-- Says every source again.
abbrev echo : Nllb
echo = record {
  encode = λ text. split text;
  vocab = λ token. some (length token);
  decode = λ ids. ids;
  translate_batch = λ sources prefixes beam longest. some sources;
}

abbrev no_model : NllbMt
no_model = record {
  source_language = [];
  source_code = [];
  targets = [];
  beam_size = 1;
  max_output_ratio = 3000;
  model = echo;
}

abbrev loaded_or : Option NllbMt → NllbMt
loaded_or none = no_model
loaded_or (some n) = n

abbrev hindi : NllbMt
hindi = loaded_or (new_nllb true echo (codes "en") (codes "hi" ∷ []) 1 3000)

abbrev results_or : Option (List (List Text)) → List (List Text)
results_or none = []
results_or (some rs) = rs

abbrev languages : List Text
languages = codes "fr" ∷ codes "hi" ∷ []

-- Each source has its result.
fits :
    (results : List (List Text))
    → translate_batch hindi (codes "hello") (Nllb.wanted hindi (codes "en") languages)
      ≡ some results
    → length results ≡ length (Nllb.wanted hindi (codes "en") languages)
unfolding translate_batch new_nllb Dict.lookup Dict.insert Nllb.wanted
fits results e = sym (ap (λ o. length (results_or o)) e)

translate_many-IsComplete_example :
    (let asked = Nllb.wanted hindi (codes "en") languages in
      IsComplete asked
        (translate_batch hindi (codes "hello") asked ≡ none)
        (Nllb.translate_many hindi (codes "hello") (codes "en") languages))
    × ((t : Text)
        → member t (Nllb.wanted hindi (codes "en") languages)
          ≡ (member t languages && Nllb.supports hindi (codes "en") t))
translate_many-IsComplete_example =
    translate_many-IsComplete hindi (codes "hello") (codes "en") languages fits

abbrev router : Router
router = record {
  source_language = codes "en";
  backends = (opus, opus_backend adapter) ∷ (nllb, nllb_backend hindi) ∷ [];
  assignment = (codes "fr", opus) ∷ (codes "hi", nllb) ∷ [];
}

abbrev backend_or : MtBackend → Option MtBackend → MtBackend
backend_or b none = b
backend_or b (some c) = c

router-IsBuiltIn : IsBuiltIn router
unfolding Dict.lookup
router-IsBuiltIn name b e = by_name (text_eq opus name) (text_eq nllb name) e
  where
    by_name :
        (x y : Bool)
        → (if x
            then some (opus_backend adapter)
            else (if y then some (nllb_backend hindi) else none))
          ≡ some b
        → ((o : OpusMt) × (b ≡ opus_backend o)) ⊎ ((n : NllbMt) × (b ≡ nllb_backend n))
    by_name true y same = inl (adapter, sym (ap (backend_or (opus_backend adapter)) same))
    by_name false true same = inr (hindi, sym (ap (backend_or (nllb_backend hindi)) same))
    by_name false false same = absurd (cc same)

translate_many-separate_example :
    Dict.lookup
      (codes "hi")
      (translate_many router (codes "hello") (codes "en") (codes "fr" ∷ codes "hi" ∷ []))
    ≡ Dict.lookup (codes "hi") (
        run router (codes "hello") (codes "en") (backend_for router (codes "hi")) (
          share router
            (backend_for router (codes "hi"))
            (wanted router (codes "en") (codes "fr" ∷ codes "hi" ∷ []))))
translate_many-separate_example =
    translate_many-separate router (codes "hello") (codes "en") (codes "hi")
      (codes "fr" ∷ codes "hi" ∷ []) router-IsBuiltIn
