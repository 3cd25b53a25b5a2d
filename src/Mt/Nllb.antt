-- ===== src/Mt/Nllb.antt =====
-- adapters/mt_nllb.py. CTranslate2 and the tokenizer are the record Nllb. A ratio is in thousandths.
pub mod Batch
use lad_translate.Common.{
  ltb, if◌then◌else◌, length, replicate, ◌>>=◌, ℕ, ◌*◌, ◌/◌, max, Bool, true, false, ◌&&◌, ◌||◌,
  Option, none, some, List, [], ◌∷◌, ◌++◌,
}
use lad_translate.Common.Text.{Text, codes, text_eq, strip}
use lad_translate.Common.Dict
use lad_translate.Common.Dict.{Dict, text_key}
use lad_translate.Mt.Routing.{from_keys}

-- BCP-47 to FLORES-200
abbrev pub flores : Dict Text Text
flores =
    (codes "ar", codes "arb_Arab")
    ∷ (codes "bn", codes "ben_Beng")
    ∷ (codes "de", codes "deu_Latn")
    ∷ (codes "en", codes "eng_Latn")
    ∷ (codes "es", codes "spa_Latn")
    ∷ (codes "fa", codes "pes_Arab")
    ∷ (codes "fr", codes "fra_Latn")
    ∷ (codes "he", codes "heb_Hebr")
    ∷ (codes "hi", codes "hin_Deva")
    ∷ (codes "id", codes "ind_Latn")
    ∷ (codes "it", codes "ita_Latn")
    ∷ (codes "ja", codes "jpn_Jpan")
    ∷ (codes "kn", codes "kan_Knda")
    ∷ (codes "ko", codes "kor_Hang")
    ∷ (codes "ml", codes "mal_Mlym")
    ∷ (codes "mr", codes "mar_Deva")
    ∷ (codes "nl", codes "nld_Latn")
    ∷ (codes "pt", codes "por_Latn")
    ∷ (codes "ru", codes "rus_Cyrl")
    ∷ (codes "ta", codes "tam_Taml")
    ∷ (codes "te", codes "tel_Telu")
    ∷ (codes "tr", codes "tur_Latn")
    ∷ (codes "ur", codes "urd_Arab")
    ∷ (codes "vi", codes "vie_Latn")
    ∷ (codes "zh", codes "zho_Hans")
    ∷ []

-- `encode` gives the tokens of a text, `vocab` the number of a token and `decode` the text of
-- numbers. `translate_batch` takes the sources, the prefixes, the beam size and the longest output,
-- and gives the first hypothesis for each source, or none when it raises.
pub record Nllb : Type 0 where
  pub encode : Text → List Text
  pub vocab : Text → Option ℕ
  pub decode : List ℕ → Text
  pub translate_batch : List (List Text) → List (List Text) → ℕ → ℕ → Option (List (List Text))

pub record NllbMt : Type 0 where
  pub source_language : Text
  pub source_code : Text
  pub targets : Dict Text Text
  pub beam_size : ℕ
  pub max_output_ratio : ℕ
  pub model : Nllb

-- `{t: FLORES[t] for t in targets}`, and none for the KeyError of an unknown language.
unfoldable pub codes_of : List Text → Dict Text Text → Option (Dict Text Text)
unfolding Dict.lookup ◌>>=◌
codes_of [] d = some d
codes_of (t ∷ ts) d = do code ← Dict.lookup t flores; codes_of ts (Dict.insert t code d)

-- `none` is the FileNotFoundError of a missing model, or the KeyError.
unfoldable pub new_nllb : Bool → Nllb → Text → List Text → ℕ → ℕ → Option NllbMt
unfolding codes_of Dict.lookup ◌>>=◌
new_nllb has_model model source targets beam_size max_output_ratio =
    let opened = do
      source_code ← Dict.lookup source flores
      codes ← codes_of targets []
      some (record {
        source_language = source;
        source_code = source_code;
        targets = codes;
        beam_size = beam_size;
        max_output_ratio = max_output_ratio;
        model = model;
      })
    in if has_model then opened else none

unfoldable pub supports : NllbMt → Text → Text → Bool
unfolding Dict.lookup
supports n source target =
    text_eq source n.source_language
    && elim (Dict.lookup target n.targets) [ none ↦ false | some code ↦ true ]

-- The tokens of the text without those that the tokenizer puts around it.
unfoldable pub body_of : List Text → List Text
body_of [] = []
body_of (t ∷ ts) =
    let rest = body_of ts in
    if text_eq t (codes "<s>") || text_eq t (codes "</s>") then rest else t ∷ rest

unfoldable pub encode : NllbMt → Text → List Text
unfolding body_of
encode n text = n.source_code ∷ (body_of (n.model.encode text) ++ codes "</s>" ∷ [])

-- The numbers of the tokens that are in the vocabulary, without the language token.
unfoldable pub ids_of : (Text → Option ℕ) → Text → List Text → List ℕ
ids_of vocab target_code [] = []
ids_of vocab target_code (t ∷ ts) =
    let rest = ids_of vocab target_code ts in
    elim (vocab t) [ none ↦ rest | some i ↦ if text_eq t target_code then rest else i ∷ rest ]

unfoldable pub decode : NllbMt → List Text → Text → Text
unfolding ids_of
decode n hypothesis target_code = n.model.decode (ids_of n.model.vocab target_code hypothesis)

-- `[t for t in targets if self.supports(source, t)]`
unfoldable pub wanted : NllbMt → Text → List Text → List Text
unfolding supports
wanted n source [] = []
wanted n source (t ∷ ts) =
    let rest = wanted n source ts in if supports n source t then t ∷ rest else rest

-- `self._targets[t]`, which is there for a target that is supported.
unfoldable pub code_of : NllbMt → Text → Text
unfolding Dict.lookup
code_of n t = elim (Dict.lookup t n.targets) [ none ↦ [] | some code ↦ code ]

-- The dict over `zip(targets, codes, results)`, which ends with the shortest.
unfoldable pub decode_all : NllbMt → List Text → List (List Text) → Dict Text Text → Dict Text Text
unfolding decode code_of
decode_all n [] results d = d
decode_all n (t ∷ ts) [] d = d
decode_all n (t ∷ ts) (r ∷ rs) d = decode_all n ts rs (Dict.insert t (decode n r (code_of n t)) d)

unfoldable pub prefixes : NllbMt → List Text → List (List Text)
unfolding code_of
prefixes n [] = []
prefixes n (t ∷ ts) = (code_of n t ∷ []) ∷ prefixes n ts

abbrev pub batch_answers : NllbMt → List Text → Option (List (List Text)) → Dict Text Text
batch_answers n targets none = from_keys targets [] []
batch_answers n targets (some results) = decode_all n targets results []

-- One call for all targets.
unfoldable pub translate_batch : NllbMt → Text → List Text → Option (List (List Text))
unfolding encode prefixes
translate_batch n text targets =
    let source = encode n text in
    n.model.translate_batch (replicate (length targets) source) (prefixes n targets) n.beam_size
      (max 32 (length source * n.max_output_ratio / 1000))

unfoldable pub translate_sync : NllbMt → Text → List Text → Dict Text Text
unfolding translate_batch decode_all from_keys
translate_sync n text targets = batch_answers n targets (translate_batch n text targets)

-- `not text.strip()`
abbrev pub is_blank : Text → Bool
is_blank text = ltb (length (strip text)) 1

unfoldable pub translate_many : NllbMt → Text → Text → List Text → Dict Text Text
unfolding wanted translate_sync from_keys
translate_many n text source targets =
    let asked = wanted n source targets in
    if ltb (length asked) 1 || is_blank text
    then from_keys asked [] []
    else translate_sync n text asked

unfoldable pub translate : NllbMt → Text → Text → Text → Text
unfolding translate_many Dict.lookup
translate n text source target =
    elim (Dict.lookup target (translate_many n text source (target ∷ []))) [
      | none ↦ []
      | some words ↦ words
    ]
