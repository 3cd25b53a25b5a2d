-- ===== src/Mt/Opus.antt =====
-- adapters/mt_opus.py. CTranslate2, SentencePiece and the files of a model are the record Model, and
-- what `str.isupper` and `str.lower` answer is the record Cases. A path below the root of the models
-- is its name there. A ratio is in thousandths.
pub mod Sharing
pub mod Loading
pub mod Fan
use lad_translate.Common.{
  ltb, ◌==◌, if◌then◌else◌, length, take, drop, ◌>>=◌, ℕ, ◌+◌, ◌-◌, ◌*◌, ◌/◌, max, Bool, true,
  false, not, ◌&&◌, Option, none, some, List, [], ◌∷◌, ◌++◌,
}
use lad_translate.Common.Text.{Text, codes, text_eq, is_space, strip_start, join}
use lad_translate.Common.Dict
use lad_translate.Common.Dict.{Dict, text_key}

-- target language code -> (model directory, sentence-initial token)
abbrev pub multilingual : Dict Text (Text × Text)
multilingual =
    (codes "te", (codes "en-dra", codes ">>tel<<"))
    ∷ (codes "ta", (codes "en-dra", codes ">>tam<<"))
    ∷ (codes "ml", (codes "en-dra", codes ">>mal<<"))
    ∷ (codes "kn", (codes "en-dra", codes ">>kan<<"))
    ∷ []

pub record Cases : Type 0 where
  pub is_upper : Text → Bool
  pub lower : Text → Text

-- `translate_batch` takes the tokens, the beam size and the longest output, and gives the tokens of
-- the first hypothesis, or none when it raises. `workers` are its `inter_threads`.
pub record Model : Type 0 where
  pub path : Text
  pub workers : ℕ
  pub encode : Text → List Text
  pub decode : List Text → Text
  pub eos : Text
  pub translate_batch : List Text → ℕ → ℕ → Option (List Text)

pub record Pair : Type 0 where
  pub source : Text
  pub target : Text
  pub model : Model
  pub target_token : Option Text

-- The first word of a text that does not start with a space, and what is behind it.
unfoldable pub cut_word : Text → Text × Text
unfolding is_space
cut_word [] = ([], [])
cut_word (c ∷ s) = let rest = cut_word s in if is_space c then ([], c ∷ s) else (c ∷ rest.0, rest.1)

-- `text.split(maxsplit=1)`
abbrev pub parts_of : Text → Text → List Text
parts_of [] rest = []
parts_of (c ∷ first) [] = (c ∷ first) ∷ []
parts_of (c ∷ first) (d ∷ rest) = (c ∷ first) ∷ (d ∷ rest) ∷ []

unfoldable pub split_once : Text → List Text
unfolding cut_word strip_start
split_once text = let cut = cut_word (strip_start text) in parts_of cut.0 (strip_start cut.1)

-- `first[:1].lower() + first[1:]`
unfoldable pub lowered : Cases → Text → Text
lowered u first = u.lower (take 1 first) ++ drop 1 first

abbrev pub fix_parts : Cases → (Text → List Text) → Text → List Text → Text
fix_parts u encode text [] = text
fix_parts u encode text (first ∷ rest) =
    if u.is_upper first
    then text
    else if text_eq (lowered u first) first
    then text
    else if ltb (length (encode first)) 2
    then text
    else if not (length (encode (lowered u first)) == 1)
    then text
    else join (lowered u first ∷ rest)

unfoldable pub fix_leading_case : Cases → (Text → List Text) → Text → Text
unfolding split_once lowered join
fix_leading_case u encode text = fix_parts u encode text (split_once text)

-- A token that is missing or empty is not put in front.
abbrev pub with_token : Option Text → List Text → List Text
with_token none tokens = tokens
with_token (some []) tokens = tokens
with_token (some (c ∷ token)) tokens = (c ∷ token) ∷ tokens

unfoldable pub source_tokens : Cases → Pair → Text → List Text
unfolding fix_leading_case
source_tokens u p text =
    with_token p.target_token (p.model.encode (fix_leading_case u p.model.encode text))
    ++ p.model.eos ∷ []

unfoldable pub max_length : ℕ → ℕ → ℕ
max_length tokens max_output_ratio = max 32 (tokens * max_output_ratio / 1000)

-- `_Pair.translate`
unfoldable pub translate_pair : Cases → Pair → Text → ℕ → ℕ → Option Text
unfolding source_tokens max_length ◌>>=◌
translate_pair u p text beam_size max_output_ratio =
    let tokens = source_tokens u p text in
    do
      hypothesis ←
          p.model.translate_batch tokens beam_size (max_length (length tokens) max_output_ratio)
      some (p.model.decode hypothesis)

pub record OpusMt : Type 0 where
  pub source_language : Text
  pub cases : Cases
  pub beam_size : ℕ
  pub max_output_ratio : ℕ
  pub pairs : Dict Text Pair

-- The directory of a target's model and its token; `has_model` says whether a directory holds a
-- `model.bin`.
unfoldable pub resolve : (Text → Bool) → Text → Text → Text × Option Text
unfolding Dict.lookup
resolve has_model source target =
    let direct : Text = source ++ codes "-" ++ target in
    if has_model direct then (direct, none) else elim (Dict.lookup target multilingual) [
      | none ↦ (direct, none)
      | some (directory, token) ↦ (directory, some token)
    ]

-- `{target: self._resolve(target) for target in targets}`
unfoldable pub resolve_all :
    (Text → Bool)
    → Text
    → List Text
    → Dict Text (Text × Option Text)
    → Dict Text (Text × Option Text)
unfolding resolve
resolve_all has_model source [] d = d
resolve_all has_model source (t ∷ ts) d =
    resolve_all has_model source ts (Dict.insert t (resolve has_model source t) d)

unfoldable pub missing : (Text → Bool) → Dict Text (Text × Option Text) → List Text
missing has_model [] = []
missing has_model ((t, (path, token)) ∷ rest) =
    let others = missing has_model rest in if has_model path then others else t ∷ others

-- `sharers.get(path, 0)`
abbrev pub sharers_of : Text → Dict Text ℕ → ℕ
sharers_of path sharers = elim (Dict.lookup path sharers) [ none ↦ 0 | some n ↦ n ]

unfoldable pub count_sharers : Dict Text (Text × Option Text) → Dict Text ℕ → Dict Text ℕ
count_sharers [] sharers = sharers
count_sharers ((t, (path, token)) ∷ rest) sharers =
    count_sharers rest (Dict.insert path (sharers_of path sharers + 1) sharers)

-- A model that is loaded already is taken, and each path has been counted.
unfoldable pub model_for : (Text → ℕ → Model) → Dict Text ℕ → Text → Dict Text Model → Model
model_for load_model sharers path models = elim (Dict.lookup path models) [
  | none ↦ load_model path (sharers_of path sharers)
  | some model ↦ model
]

unfoldable pub load_pairs :
    (Text → ℕ → Model)
    → Dict Text ℕ
    → Text
    → Dict Text (Text × Option Text)
    → Dict Text Model
    → Dict Text Pair
    → Dict Text Pair
unfolding model_for
load_pairs load_model sharers source [] models pairs = pairs
load_pairs load_model sharers source ((t, (path, token)) ∷ rest) models pairs =
    let model = model_for load_model sharers path models in
    load_pairs load_model sharers source rest (Dict.insert path model models) (
      Dict.insert t (record { source = source; target = t; model = model; target_token = token })
        pairs)

-- The ValueError of a pool without workers, and the FileNotFoundError.
pub data OpusError : Type 0 where
  no_workers : OpusError
  no_model : List Text → OpusError

pub data Opened : Type 0 where
  opened : OpusMt → Opened
  failed : OpusError → Opened

-- What `_load` does once it knows where the models are.
abbrev pub load_resolved :
    (Text → ℕ → Model) → OpusMt → Dict Text (Text × Option Text) → List Text → Opened
load_resolved load_model o resolved [] = opened (record o {
  pairs = load_pairs load_model (count_sharers resolved []) o.source_language resolved [] [];
})
load_resolved load_model o resolved (t ∷ ts) = failed (no_model (t ∷ ts))

unfoldable pub load : (Text → Bool) → (Text → ℕ → Model) → List Text → OpusMt → Opened
unfolding resolve_all missing count_sharers load_pairs
load has_model load_model targets o =
    let resolved = resolve_all has_model o.source_language targets [] in
    load_resolved load_model o resolved (missing has_model resolved)

unfoldable pub new_opus :
    (Text → Bool) → (Text → ℕ → Model) → Cases → Text → List Text → ℕ → ℕ → Opened
unfolding load
new_opus has_model load_model cases source targets beam_size max_output_ratio =
    if length targets == 0
    then failed no_workers
    else load has_model load_model targets (record {
      source_language = source;
      cases = cases;
      beam_size = beam_size;
      max_output_ratio = max_output_ratio;
      pairs = [];
    })

unfoldable pub supports : OpusMt → Text → Text → Bool
unfolding Dict.lookup
supports o source target =
    text_eq source o.source_language
    && elim (Dict.lookup target o.pairs) [ none ↦ false | some p ↦ true ]

-- `none` is an exception.
unfoldable pub translate_sync : OpusMt → Text → Text → Option Text
unfolding translate_pair ◌>>=◌
translate_sync o text target = do
  p ← Dict.lookup target o.pairs
  translate_pair o.cases p text o.beam_size o.max_output_ratio

unfoldable pub translate : OpusMt → Text → Text → Text → Option Text
unfolding supports translate_sync
translate o text source target =
    if not (supports o source target) then none else translate_sync o text target

-- The tasks of `translate_many`, with what each of them ends in.
unfoldable pub start_tasks :
    OpusMt → Text → Text → List Text → Dict Text (Option Text) → Dict Text (Option Text)
unfolding supports translate_sync
start_tasks o text source [] tasks = tasks
start_tasks o text source (t ∷ ts) tasks =
    start_tasks o text source ts
      (if supports o source t then Dict.insert t (translate_sync o text t) tasks else tasks)

-- `""` for a task that raised.
abbrev pub words_or_empty : Option Text → Text
words_or_empty none = []
words_or_empty (some words) = words

unfoldable pub await_tasks : Dict Text (Option Text) → Dict Text Text → Dict Text Text
await_tasks [] results = results
await_tasks ((t, outcome) ∷ rest) results =
    await_tasks rest (Dict.insert t (words_or_empty outcome) results)

unfoldable pub translate_many : OpusMt → Text → Text → List Text → Dict Text Text
unfolding start_tasks await_tasks
translate_many o text source targets = await_tasks (start_tasks o text source targets []) []
