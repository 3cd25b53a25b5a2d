-- ===== src/Mt/Routing.antt =====
-- adapters/mt_routing.py: `route_for` and `RoutingMtAdapter`. The two backends are adapters that this
-- one calls through the contract of adapters/base.py; they are parameters here.
pub mod Shares
pub mod Isolation
use lad_translate.Common.{if◌then◌else◌, ◌>>=◌, Bool, false, not, Option, none, some, List, [], ◌∷◌}
use lad_translate.Common.Text.{text_eq, Text, codes}
use lad_translate.Common.Dict
use lad_translate.Common.Dict.{Dict, text_key}

abbrev pub opus : Text
opus = codes "opus-mt"

abbrev pub nllb : Text
nllb = codes "nllb-200"

abbrev pub default_routes : Dict Text Text
default_routes =
    (codes "hi", nllb)
    ∷ (codes "te", nllb)
    ∷ (codes "ta", nllb)
    ∷ (codes "ml", nllb)
    ∷ (codes "kn", nllb)
    ∷ (codes "bn", nllb)
    ∷ (codes "mr", nllb)
    ∷ (codes "ur", nllb)
    ∷ []

-- `none` stands for the argument None, which an empty table is not.
unfoldable pub table_of : Option (Dict Text Text) → Dict Text Text
table_of none = default_routes
table_of (some routes) = routes

unfoldable pub route_for : Text → Dict Text Text → Text
route_for language table = elim (Dict.lookup language table) [
  | none ↦ opus
  | some backend ↦ backend
]

-- An `MtAdapter`. `none` is an exception.
pub record MtBackend : Type 0 where
  pub supports : Text → Text → Bool
  pub translate_many : Text → Text → List Text → Option (Dict Text Text)

-- The constructors of the two backends, by the languages that they are given.
pub record Constructors : Type 0 where
  pub opus_adapter : Text → List Text → MtBackend
  pub nllb_adapter : Text → List Text → MtBackend

pub record Router : Type 0 where
  pub source_language : Text
  pub backends : Dict Text MtBackend
  pub assignment : Dict Text Text

-- `{target: route_for(target, routes) for target in targets}`
unfoldable pub assign : Dict Text Text → List Text → Dict Text Text → Dict Text Text
unfolding route_for
assign table [] d = d
assign table (target ∷ targets) d =
    assign table targets (Dict.insert target (route_for target table) d)

-- `grouped.setdefault(backend, []).append(target)` over the items of the assignment.
unfoldable pub group_items : Dict Text Text → Dict Text (List Text) → Dict Text (List Text)
group_items [] d = d
group_items ((target, backend) ∷ rest) d = group_items rest (Dict.append_at backend target d)

-- `none` is the KeyError of an unknown backend.
unfoldable pub build : Constructors → Text → Dict Text (List Text) → Option (Dict Text MtBackend)
unfolding ◌>>=◌
build c source [] = some []
build c source ((backend, languages) ∷ rest) = do
  others ← build c source rest
  if text_eq backend opus
      then some ((backend, c.opus_adapter source languages) ∷ others)
      else if text_eq backend nllb
      then some ((backend, c.nllb_adapter source languages) ∷ others)
      else none

unfoldable pub new_router :
    Constructors → Text → List Text → Option (Dict Text Text) → Option Router
unfolding table_of assign group_items build ◌>>=◌
new_router c source targets routes =
    let assignment = assign (table_of routes) targets [] in
    do
      backends ← build c source (group_items assignment [])
      some (record { source_language = source; backends = backends; assignment = assignment })

unfoldable pub backend_for : Router → Text → Text
backend_for r language = elim (Dict.lookup language r.assignment) [ none ↦ opus | some b ↦ b ]

unfoldable pub supports : Router → Text → Text → Bool
supports r source target =
    if not (text_eq source r.source_language)
    then false
    else elim (Dict.lookup target r.assignment) [
      | none ↦ false
      | some name ↦ elim (Dict.lookup name r.backends) [
        | none ↦ false
        | some b ↦ b.supports source target
      ]
    ]

-- `[t for t in targets if self.supports(source, t)]`
unfoldable pub wanted : Router → Text → List Text → List Text
unfolding supports
wanted r source [] = []
wanted r source (t ∷ ts) =
    let rest = wanted r source ts in if supports r source t then t ∷ rest else rest

-- `grouped.setdefault(self._assignment[target], []).append(target)`
unfoldable pub group_wanted : Router → List Text → Dict Text (List Text) → Dict Text (List Text)
unfolding backend_for
group_wanted r [] d = d
group_wanted r (t ∷ ts) d = group_wanted r ts (Dict.append_at (backend_for r t) t d)

-- `dict.fromkeys(languages, value)`
unfoldable pub from_keys : List Text → Text → Dict Text Text → Dict Text Text
from_keys [] value d = d
from_keys (l ∷ ls) value d = from_keys ls value (Dict.insert l value d)

-- `run`. A backend that raises, or is not there, gives its own languages no words.
unfoldable pub run : Router → Text → Text → Text → List Text → Dict Text Text
unfolding from_keys
run r text source name languages = elim (Dict.lookup name r.backends) [
  | none ↦ from_keys languages [] []
  | some b ↦ elim (b.translate_many text source languages) [
    | none ↦ from_keys languages [] []
    | some answers ↦ answers
  ]
]

-- `gather` keeps the order of the groups, whatever order they finish in.
unfoldable pub merge_parts :
    Router → Text → Text → Dict Text (List Text) → Dict Text Text → Dict Text Text
unfolding run
merge_parts r text source [] merged = merged
merge_parts r text source ((name, languages) ∷ rest) merged =
    merge_parts r text source rest (Dict.update merged (run r text source name languages))

unfoldable pub translate_many : Router → Text → Text → List Text → Dict Text Text
unfolding wanted group_wanted merge_parts
translate_many r text source targets =
    merge_parts r text source (group_wanted r (wanted r source targets) []) []

unfoldable pub translate : Router → Text → Text → Text → Text
unfolding translate_many
translate r text source target =
    elim (Dict.lookup target (translate_many r text source (target ∷ []))) [
      | none ↦ []
      | some words ↦ words
    ]
