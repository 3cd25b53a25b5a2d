-- ===== src/Mt/Backends.antt =====
-- The adapters of adapters/mt_opus.py and mt_nllb.py behind the router of adapters/mt_routing.py.
use lad_translate.Common.{
  ◌≡◌, refl, sym, ap, ◌∙◌, subst, ◌⊎◌, inl, inr, Option, none, some, List, [],
}
use lad_translate.Common.Text.{Text}
use lad_translate.Common.Dict
use lad_translate.Common.Dict.{Dict, text_key}
use lad_translate.Mt.Opus
use lad_translate.Mt.Opus.{OpusMt}
use lad_translate.Mt.Opus.Fan.{translate_many-answers}
use lad_translate.Mt.Nllb
use lad_translate.Mt.Nllb.{NllbMt}
use lad_translate.Mt.Nllb.Batch.{translate_many-Answers}
use lad_translate.Mt.Routing.{MtBackend, Router, backend_for, wanted, run, translate_many}
use lad_translate.Mt.Routing.Shares.{share}
use lad_translate.Mt.Routing.Isolation.{Answers, IsHonest, translate_many-own}

abbrev pub opus_backend : OpusMt → MtBackend
opus_backend o = record {
  supports = λ source target. Opus.supports o source target;
  translate_many = λ text source languages. some (Opus.translate_many o text source languages);
}

abbrev pub nllb_backend : NllbMt → MtBackend
nllb_backend n = record {
  supports = λ source target. Nllb.supports n source target;
  translate_many = λ text source languages. some (Nllb.translate_many n text source languages);
}

-- The backends of a router are the two adapters of the program.
abbrev pub IsBuiltIn : Router → Type 0
IsBuiltIn r =
    (name : Text) (b : MtBackend)
    → Dict.lookup name r.backends ≡ some b
    → ((o : OpusMt) × (b ≡ opus_backend o)) ⊎ ((n : NllbMt) × (b ≡ nllb_backend n))

opus-Answers :
    (o : OpusMt) (text source : Text) (languages : List Text)
    → Answers languages (Opus.translate_many o text source languages)
opus-Answers o text source languages = record {
  unique = (translate_many-answers o text source [] languages).0;
  only = λ t h. (translate_many-answers o text source t languages).1 ∙ rw h refl;
}

abbrev answers_or : Option (Dict Text Text) → Dict Text Text
answers_or none = []
answers_or (some d) = d

router-IsHonest : (r : Router) (text source : Text) → IsBuiltIn r → IsHonest r text source
router-IsHonest r text source built name b languages answers e q = elim (built name b e) [
  | inl (o, s) ↦
      subst (λ d. Answers languages d)
        (ap answers_or (ap (λ c. c.translate_many text source languages) (sym s) ∙ q))
        (opus-Answers o text source languages)
  | inr (n, s) ↦
      subst (λ d. Answers languages d)
        (ap answers_or (ap (λ c. c.translate_many text source languages) (sym s) ∙ q))
        (translate_many-Answers n text source languages)
]

-- With the program's own adapters behind the router, what `translate_many` gives for a language is
-- what the backend of that language answers when it is asked for its own share of the wanted
-- languages, whatever the other backend does.
pub translate_many-separate :
    (r : Router) (text source t : Text) (targets : List Text)
    → IsBuiltIn r
    → Dict.lookup t (translate_many r text source targets)
      ≡ Dict.lookup t (
          run r text source (backend_for r t) (share r (backend_for r t) (wanted r source targets)))
translate_many-separate r text source t targets built =
    translate_many-own r text source t targets (router-IsHonest r text source built)
