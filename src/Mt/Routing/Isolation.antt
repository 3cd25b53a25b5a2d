-- ===== src/Mt/Routing/Isolation.antt =====
-- What a language is given depends on its own backend alone.
use lad_translate.Common.{
  if◌then◌else◌, Bool-cases, All, ◌≡◌, refl, sym, ap, ◌∙◌, subst, inl, inr, Bool, true, false,
  Option, none, some, List, [], ◌∷◌, arith,
}
use lad_translate.Common.Text.{Text, text_eq, text_eq_iff, member}
use lad_translate.Common.Dict
use lad_translate.Common.Dict.{Dict, text_key}
use lad_translate.Mt.Routing.{
  MtBackend, Router, backend_for, wanted, group_wanted, from_keys, run, merge_parts, translate_many,
}
use lad_translate.Mt.Routing.Shares.{share, group-share, IsOwn, group-IsOwn}

-- A dict of answers, each once, for these languages and no others.
pub record Answers (languages : List Text) (d : Dict Text Text) : Type 0 where
  pub unique : Dict.HasUniqueKeys d
  pub only : (t : Text) → member t languages ≡ false → Dict.lookup t d ≡ none

-- The backends of a router answer for the languages that they are asked.
abbrev pub IsHonest : Router → Text → Text → Type 0
IsHonest r text source =
    (name : Text) (b : MtBackend) (languages : List Text) (answers : Dict Text Text)
    → Dict.lookup name r.backends ≡ some b
    → b.translate_many text source languages ≡ some answers
    → Answers languages answers

from_keys-HasUniqueKeys :
    (ls : List Text) (v : Text) (d : Dict Text Text)
    → Dict.HasUniqueKeys d
    → Dict.HasUniqueKeys (from_keys ls v d)
unfolding from_keys
from_keys-HasUniqueKeys [] v d u = u
from_keys-HasUniqueKeys (l ∷ ls) v d u =
    from_keys-HasUniqueKeys ls v (Dict.insert l v d) (Dict.insert-HasUniqueKeys l v d u)

from_keys-only :
    (ls : List Text) (v : Text) (d : Dict Text Text) (t : Text)
    → member t ls ≡ false
    → Dict.lookup t (from_keys ls v d) ≡ Dict.lookup t d
unfolding from_keys
from_keys-only [] v d t h = refl
from_keys-only (l ∷ ls) v d t h = ground (
  arith,
  from_keys-only ls v (Dict.insert l v d) t (ground (arith, h)),
  Dict.lookup-insert l t v d,
  text_eq_iff l t,
  text_eq_iff t l,
)

pub from_keys-Answers : (ls : List Text) (v : Text) → Answers ls (from_keys ls v [])
unfolding Dict.lookup
from_keys-Answers ls v = record {
  unique = from_keys-HasUniqueKeys ls v [] tt;
  only = λ t h. from_keys-only ls v [] t h;
}

run-Answers :
    (r : Router) (text source name : Text) (languages : List Text)
    → IsHonest r text source
    → Answers languages (run r text source name languages)
unfolding run
run-Answers r text source name languages honest = by_backend (Dict.lookup name r.backends) refl
  where
    by_answer :
        (b : MtBackend)
        → Dict.lookup name r.backends ≡ some b
        → (o : Option (Dict Text Text)) → b.translate_many text source languages ≡ o
        → Answers languages (elim o [ none ↦ from_keys languages [] [] | some answers ↦ answers ])
    by_answer b e none q = from_keys-Answers languages []
    by_answer b e (some answers) q = honest name b languages answers e q

    by_backend :
        (o : Option MtBackend)
        → Dict.lookup name r.backends ≡ o
        → Answers languages (elim o [
          | none ↦ from_keys languages [] []
          | some b ↦ elim (b.translate_many text source languages) [
            | none ↦ from_keys languages [] []
            | some answers ↦ answers
          ]
        ])
    by_backend none e = from_keys-Answers languages []
    by_backend (some b) e = by_answer b e (b.translate_many text source languages) refl

-- The answer of a part, or else what was there.
abbrev over : Option Text → Option Text → Option Text
over o before = elim o [ none ↦ before | some v ↦ some v ]

opposed : (b : Bool) → b ≡ true → b ≡ false → ⊥
opposed b p q = ground (arith, p, q)

not-own :
    (r : Router) (t name : Text) (ls : List Text)
    → All (λ s. backend_for r s ≡ name) ls
    → text_eq name (backend_for r t) ≡ false
    → member t ls ≡ false
not-own r t name [] h q = refl
not-own r t name (l ∷ ls) h q = elim (Bool-cases (text_eq t l)) [
  | inl e ↦ absurd (
      opposed (text_eq name (backend_for r t))
        ((text_eq_iff name (backend_for r t)).1
          (sym (ap (backend_for r) ((text_eq_iff t l).0 e) ∙ h.0)))
        q)
  | inr e ↦ rw e (not-own r t name ls h.1 q)
]

-- What the backend of a language answers for it, if the backend has a share.
abbrev answer_of : Router → Text → Text → Text → Option (List Text) → Option Text
answer_of r text source t o = elim o as (λ _. Option Text) [
  | none ↦ none
  | some ls ↦ Dict.lookup t (run r text source (backend_for r t) ls)
]

merge-lookup :
    (r : Router) (text source t : Text)
    → IsHonest r text source
    → (gs : Dict Text (List Text)) (merged : Dict Text Text) → All (IsOwn r) gs
    → Dict.HasUniqueKeys gs
    → Dict.lookup t (merge_parts r text source gs merged)
      ≡ over (answer_of r text source t (Dict.lookup (backend_for r t) gs)) (Dict.lookup t merged)
unfolding merge_parts Dict.lookup
merge-lookup r text source t honest [] merged own u = refl
merge-lookup r text source t honest ((name, ls) ∷ gs) merged own u =
    let part = run r text source name ls in
    let a : Answers ls part = run-Answers r text source name ls honest in
    let step = merge-lookup r text source t honest gs (Dict.update merged part) own.1 u.1 in
    let updated = Dict.lookup-update t merged part a.unique in
    elim (Bool-cases (text_eq name (backend_for r t))) [
      | inl q ↦
          (let same : name ≡ backend_for r t = (text_eq_iff name (backend_for r t)).0 q in
            step
            ∙ ap (λ o. over (answer_of r text source t o) (Dict.lookup t (Dict.update merged part)))
                (subst (λ n. Dict.lookup n gs ≡ none) same u.0)
            ∙ updated
            ∙ ap (λ n. over (Dict.lookup t (run r text source n ls)) (Dict.lookup t merged)) same
            ∙ ap
                (λ (b : Bool).
                  over
                    (answer_of r text source t
                      (if b then some ls else Dict.lookup (backend_for r t) gs))
                    (Dict.lookup t merged))
                (sym q))
      | inr q ↦
          (step
            ∙ ap (λ m. over (answer_of r text source t (Dict.lookup (backend_for r t) gs)) m)
                (updated
                  ∙ ap (λ o. over o (Dict.lookup t merged))
                      (a.only t (not-own r t name ls own.0 q)))
            ∙ ap
                (λ (b : Bool).
                  over
                    (answer_of r text source t
                      (if b then some ls else Dict.lookup (backend_for r t) gs))
                    (Dict.lookup t merged))
                (sym q))
    ]

over-none : (o : Option Text) → over o none ≡ o
over-none none = refl
over-none (some v) = refl

-- With backends that answer for the languages they are asked, what `translate_many` gives for a
-- language is what its own backend answers when asked for its own share of the wanted languages,
-- whatever the other backends do.
pub translate_many-own :
    (r : Router) (text source t : Text) (targets : List Text)
    → IsHonest r text source
    → Dict.lookup t (translate_many r text source targets)
      ≡ Dict.lookup t (
          run r text source (backend_for r t) (share r (backend_for r t) (wanted r source targets)))
unfolding translate_many Dict.lookup
translate_many-own r text source t targets honest =
    merge-lookup r text source t honest gs [] own.0 own.1
    ∙ by_group (Dict.lookup (backend_for r t) gs)
    ∙ ap (λ ls. Dict.lookup t (run r text source (backend_for r t) ls))
        (group-share r (backend_for r t) (wanted r source targets) [])
  where
    gs : Dict Text (List Text)
    gs = group_wanted r (wanted r source targets) []

    own : All (IsOwn r) gs × Dict.HasUniqueKeys gs
    own = group-IsOwn r (wanted r source targets) [] tt tt

    by_group :
        (o : Option (List Text))
        → over (answer_of r text source t o) none
          ≡ Dict.lookup t
              (run r text source (backend_for r t) (elim o [ none ↦ [] | some xs ↦ xs ]))
    by_group none = sym ((run-Answers r text source (backend_for r t) [] honest).only t refl)
    by_group (some ls) = over-none (Dict.lookup t (run r text source (backend_for r t) ls))
