-- ===== src/Mt/Opus/Fan.antt =====
-- What adapters/mt_opus.py answers when it is asked for several languages.
use lad_translate.Common.{
  if◌then◌else◌, Bool-cases, ◌≡◌, refl, ap, ◌∙◌, inl, inr, Bool, true, false, ◌&&◌, ◌||◌, Option,
  none, some, List, [], ◌∷◌, arith,
}
use lad_translate.Common.Text.{Text, text_eq, text_eq_iff, text_eq_sym, member}
use lad_translate.Common.Dict
use lad_translate.Common.Dict.{Dict, text_key}
use lad_translate.Mt.Opus.{
  OpusMt, supports, translate_sync, start_tasks, words_or_empty, await_tasks, translate_many,
}

start_tasks-HasUniqueKeys :
    (o : OpusMt) (text source : Text) (ts : List Text) (tasks : Dict Text (Option Text))
    → Dict.HasUniqueKeys tasks
    → Dict.HasUniqueKeys (start_tasks o text source ts tasks)
unfolding start_tasks
start_tasks-HasUniqueKeys o text source [] tasks u = u
start_tasks-HasUniqueKeys o text source (t ∷ ts) tasks u = elim (Bool-cases (supports o source t)) [
  | inl q ↦ rw q (
      start_tasks-HasUniqueKeys o text source ts (Dict.insert t (translate_sync o text t) tasks)
        (Dict.insert-HasUniqueKeys t (translate_sync o text t) tasks u))
  | inr q ↦ rw q (start_tasks-HasUniqueKeys o text source ts tasks u)
]

-- Exactly the languages that are asked for and supported have a task.
lookup-start_tasks :
    (o : OpusMt) (text source t : Text) (ts : List Text) (tasks : Dict Text (Option Text))
    → Dict.lookup t (start_tasks o text source ts tasks) ≡ (
        if member t ts && supports o source t
        then some (translate_sync o text t)
        else Dict.lookup t tasks)
unfolding start_tasks
lookup-start_tasks o text source t [] tasks = refl
lookup-start_tasks o text source t (s ∷ ts) tasks = elim (Bool-cases (supports o source s)) [
  | inl q ↦ rw q (
      lookup-start_tasks o text source t ts (Dict.insert s (translate_sync o text s) tasks)
      ∙ asked (text_eq t s) refl q)
  | inr q ↦ rw q (lookup-start_tasks o text source t ts tasks ∙ not_asked (text_eq t s) refl q)
]
  where
    asked :
        (b : Bool)
        → text_eq t s ≡ b
        → supports o source s ≡ true
        → (if member t ts && supports o source t
            then some (translate_sync o text t)
            else Dict.lookup t (Dict.insert s (translate_sync o text s) tasks))
          ≡ (if (b || member t ts) && supports o source t
              then some (translate_sync o text t)
              else Dict.lookup t tasks)
    asked true e q = ground (
      arith,
      e,
      q,
      ap (supports o source) ((text_eq_iff t s).0 e),
      ap (translate_sync o text) ((text_eq_iff t s).0 e),
      Dict.lookup-insert s t (translate_sync o text s) tasks,
      text_eq_sym s t,
    )
    asked false e q =
        ground (arith, e, Dict.lookup-insert s t (translate_sync o text s) tasks, text_eq_sym s t)

    not_asked :
        (b : Bool)
        → text_eq t s ≡ b
        → supports o source s ≡ false
        → (if member t ts && supports o source t
            then some (translate_sync o text t)
            else Dict.lookup t tasks)
          ≡ (if (b || member t ts) && supports o source t
              then some (translate_sync o text t)
              else Dict.lookup t tasks)
    not_asked true e q = ground (arith, q, ap (supports o source) ((text_eq_iff t s).0 e))
    not_asked false e q = refl

-- Each task answers its own language.
lookup-await_tasks :
    (t : Text) (tasks : Dict Text (Option Text)) (results : Dict Text Text)
    → Dict.HasUniqueKeys tasks
    → Dict.lookup t (await_tasks tasks results) ≡ elim (Dict.lookup t tasks) [
      | none ↦ Dict.lookup t results
      | some outcome ↦ some (words_or_empty outcome)
    ]
unfolding await_tasks Dict.lookup
lookup-await_tasks t [] results u = refl
lookup-await_tasks t ((s, outcome) ∷ rest) results u = ground (
  arith,
  lookup-await_tasks t rest (Dict.insert s (words_or_empty outcome) results) u.1,
  Dict.lookup-insert s t (words_or_empty outcome) results,
  text_eq_iff s t,
  u.0,
)

await_tasks-HasUniqueKeys :
    (tasks : Dict Text (Option Text)) (results : Dict Text Text)
    → Dict.HasUniqueKeys results
    → Dict.HasUniqueKeys (await_tasks tasks results)
unfolding await_tasks
await_tasks-HasUniqueKeys [] results u = u
await_tasks-HasUniqueKeys ((t, outcome) ∷ rest) results u =
    await_tasks-HasUniqueKeys rest (Dict.insert t (words_or_empty outcome) results)
      (Dict.insert-HasUniqueKeys t (words_or_empty outcome) results u)

-- Of the languages that are asked for, each that the adapter supports is answered once, with its own
-- translation or with no words when that raises, and no other language is answered.
pub translate_many-answers :
    (o : OpusMt) (text source t : Text) (targets : List Text)
    → Dict.HasUniqueKeys (translate_many o text source targets)
      × (Dict.lookup t (translate_many o text source targets) ≡ (
          if member t targets && supports o source t
          then some (elim (translate_sync o text t) [ none ↦ [] | some words ↦ words ])
          else none))
unfolding translate_many Dict.lookup
translate_many-answers o text source t targets = (
  await_tasks-HasUniqueKeys (start_tasks o text source targets []) [] tt,
  lookup-await_tasks t (start_tasks o text source targets []) []
        (start_tasks-HasUniqueKeys o text source targets [] tt)
      ∙ answered,
)
  where
    answered :
        elim (Dict.lookup t (start_tasks o text source targets [])) [
          | none ↦ Dict.lookup {V = Text} t []
          | some outcome ↦ some (words_or_empty outcome)
        ]
        ≡ (if member t targets && supports o source t
            then some (elim (translate_sync o text t) [ none ↦ [] | some words ↦ words ])
            else none)
    answered =
        rw (lookup-start_tasks o text source t targets [])
          (elim (Bool-cases (member t targets && supports o source t)) [
            | inl q ↦ rw q refl
            | inr q ↦ rw q refl
          ])
