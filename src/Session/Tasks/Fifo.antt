-- ===== src/Session/Tasks/Fifo.antt =====
-- The queues of the workers lose nothing and keep the order.
use lad_translate.Session.Tasks.{
  Tasks, Queues, first_item, get_item, round, Event, handled, Step, dispatched, worked, pump_over,
  told, came_back, given_by, done_by, Session, begun, after, IsFresh,
}
use lad_translate.Session.Pipeline.{Pipeline, dispatch, speak, persist, is_blank, is_broken}
use lad_translate.Session.Pipeline.Dispatch.{HandedOn, new_items, dispatch-HandedOn}
use lad_translate.Session.Drift.{observe, should_skip}
use lad_translate.Chunker.Types.{PhraseChunk}
use lad_translate.Common.Int.{ℤ}
use lad_translate.Common.Dict
use lad_translate.Common.Dict.{Dict, text_key}
use lad_translate.Common.Text.{Text, text_eq, text_eq_iff, member}
use lad_translate.Common.{
  if◌then◌else◌, Bool-cases, ℕ, ◌≡◌, refl, sym, ap, ◌∙◌, subst, inl, inr, Bool, true, false, ◌||◌,
  Option, none, some, List, [], ◌∷◌, ◌++◌, append_assoc, append-nil,
}

speak_queues :
    (p : Pipeline) (language : Text) (chunk : PhraseChunk) (text : Text) (depth : ℤ)
    (speech : List (ℕ × Option ℕ)) (fails : Bool)
    → (speak p language chunk text depth speech fails).0.queues ≡ p.queues
unfolding speak persist
speak_queues p language chunk text depth speech fails = elim (Bool-cases (is_blank text)) [
  | inl e ↦ rw e refl
  | inr e ↦ elim (Bool-cases (should_skip (observe p.drift language depth) language)) [
    | inl f ↦ rw (e, f) refl
    | inr f ↦ elim (Bool-cases (fails || is_broken speech)) [
      | inl g ↦ rw (e, f, g) refl
      | inr g ↦ rw (e, f, g) refl
    ]
  ]
]

abbrev list_of : Option (List (PhraseChunk × Text)) → List (PhraseChunk × Text)
list_of none = []
list_of (some xs) = xs

abbrev taken_or :
    (PhraseChunk × Text) × Queues
    → Option ((PhraseChunk × Text) × Queues)
    → (PhraseChunk × Text) × Queues
taken_or d none = d
taken_or d (some x) = x

first_taken :
    (l m : Text) (queues : Queues) (first : PhraseChunk × Text)
    (waiting : List (PhraseChunk × Text))
    → Dict.lookup m queues ≡ some (first ∷ waiting)
    → list_of (Dict.lookup l queues)
      ≡ (if text_eq m l then first ∷ [] else [])
        ++ list_of (Dict.lookup l (Dict.insert m waiting queues))
first_taken l m queues first waiting e = elim (Bool-cases (text_eq m l)) [
  | inl f ↦
      rw (Dict.lookup-insert m l waiting queues, f)
        (ap list_of
          (subst (λ n. Dict.lookup n queues ≡ some (first ∷ waiting)) ((text_eq_iff m l).0 f) e))
  | inr f ↦ rw (Dict.lookup-insert m l waiting queues, f) refl
]

-- What is taken stood first in the queue of the language, and the other queues stay.
get_item-list :
    (l m : Text) (queues later : Queues) (item : PhraseChunk × Text)
    → get_item m queues ≡ some (item, later)
    → Dict.get_list l queues ≡ done_by l (handled m item) ++ Dict.get_list l later
unfolding get_item
get_item-list l m queues later item e = by_queue (Dict.lookup m queues) refl e
  where
    by_queue :
        (o : Option (List (PhraseChunk × Text)))
        → Dict.lookup m queues ≡ o
        → first_item m queues o ≡ some (item, later)
        → Dict.get_list l queues ≡ done_by l (handled m item) ++ Dict.get_list l later
    by_queue none f h = absurd (cc h)
    by_queue (some []) f h = absurd (cc h)
    by_queue (some (first ∷ waiting)) f h =
        let same : (first, Dict.insert m waiting queues) ≡ (item, later) =
          ap (taken_or (first, queues)) h in
        subst
          (λ x.
            list_of (Dict.lookup l queues)
            ≡ (if text_eq m l then x.0 ∷ [] else []) ++ list_of (Dict.lookup l x.1))
          same (first_taken l m queues first waiting f)

abbrev pipeline_or : Pipeline → Option Pipeline → Pipeline
pipeline_or d none = d
pipeline_or d (some p) = p

-- One step, seen from one language: what it had and was given is what it handled and has left.
Step-list :
    (l : Text) (t u : Tasks) (e : Event)
    → Step t e u
    → Dict.get_list l t.pipeline.queues ++ given_by l e
      ≡ done_by l e ++ Dict.get_list l u.pipeline.queues
unfolding round
Step-list l t u e (dispatched chunk translations now epoch p on clock workers once d f g) =
    let h : HandedOn t.pipeline.queues chunk translations
        (dispatch t.pipeline chunk translations now) =
      dispatch-HandedOn t.pipeline chunk translations now epoch clock workers once in
    let same : h.after ≡ p = ap (pipeline_or p) (sym h.result ∙ d) in
    rw (f, g)
      (subst
        (λ x.
          Dict.get_list l t.pipeline.queues ++ new_items chunk (Dict.lookup l translations)
          ≡ Dict.get_list l x.queues)
        same (sym (h.queued l)))
Step-list l t u e (worked m a item queues d f g) =
    rw (f, g)
      (append-nil (Dict.get_list l t.pipeline.queues)
        ∙ get_item-list l m t.pipeline.queues queues item d
        ∙ ap (λ q. done_by l (handled m item) ++ Dict.get_list l q)
            (sym (
              speak_queues (record t.pipeline { queues = queues }) m item.0 item.1 a.depth a.speech
                a.fails)))
Step-list l t u e (pump_over f g) = rw (f, g) (append-nil _)
Step-list l t u e (told m off f g) = rw (f, g) (append-nil _)
Step-list l t u e (came_back m empty known f g) = rw (f, g) (append-nil _)

-- Of each language, the phrases that it has handled and those that wait in its queue are the phrases
-- that it had and was handed, in order: none is lost, doubled or overtaken, whatever the tasks of the
-- other languages do.
pub Session-fifo :
    (l : Text) (s t : Tasks) (given done : List (PhraseChunk × Text))
    → Session l s t given done
    → Dict.get_list l s.pipeline.queues ++ given ≡ done ++ Dict.get_list l t.pipeline.queues
Session-fifo l s t given done begun = append-nil _
Session-fifo l s _ _ _ (after t u e given done run step) =
    sym (append_assoc (Dict.get_list l s.pipeline.queues) given (given_by l e))
    ∙ ap (λ x. x ++ given_by l e) (Session-fifo l s t given done run)
    ∙ append_assoc done (Dict.get_list l t.pipeline.queues) (given_by l e)
    ∙ ap (λ x. done ++ x) (Step-list l t u e step)
    ∙ sym (append_assoc done (done_by l e) (Dict.get_list l u.pipeline.queues))

-- Workers are told to stop when the pump is over, and one that has come back has an empty queue.
record IsOrderly (l : Text) (t : Tasks) : Type 0 where
  told_late : member l t.closing ≡ true → t.pumping ≡ false
  back_late : member l t.returned ≡ true → t.pumping ≡ false
  back_empty : member l t.returned ≡ true → Dict.get_list l t.pipeline.queues ≡ []

fresh-IsOrderly : (l : Text) (s : Tasks) → IsFresh s → IsOrderly l s
fresh-IsOrderly l s f = record {
  told_late = λ h. absurd (cc (sym (ap (member l) f.none_told) ∙ h));
  back_late = λ h. absurd (cc (sym (ap (member l) f.none_back) ∙ h));
  back_empty = λ h. absurd (cc (sym (ap (member l) f.none_back) ∙ h));
}

right_nil : (xs ys : List (PhraseChunk × Text)) → xs ++ ys ≡ [] → ys ≡ []
right_nil [] ys e = e
right_nil (x ∷ xs) ys e = absurd (cc e)

Step-IsOrderly : (l : Text) (t u : Tasks) (e : Event) → Step t e u → IsOrderly l t → IsOrderly l u
unfolding round
Step-IsOrderly l t u e (dispatched chunk translations now epoch p on clock workers once d f g) o =
    rw g (record {
      told_late = o.told_late;
      back_late = o.back_late;
      back_empty = λ h. absurd (cc (sym (o.back_late h) ∙ on));
    })
Step-IsOrderly l t u e (worked m a item queues d f g) o = rw g (record {
  told_late = o.told_late;
  back_late = o.back_late;
  back_empty = λ h.
      ap (λ q. Dict.get_list l q)
        (speak_queues (record t.pipeline { queues = queues }) m item.0 item.1 a.depth a.speech
          a.fails)
      ∙ right_nil (done_by l (handled m item)) _
          (sym (get_item-list l m t.pipeline.queues queues item d) ∙ o.back_empty h);
})
Step-IsOrderly l t u e (pump_over f g) o =
    rw g (record { told_late = λ h. refl; back_late = λ h. refl; back_empty = o.back_empty })
Step-IsOrderly l t u e (told m off f g) o =
    rw g (record { told_late = λ h. off; back_late = o.back_late; back_empty = o.back_empty })
Step-IsOrderly l t u e (came_back m empty known f g) o = rw g (record {
  told_late = o.told_late;
  back_late = λ h. elim (Bool-cases (text_eq l m)) [
    | inl q ↦ o.told_late (ap (λ n. member n t.closing) ((text_eq_iff l m).0 q) ∙ known)
    | inr q ↦ o.back_late (subst (λ b. (b || member l t.returned) ≡ true) q h)
  ];
  back_empty = λ h. elim (Bool-cases (text_eq l m)) [
    | inl q ↦
        ap (λ n. list_of (Dict.lookup n t.pipeline.queues)) ((text_eq_iff l m).0 q)
        ∙ ap list_of empty
    | inr q ↦ o.back_empty (subst (λ b. (b || member l t.returned) ≡ true) q h)
  ];
})

Session-IsOrderly :
    (l : Text) (s t : Tasks) (given done : List (PhraseChunk × Text))
    → Session l s t given done
    → IsFresh s
    → IsOrderly l t
Session-IsOrderly l s _ _ _ begun f = fresh-IsOrderly l s f
Session-IsOrderly l s _ _ _ (after t u e given done run step) f =
    Step-IsOrderly l t u e step (Session-IsOrderly l s t given done run f)

-- In a session that started afresh, a worker comes back only when the pump is over, and then it has
-- handled exactly the phrases that its language was ever handed, in the order of their dispatch.
pub Session-settled :
    (l : Text) (s t : Tasks) (given done : List (PhraseChunk × Text))
    → IsFresh s
    → Session l s t given done
    → member l t.returned ≡ true
    → (t.pumping ≡ false) × (done ≡ given)
Session-settled l s t given done f run back =
    let o = Session-IsOrderly l s t given done run f in
    (
      o.back_late back,
      sym (append-nil done)
          ∙ ap (λ q. done ++ q) (sym (o.back_empty back))
          ∙ sym (Session-fifo l s t given done run)
          ∙ ap (λ q. q ++ given) (f.no_phrase l),
    )
