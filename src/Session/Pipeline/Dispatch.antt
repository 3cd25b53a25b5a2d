-- ===== src/Session/Pipeline/Dispatch.antt =====
-- The dispatch of a phrase: every translation goes behind what waits for its language.
use lad_translate.Common.{
  if◌then◌else◌, Option-cases, >>=-some, ℕ, ◌+◌, ◌≡◌, refl, sym, ap, ◌∙◌, subst, ◌≢◌, inl, inr,
  Bool, true, false, Option, none, some, List, [], ◌∷◌, ◌++◌, append-nil,
}
use lad_translate.Common.Int.{ℤ, pos, ◌+ℤ◌}
use lad_translate.Common.Text.{Text, text_eq, text_eq_iff}
use lad_translate.Common.Dict
use lad_translate.Common.Dict.{Dict, text_key}
use lad_translate.Chunker.Types.{PhraseChunk}
use lad_translate.Obs.Trace.{committed, translated, wall_for}
use lad_translate.Obs.Latency.{LatencyRecorder, chunk_key, open_chunk, mark, record_revision}
use lad_translate.Session.Pipeline.{Pipeline, open_all, submit, hand_on, dispatch}

-- A recorder whose clock has its epoch opens every chunk.
pub record Opened (o : Option LatencyRecorder) : Type 0 where
  pub after : LatencyRecorder
  pub result : o ≡ some after

mark_committed-clock :
    (r : LatencyRecorder) (id : ℕ) (l : Text) (w : ℤ) → (mark r id l committed w).clock ≡ r.clock
unfolding mark
mark_committed-clock r id l w = elim (Option-cases (Dict.lookup (id, l) r.open_chunks)) [
  | inl e ↦ rw (e, mark) refl
  | inr (t, e) ↦ rw (e, mark) refl
]

abbrev opened_chunk : LatencyRecorder → PhraseChunk → Text → ℤ → LatencyRecorder
opened_chunk r chunk l wall = record r {
  open_chunks =
      Dict.insert (chunk.chunk_id, l)
        (record { chunk_id = chunk.chunk_id; language = l; audio_end_wall = wall; marks = [] })
        r.open_chunks;
}

open_chunk-some :
    (r : LatencyRecorder) (chunk : PhraseChunk) (l : Text) (epoch : ℤ)
    → r.clock ≡ some epoch
    → open_chunk r chunk.chunk_id l chunk.t_audio_end
      ≡ some (opened_chunk r chunk l (epoch +ℤ pos chunk.t_audio_end))
unfolding open_chunk wall_for
open_chunk-some r chunk l epoch h =
    ap
      (λ (c : Option ℤ). elim (wall_for c chunk.t_audio_end) as (λ _. Option LatencyRecorder) [
        | none ↦ none
        | some wall ↦ some (opened_chunk r chunk l wall)
      ])
      h

open_all-Opened :
    (chunk : PhraseChunk) (ls : List Text) (r : LatencyRecorder) (epoch : ℤ)
    → r.clock ≡ some epoch
    → Opened (open_all r chunk ls)
unfolding open_all
open_all-Opened chunk [] r epoch h = record { after = r; result = refl }
open_all-Opened chunk (l ∷ ls) r epoch h =
    let opened = opened_chunk r chunk l (epoch +ℤ pos chunk.t_audio_end) in
    let marked = mark opened chunk.chunk_id l committed (pos chunk.t_wall_committed) in
    let rest : Opened (open_all marked chunk ls) =
      open_all-Opened chunk ls marked epoch
        (mark_committed-clock opened chunk.chunk_id l (pos chunk.t_wall_committed) ∙ h) in
    record {
      after = rest.after;
      result = >>=-some _ _ _ (open_chunk-some r chunk l epoch h) ∙ rest.result;
    }

-- Every language of the answers has a worker.
abbrev pub HasWorkers : Dict Text Text → Dict Text (List (PhraseChunk × Text)) → Type 0
HasWorkers [] queues = Unit
HasWorkers ((l, text) ∷ rest) queues = (Dict.lookup l queues ≢ none) × HasWorkers rest queues

-- What the answers add to the queue of a language.
abbrev pub new_items : PhraseChunk → Option Text → List (PhraseChunk × Text)
new_items chunk none = []
new_items chunk (some text) = (chunk, text) ∷ []

pub record HandedOn (queues : Dict Text (List (PhraseChunk × Text))) (chunk : PhraseChunk)
    (translations : Dict Text Text) (o : Option Pipeline) : Type 0 where
  pub after : Pipeline
  pub result : o ≡ some after
  pub queued :
      (l : Text)
      → Dict.get_list l after.queues
        ≡ Dict.get_list l queues ++ new_items chunk (Dict.lookup l translations)

some_left :
    (b : Bool) (q : List (PhraseChunk × Text)) (o : Option (List (PhraseChunk × Text)))
    → o ≢ none
    → (if b then some q else o) ≢ none
some_left true q o h = λ e. cc e
some_left false q o h = h

insert-HasWorkers :
    (l : Text) (q : List (PhraseChunk × Text)) (rest : Dict Text Text)
    (queues : Dict Text (List (PhraseChunk × Text)))
    → HasWorkers rest queues
    → HasWorkers rest (Dict.insert l q queues)
insert-HasWorkers l q [] queues h = tt
insert-HasWorkers l q ((m, text) ∷ rest) queues h = (
  λ e.
      some_left (text_eq l m) q (Dict.lookup m queues) h.0
        (sym (Dict.lookup-insert l m q queues) ∙ e),
  insert-HasWorkers l q rest queues h.1,
)

abbrev list_of : Option (List (PhraseChunk × Text)) → List (PhraseChunk × Text)
list_of none = []
list_of (some xs) = xs

-- The queues after one submission and the answers behind it, for any language `m`.
queued-next :
    (chunk : PhraseChunk) (l m text : Text) (rest : Dict Text Text)
    (queues : Dict Text (List (PhraseChunk × Text))) (waiting : List (PhraseChunk × Text))
    → Dict.lookup l queues ≡ some waiting
    → Dict.lookup l rest ≡ none
    → list_of (Dict.lookup m (Dict.insert l (waiting ++ (chunk, text) ∷ []) queues))
        ++ new_items chunk (Dict.lookup m rest)
      ≡ list_of (Dict.lookup m queues)
        ++ new_items chunk (if text_eq l m then some text else Dict.lookup m rest)
queued-next chunk l m text rest queues waiting e fresh =
    ap (λ o. list_of o ++ new_items chunk (Dict.lookup m rest))
      (Dict.lookup-insert l m (waiting ++ (chunk, text) ∷ []) queues)
    ∙ by_test (text_eq l m) (λ t. (text_eq_iff l m).0 t)
  where
    by_test :
        (b : Bool)
        → (b ≡ true → l ≡ m)
        → list_of (if b then some (waiting ++ (chunk, text) ∷ []) else Dict.lookup m queues)
            ++ new_items chunk (Dict.lookup m rest)
          ≡ list_of (Dict.lookup m queues)
            ++ new_items chunk (if b then some text else Dict.lookup m rest)
    by_test true same =
        ap (λ o. (waiting ++ (chunk, text) ∷ []) ++ new_items chunk o)
          (subst (λ n. Dict.lookup n rest ≡ none) (same refl) fresh)
        ∙ append-nil (waiting ++ (chunk, text) ∷ [])
        ∙ ap (λ o. list_of o ++ (chunk, text) ∷ [])
            (sym (subst (λ n. Dict.lookup n queues ≡ some waiting) (same refl) e))
    by_test false same = refl

submit-some :
    (queues : Dict Text (List (PhraseChunk × Text))) (l : Text) (chunk : PhraseChunk) (text : Text)
    (waiting : List (PhraseChunk × Text))
    → Dict.lookup l queues ≡ some waiting
    → submit queues l chunk text ≡ some (Dict.insert l (waiting ++ (chunk, text) ∷ []) queues)
unfolding submit
submit-some queues l chunk text waiting e = rw (e, submit) refl

hand_on-HandedOn :
    (chunk : PhraseChunk) (now : ℕ) (translations : Dict Text Text) (p : Pipeline)
    → HasWorkers translations p.queues
    → Dict.HasUniqueKeys translations
    → HandedOn p.queues chunk translations (hand_on p chunk now translations)
unfolding hand_on Dict.lookup
hand_on-HandedOn chunk now [] p h u = record {
  after = p;
  result = refl;
  queued = λ l. sym (append-nil (Dict.get_list l p.queues));
}
hand_on-HandedOn chunk now ((l, text) ∷ rest) p h u = elim (Option-cases (Dict.lookup l p.queues)) [
  | inl e ↦ absurd (h.0 e)
  | inr (waiting, e) ↦
      (let queues' = Dict.insert l (waiting ++ (chunk, text) ∷ []) p.queues in
        let p' : Pipeline = record p {
          recorder = mark p.recorder chunk.chunk_id l translated (pos now);
          queues = queues';
        } in
        let others : HandedOn queues' chunk rest (hand_on p' chunk now rest) =
          hand_on-HandedOn chunk now rest p'
            (insert-HasWorkers l (waiting ++ (chunk, text) ∷ []) rest p.queues h.1) u.1 in
        record {
          after = others.after;
          result = >>=-some _ _ _ (submit-some p.queues l chunk text waiting e) ∙ others.result;
          queued = λ m. others.queued m ∙ queued-next chunk l m text rest p.queues waiting e u.0;
        })
]

-- When the clock has its epoch and each language of the answers has a worker, and each language is
-- answered once, the dispatch of a phrase returns, and each translation stands behind what waited for its language; the other queues are
-- as they were.
pub dispatch-HandedOn :
    (p : Pipeline) (chunk : PhraseChunk) (translations : Dict Text Text) (now : ℕ) (epoch : ℤ)
    → p.recorder.clock ≡ some epoch
    → HasWorkers translations p.queues
    → Dict.HasUniqueKeys translations
    → HandedOn p.queues chunk translations (dispatch p chunk translations now)
unfolding dispatch
dispatch-HandedOn p chunk translations now epoch clock h u =
    let opened : Opened (open_all p.recorder chunk p.targets) =
      open_all-Opened chunk p.targets p.recorder epoch clock in
    let p' : Pipeline = record p {
      chunks = p.chunks + 1;
      recorder = if chunk.revised_after_commit then record_revision opened.after else opened.after;
    } in
    let done : HandedOn p.queues chunk translations (hand_on p' chunk now translations) =
      hand_on-HandedOn chunk now translations p' h u in
    record {
      after = done.after;
      result = >>=-some _ _ _ opened.result ∙ done.result;
      queued = done.queued;
    }
