-- ===== src/Session/Tasks.antt =====
-- session/pipeline.py: the tasks of a session, as a step relation. `_pump` dispatches phrases, each
-- `_LanguageWorker` takes the phrases of its queue one by one, and `_shutdown` puts None behind them
-- when the pump is over. The answers of the translator come in before a dispatch, which then does not
-- wait. A round of a worker is one step, at the time of its end, although it waits for the room in
-- between. A dispatch that raises ends the pump and is no step of its own.
pub mod Fifo
use lad_translate.Chunker.Types.{PhraseChunk}
use lad_translate.Session.Pipeline.{Pipeline, dispatch, speak}
use lad_translate.Session.Pipeline.Dispatch.{HasWorkers, new_items}
use lad_translate.Common.Int.{ℤ}
use lad_translate.Common.Dict
use lad_translate.Common.Dict.{Dict, text_key}
use lad_translate.Common.Text.{Text, text_eq, member}
use lad_translate.Common.{
  if◌then◌else◌, ℕ, ◌≡◌, Bool, true, false, Option, none, some, List, [], ◌∷◌, ◌++◌,
}

-- `closing` are the workers whose queue ends in None, and `returned` those whose task is over.
pub record Tasks : Type 0 where
  pub pipeline : Pipeline
  pub pumping : Bool
  pub closing : List Text
  pub returned : List Text

-- What the room, the synthesiser and its failure are in one round of a worker.
pub record Answers : Type 0 where
  pub depth : ℤ
  pub speech : List (ℕ × Option ℕ)
  pub fails : Bool

abbrev pub Queues : Type 0
Queues = Dict Text (List (PhraseChunk × Text))

-- `self._queue.get()`: the first phrase and the queues without it.
abbrev pub first_item :
    Text → Queues → Option (List (PhraseChunk × Text)) → Option ((PhraseChunk × Text) × Queues)
first_item language queues none = none
first_item language queues (some []) = none
first_item language queues (some (item ∷ waiting)) =
    some (item, Dict.insert language waiting queues)

unfoldable pub get_item : Text → Queues → Option ((PhraseChunk × Text) × Queues)
unfolding Dict.lookup Dict.insert
get_item language queues = first_item language queues (Dict.lookup language queues)

-- One round of `_run` of a worker, on a phrase.
unfoldable pub round : Text → Answers → (PhraseChunk × Text) × Queues → Pipeline → Pipeline
unfolding speak
round language a (item, queues) p =
    (speak (record p { queues = queues }) language item.0 item.1 a.depth a.speech a.fails).0

pub data Event : Type 0 where
  handed : PhraseChunk → Dict Text Text → Event
  handled : Text → PhraseChunk × Text → Event
  quiet : Event

pub data Step (t : Tasks) (e : Event) (u : Tasks) : Type 0 where
  -- The clock is anchored by the first frame, and a translator answers each target at most once.
  dispatched :
      (chunk : PhraseChunk) (translations : Dict Text Text) (now : ℕ) (epoch : ℤ) (p : Pipeline)
      → t.pumping ≡ true
      → t.pipeline.recorder.clock ≡ some epoch
      → HasWorkers translations t.pipeline.queues
      → Dict.HasUniqueKeys translations
      → dispatch t.pipeline chunk translations now ≡ some p
      → e ≡ handed chunk translations
      → u ≡ record t { pipeline = p }
      → Step t e u
  worked :
      (language : Text) (a : Answers) (item : PhraseChunk × Text) (queues : Queues)
      → get_item language t.pipeline.queues ≡ some (item, queues)
      → e ≡ handled language item
      → u ≡ record t { pipeline = round language a (item, queues) t.pipeline }
      → Step t e u
  pump_over : e ≡ quiet → u ≡ record t { pumping = false } → Step t e u
  told :
      (language : Text)
      → t.pumping ≡ false
      → e ≡ quiet
      → u ≡ record t { closing = language ∷ t.closing }
      → Step t e u
  came_back :
      (language : Text)
      → Dict.lookup language t.pipeline.queues ≡ some []
      → member language t.closing ≡ true
      → e ≡ quiet
      → u ≡ record t { returned = language ∷ t.returned }
      → Step t e u

-- What an event adds to the phrases that a language was handed, and to those that it handled.
abbrev pub given_by : Text → Event → List (PhraseChunk × Text)
given_by l (handed chunk translations) = new_items chunk (Dict.lookup l translations)
given_by l (handled m item) = []
given_by l quiet = []

abbrev pub done_by : Text → Event → List (PhraseChunk × Text)
done_by l (handed chunk translations) = []
done_by l (handled m item) = if text_eq m l then item ∷ [] else []
done_by l quiet = []

-- The phrases of a language that a session was handed and has handled since it started, in order.
pub data Session (l : Text) (s : Tasks)
    : Tasks → List (PhraseChunk × Text) → List (PhraseChunk × Text) → Type 0 where
  begun : Session l s s [] []
  after :
      (t u : Tasks) (e : Event) (given done : List (PhraseChunk × Text))
      → Session l s t given done
      → Step t e u
      → Session l s u (given ++ given_by l e) (done ++ done_by l e)

-- As `run` starts the workers: the pump runs, and no worker has been told to stop.
pub record IsFresh (s : Tasks) : Type 0 where
  pub running : s.pumping ≡ true
  pub none_told : s.closing ≡ []
  pub none_back : s.returned ≡ []
  pub no_phrase : (l : Text) → Dict.get_list l s.pipeline.queues ≡ []
