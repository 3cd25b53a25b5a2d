-- ===== src/Examples/Sessions.antt =====
-- The theorems about a session's tasks and its end, with one phrase in French.
use lad_translate.Examples.Speech.{french, phrase, anchored, answers, queue_there, no_other}
use lad_translate.Examples.Records.{bill, closed, s1_ended, store, tables, tables-IsSound}
use lad_translate.Chunker.Types.{PhraseChunk}
use lad_translate.Obs.Latency.{open_chunk, mark, chunk_key}
use lad_translate.Obs.Trace.{wall_for}
use lad_translate.Session.Drift.{observe, should_skip, speed_for}
use lad_translate.Config.{default_limits}
use lad_translate.Session.Pipeline.{
  is_blank, speak, open_all, Pipeline, dispatch, hand_on, submit, play, persist, is_broken,
}
use lad_translate.Session.Tasks.{
  Tasks, Answers, get_item, round, handed, handled, quiet, dispatched, worked, pump_over, told,
  came_back, Session, begun, after, IsFresh, Step,
}
use lad_translate.Session.Tasks.Fifo.{Session-settled}
use lad_translate.Session.Run.{SessionOutcome, watchdog, Reading, settle_session}
use lad_translate.Session.Run.Limits.{IsWithin, watchdog_iff}
use lad_translate.Session.Run.Settling.{IsReported, settle_session-recorded}
use lad_translate.Session.Room.{new_room, publish_languages, names_of}
use lad_translate.Session.Room.Tracks.{publish_languages-inspected}
use lad_translate.Api.Rooms.{published_languages}
use lad_translate.Common.Int.{pos}
use lad_translate.Common.Dict
use lad_translate.Common.Dict.{Dict, text_key}
use lad_translate.Common.Text.{Text, codes, text_eq, member}
use lad_translate.Common.{
  if◌then◌else◌, ◌>>=◌, All, ℕ, ◌≡◌, refl, ◌↔◌, Bool, true, false, Option, none, some, List, [],
  ◌∷◌,
}

abbrev s0 : Tasks
s0 = record { pipeline = anchored; pumping = true; closing = []; returned = [] }

abbrev waiting_in : Option (List (PhraseChunk × Text)) → List (PhraseChunk × Text)
waiting_in none = []
waiting_in (some xs) = xs

abbrev queue_if : Bool → Option (List (PhraseChunk × Text))
queue_if b = if b then some [] else none

empty_queue : (b : Bool) → waiting_in (queue_if b) ≡ []
empty_queue true = refl
empty_queue false = refl

s0-IsFresh : IsFresh s0
unfolding Dict.lookup
s0-IsFresh = record {
  running = refl;
  none_told = refl;
  none_back = refl;
  no_phrase = λ l. empty_queue (text_eq french l);
}

abbrev pipeline_or : Pipeline → Option Pipeline → Pipeline
pipeline_or d none = d
pipeline_or d (some p) = p

abbrev p1 : Pipeline
p1 = pipeline_or anchored (dispatch anchored phrase answers 3_100_000_000)

dispatched_once : dispatch anchored phrase answers 3_100_000_000 ≡ some p1
unfolding dispatch open_all open_chunk wall_for mark hand_on submit Dict.lookup Dict.insert ◌>>=◌
dispatched_once = refl

abbrev s1 : Tasks
s1 = record s0 { pipeline = p1 }

first_phrase : get_item french p1.queues ≡ some ((phrase, codes "bonjour"), (french, []) ∷ [])
unfolding get_item dispatch open_all open_chunk wall_for mark hand_on submit Dict.lookup Dict.insert
    ◌>>=◌
first_phrase = refl

abbrev speaks_it : Answers
speaks_it = record { depth = pos 0; speech = (5, some 6) ∷ []; fails = false }

abbrev s2 : Tasks
s2 = record s1 {
  pipeline = round french speaks_it ((phrase, codes "bonjour"), (french, []) ∷ []) p1;
}

abbrev s3 : Tasks
s3 = record s2 { pumping = false }

abbrev s4 : Tasks
s4 = record s3 { closing = french ∷ [] }

abbrev s5 : Tasks
s5 = record s4 { returned = french ∷ [] }

step1 : Step s0 (handed phrase answers) s1
step1 =
    dispatched phrase answers 3_100_000_000 (pos 0) p1 refl refl (queue_there, tt) (no_other, tt)
      dispatched_once refl refl

step2 : Step s1 (handled french (phrase, codes "bonjour")) s2
step2 = worked french speaks_it (phrase, codes "bonjour") ((french, []) ∷ []) first_phrase refl refl

step3 : Step s2 quiet s3
step3 = pump_over refl refl

step4 : Step s3 quiet s4
step4 = told french refl refl refl

queue_empty : Dict.lookup french s4.pipeline.queues ≡ some []
unfolding round speak is_blank lad_translate.Common.Text.is_space observe should_skip speed_for play
    persist is_broken mark Dict.lookup Dict.insert dispatch wall_for
queue_empty = refl

step5 : Step s4 quiet s5
step5 = came_back french queue_empty refl refl refl

abbrev said : List (PhraseChunk × Text)
said = (phrase, codes "bonjour") ∷ []

the_session : Session french s0 s5 ((phrase, codes "bonjour") ∷ []) ((phrase, codes "bonjour") ∷ [])
unfolding Dict.lookup
the_session =
    after s4 s5 quiet _ _
      (after s3 s4 quiet _ _
        (after s2 s3 quiet _ _
          (after s1 s2 (handled french (phrase, codes "bonjour")) _ _
            (after s0 s1 (handed phrase answers) [] [] begun step1) step2)
          step3)
        step4)
      step5

Session-settled_example : (s5.pumping ≡ false) × (said ≡ said)
Session-settled_example = Session-settled french s0 s5 said said s0-IsFresh the_session refl

abbrev readings : List Reading
readings =
    record { now = 5_000_000_000; last_audio_at = 4_000_000_000 }
    ∷ record { now = 10_000_000_000; last_audio_at = 9_000_000_000 }
    ∷ []

watchdog_iff_example :
    ((watchdog default_limits 0 false readings).0 ≡ none) ↔ All (IsWithin default_limits 0) readings
watchdog_iff_example = watchdog_iff default_limits 0 false readings

settle_session-recorded_example :
    ((o : SessionOutcome) × (settle_session
          (some store)
          (codes "s1")
          none
          (some (codes "idle"))
          3
          65_400_000
          tables
        ≡ (some o, closed))
      × IsReported store (codes "s1") none (some (codes "idle")) 65_400_000 closed o)
    × ((failure' end_reason' : Option Text) (chunks' now' : ℕ)
        → (settle_session (some store) (codes "s1") failure' end_reason' chunks' now' closed).1
          ≡ closed)
settle_session-recorded_example =
    settle_session-recorded store (codes "s1") none (some (codes "idle")) 3 65_400_000 tables bill
      closed tables-IsSound s1_ended

publish_languages-inspected_example :
    member (codes "fr") (
      published_languages (
        some (
          names_of
            (publish_languages
              (codes "fr" ∷ codes "hi" ∷ [])
              (new_room (codes "hall") 48_000 1)).tracks
          ∷ [])))
    ≡ true
publish_languages-inspected_example =
    publish_languages-inspected (codes "fr" ∷ codes "hi" ∷ []) (new_room (codes "hall") 48_000 1)
      (codes "fr") refl
