-- ===== src/Session/Run.antt =====
-- session/pipeline.py: `run` of a session from the outside, `_watchdog` and `_settle`. What the pump
-- ends with, the readings of the clock and what the session counted are arguments, and the summaries
-- of an outcome are left out. Times are in nanoseconds, those of the database in microseconds.
pub mod Limits
pub mod Settling
use lad_translate.Config.{SessionLimits}
use lad_translate.Db.Sessions.{
  Status, SessionStore, SessionBilling, Tables, Answer, answer, raised, not_found, Outcome,
  final_status, mark_live, end_session,
}
use lad_translate.Common.Text.{Text}
use lad_translate.Common.{
  leb, if◌then◌else◌, ℕ, ◌-◌, ◌*◌, Bool, true, false, ◌||◌, Option, none, some, List, [], ◌∷◌,
}

pub data EndReason : Type 0 where
  max_duration no_audio : EndReason

-- What the watchdog reads when it wakes: the clock, and when audio came last.
pub record Reading : Type 0 where
  pub now : ℕ
  pub last_audio_at : ℕ

-- The loop of `_watchdog`, on its readings until the session is over. The flag says that the warning
-- has been logged.
unfoldable pub watchdog : SessionLimits → ℕ → Bool → List Reading → Option EndReason × Bool
watchdog limits started_at warned [] = (none, warned)
watchdog limits started_at warned (r ∷ rs) =
    let elapsed : ℕ = r.now - started_at in
    let near : Bool = leb (limits.max_duration_s * limits.warn_at_fraction) (elapsed * 1000) in
    let rest = watchdog limits started_at (warned || near) rs in
    if leb limits.max_duration_s elapsed
    then (some max_duration, warned)
    else if leb limits.max_idle_s (r.now - r.last_audio_at)
    then (some no_audio, warned)
    else rest

pub record SessionOutcome : Type 0 where
  pub session_id : Text
  pub status : Status
  pub chunks : ℕ
  pub failure_reason : Option Text

-- `a or b` on optional texts
abbrev pub reason_or : Option Text → Option Text → Option Text
reason_or none b = b
reason_or (some []) b = b
reason_or (some (c ∷ s)) b = some (c ∷ s)

unfoldable pub outcome_of : Text → Option Text → Option Text → ℕ → SessionOutcome
unfolding final_status
outcome_of sid failure end_reason chunks = record {
  session_id = sid;
  status = final_status failure;
  chunks = chunks;
  failure_reason = reason_or failure end_reason;
}

-- A LookupError is logged, any other exception goes on: then there is no outcome.
abbrev pub after_end :
    SessionOutcome → Answer SessionBilling × Tables → Option SessionOutcome × Tables
after_end o (answer b, t) = (some o, t)
after_end o (raised not_found, t) = (some o, t)
after_end o (raised e, t) = (none, t)

unfoldable pub settle_session :
    Option SessionStore
    → Text
    → Option Text
    → Option Text
    → ℕ
    → ℕ
    → Tables
    → Option SessionOutcome × Tables
unfolding outcome_of end_session
settle_session none sid failure end_reason chunks now t =
    (some (outcome_of sid failure end_reason chunks), t)
settle_session (some store) sid failure end_reason chunks now t =
    after_end (outcome_of sid failure end_reason chunks) (end_session store sid failure now t)

-- How the race between the pump and the stop signal ends.
pub data PumpEnd : Type 0 where
  source_ended : PumpEnd
  stopped : PumpEnd
  crashed : Text → PumpEnd

-- `self._failure or f"{type(exc).__name__}: {exc}"`, which is not set before.
unfoldable pub failure_of : PumpEnd → Option Text
failure_of source_ended = none
failure_of stopped = none
failure_of (crashed message) = some message

-- `shut_down` says that the workers were stopped and the room was closed; `outcome` is missing when
-- `run` raises.
pub record RunResult : Type 0 where
  pub outcome : Option SessionOutcome
  pub shut_down : Bool
  pub tables : Tables

abbrev pub settled_run : Option SessionOutcome × Tables → RunResult
settled_run (o, t) = record { outcome = o; shut_down = true; tables = t }

-- `mark_live` comes before the try block.
abbrev pub run_marked :
    Option SessionStore → Text → PumpEnd → Option Text → ℕ → ℕ → Outcome × Tables → RunResult
run_marked store sid pump end_reason chunks now (answer x, t) =
    settled_run (settle_session store sid (failure_of pump) end_reason chunks now t)
run_marked store sid pump end_reason chunks now (raised e, t) = record {
  outcome = none;
  shut_down = false;
  tables = t;
}

unfoldable pub run : Option SessionStore → Text → PumpEnd → Option Text → ℕ → ℕ → Tables → RunResult
unfolding settle_session failure_of mark_live
run none sid pump end_reason chunks now t =
    settled_run (settle_session none sid (failure_of pump) end_reason chunks now t)
run (some store) sid pump end_reason chunks now t =
    run_marked (some store) sid pump end_reason chunks now (mark_live store sid t)
