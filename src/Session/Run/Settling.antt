-- ===== src/Session/Run/Settling.antt =====
-- What `_settle` of session/pipeline.py leaves in the database, and a `run` that never starts.
use lad_translate.Session.Run.{SessionOutcome, reason_or, outcome_of, settle_session, PumpEnd, run}
use lad_translate.Db.Sessions.{
  SessionRow, SessionStore, SessionBilling, Tables, answer, raised, StoreError, not_found, settle,
  failed, ended, final_status, end_session, get_session, mark_live,
}
use lad_translate.Db.Sessions.Requests
use lad_translate.Db.Sessions.Consistent.{IsSound, HasReason, failed-HasReason, ended-HasReason}
use lad_translate.Db.Sessions.Billing.{end_session-settled, end_session-IsFinal}
use lad_translate.Common.Text.{Text}
use lad_translate.Common.{ℕ, ◌≡◌, refl, ◌↔◌, false, Option, none, some, [], ◌∷◌}

reason-failed :
    (failure end_reason : Option Text) → HasReason failure → reason_or failure end_reason ≡ failure
reason-failed none end_reason h = absurd h
reason-failed (some []) end_reason h = absurd h
reason-failed (some (c ∷ s)) end_reason h = refl

reason-ended :
    (failure end_reason : Option Text)
    → (HasReason failure → ⊥)
    → reason_or failure end_reason ≡ end_reason
reason-ended none end_reason h = refl
reason-ended (some []) end_reason h = refl
reason-ended (some (c ∷ s)) end_reason h = absurd (h tt)

has_failed : (failure : Option Text) → HasReason failure → final_status failure ≡ failed
unfolding final_status
has_failed none h = absurd h
has_failed (some []) h = absurd h
has_failed (some (c ∷ s)) h = refl

already_over :
    (store : SessionStore) (sid : Text) (failure : Option Text) (now : ℕ) (t : Tables)
    (b : SessionBilling) (u : Tables)
    → IsSound t.sessions
    → end_session store sid failure now t ≡ (answer b, u)
    → (failure' : Option Text) (now' : ℕ)
    → end_session store sid failure' now' u ≡ (raised not_found, u)
unfolding Requests.run
already_over store sid failure now t b u sound e failure' now' =
    (end_session-IsFinal store sid failure now t b u [] sound e).1 failure' now'

-- What a session is reported as, and what its row says, at the same time.
pub record IsReported (store : SessionStore) (sid : Text) (failure end_reason : Option Text)
    (now : ℕ) (u : Tables) (o : SessionOutcome) : Type 0 where
  pub row : SessionRow
  pub found : get_session store sid u ≡ some row
  pub same_status : row.status ≡ o.status
  pub fails : (row.status ≡ failed) ↔ HasReason failure
  pub kept : row.failure_reason ≡ failure
  pub fault : row.status ≡ failed → o.failure_reason ≡ failure
  pub limit : row.status ≡ ended → o.failure_reason ≡ end_reason
  pub closed_at : row.ended_at ≡ some now

-- When the store closes the session, in a sound table, the outcome and the session's row have the same
-- status, which is failed exactly when there is a failure that is not empty. The row keeps the failure
-- and has ended now. The outcome gives the failure of a session that failed, and of one that ended the
-- reason of its end, which the row does not have. To settle the session another time changes nothing
-- in the tables.
pub settle_session-recorded :
    (store : SessionStore) (sid : Text) (failure end_reason : Option Text) (chunks now : ℕ)
    (t : Tables) (b : SessionBilling) (u : Tables)
    → IsSound t.sessions
    → end_session store sid failure now t ≡ (answer b, u)
    → ((o : SessionOutcome) × (settle_session (some store) sid failure end_reason chunks now t
          ≡ (some o, u))
        × IsReported store sid failure end_reason now u o)
      × ((failure' end_reason' : Option Text) (chunks' now' : ℕ)
          → (settle_session (some store) sid failure' end_reason' chunks' now' u).1 ≡ u)
unfolding settle_session outcome_of settle
settle_session-recorded store sid failure end_reason chunks now t b u sound e =
    let found = end_session-settled store sid failure now t b u sound.unique e in
    (
      (
        outcome_of sid failure end_reason chunks,
        rw e refl,
        record {
          row = settle failure now found.0;
          found = found.1;
          same_status = refl;
          fails = (failed-HasReason failure, has_failed failure);
          kept = refl;
          fault = λ h. reason-failed failure end_reason (failed-HasReason failure h);
          limit = λ h. reason-ended failure end_reason (ended-HasReason failure h);
          closed_at = refl;
        },
      ),
      λ failure' end_reason' chunks' now'.
          rw (already_over store sid failure now t b u sound e failure' now') refl,
    )

-- When the store cannot mark the session live, `run` raises before the block that shuts the session
-- down: the workers that it started and the room are left as they are.
pub run-unmarked :
    (store : SessionStore) (sid : Text) (pump : PumpEnd) (end_reason : Option Text) (chunks now : ℕ)
    (t u : Tables) (e : StoreError)
    → mark_live store sid t ≡ (raised e, u)
    → let r = run (some store) sid pump end_reason chunks now t in
      (r.outcome ≡ none) × (r.shut_down ≡ false)
unfolding run
run-unmarked store sid pump end_reason chunks now t u e h = rw h (refl, refl)
