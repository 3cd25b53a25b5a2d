-- ===== src/Db/Sessions/Requests.antt =====
-- The calls that change the tables of db/sessions.py, of any number of stores and in any order. A
-- call that raises leaves the tables as they were.
use lad_translate.Db.Sessions.{
  Tables, SessionStore, TranscriptRow, create_session, mark_live, end_session,
}
use lad_translate.Db.Sessions.Listeners.{listener_joined, listener_left}
use lad_translate.Db.Sessions.Transcripts.{record_transcript}
use lad_translate.Config.{SessionConfig}
use lad_translate.Common.Text.{Text}
use lad_translate.Common.{ℕ, Bool, Option, List, [], ◌∷◌}

pub data Request : Type 0 where
  create : SessionConfig → Bool → ℕ → Request
  go_live : Text → Request
  end : Text → Option Text → ℕ → Request
  arrive : Text → Text → Text → ℕ → Request
  depart : Text → ℕ → Request
  record_row : Text → TranscriptRow → Request

unfoldable pub apply : SessionStore → Request → Tables → Tables
unfolding create_session mark_live end_session listener_joined listener_left record_transcript
apply store (create config credible now) t = (create_session store config credible now t).1
apply store (go_live sid) t = (mark_live store sid t).1
apply store (end sid reason now) t = (end_session store sid reason now t).1
apply store (arrive lid sid language now) t = (listener_joined store lid sid language now t).1
apply store (depart lid now) t = listener_left store lid now t
apply store (record_row sid row) t = (record_transcript store sid row t).1

unfoldable pub run : List (SessionStore × Request) → Tables → Tables
unfolding apply
run [] t = t
run ((store, r) ∷ rs) t = run rs (apply store r t)
