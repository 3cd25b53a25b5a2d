-- ===== src/Db/Sessions/Queries.antt =====
-- The order of what the queries of db/sessions.py return.
use mathlib.Core.List.{Perm}
use lad_translate.Db.Sessions.{SessionStore, Tables, tenant_id}
use lad_translate.Db.Sessions.Live.{is_listed, is_newer, live_sessions}
use lad_translate.Db.Sessions.Transcripts.{is_spoken_in, is_earlier, rows_of, transcript}
use lad_translate.Db.Ordering.{IsOrdered, order_by-Perm, order_by-IsOrdered}
use lad_translate.Db.Sql.{select}
use lad_translate.Common.Text.{Text}
use lad_translate.Common.{arith}

-- `live_sessions` returns the tenant's sessions that are starting or live, each once, no session in
-- front of one that started later; and `transcript` the chunks of the tenant's session in the
-- language, each once, no chunk in front of one with a smaller number.
pub queries-IsOrdered :
    (store : SessionStore) (sid language : Text) (t : Tables)
    → Perm (live_sessions store t) (select (is_listed (tenant_id store)) t.sessions)
      × IsOrdered is_newer (live_sessions store t)
      × Perm
          (transcript store sid language t)
          (rows_of (select (is_spoken_in (tenant_id store) sid language) t.transcripts))
      × IsOrdered is_earlier (transcript store sid language t)
unfolding live_sessions transcript
queries-IsOrdered store sid language t = (
  order_by-Perm is_newer _,
  order_by-IsOrdered is_newer (λ x y e. ground (arith, e)) (λ x y z e f. ground (arith, e, f))
      (select (is_listed (tenant_id store)) t.sessions),
  order_by-Perm is_earlier _,
  order_by-IsOrdered is_earlier (λ x y e. ground (arith, e)) (λ x y z e f. ground (arith, e, f))
      (rows_of (select (is_spoken_in (tenant_id store) sid language) t.transcripts)),
)
