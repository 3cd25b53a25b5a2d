-- ===== src/Db/Sessions/Live.antt =====
-- `live_sessions` of db/sessions.py: the query with its ORDER BY, which leaves the order of sessions
-- that started in the same microsecond open.
use lad_translate.Db.Sessions.{
  Status, starting, live, ended, failed, SessionRow, Tables, SessionStore,
}
use lad_translate.Db.Sessions.{tenant_id}
use lad_translate.Db.Sql.{select}
use lad_translate.Db.Ordering.{order_by}
use lad_translate.Common.Text.{Text, text_eq}
use lad_translate.Common.{ltb, Bool, true, false, ◌&&◌, List}

-- `status IN ('starting', 'live')`
abbrev pub is_live : Status → Bool
is_live starting = true
is_live live = true
is_live ended = false
is_live failed = false

abbrev pub is_listed : Text → SessionRow → Bool
is_listed tenant row = text_eq row.tenant_id tenant && is_live row.status

-- `ORDER BY started_at DESC`
abbrev pub is_newer : SessionRow → SessionRow → Bool
is_newer x y = ltb y.started_at x.started_at

unfoldable pub live_sessions : SessionStore → Tables → List SessionRow
unfolding select order_by
live_sessions store t = order_by is_newer (select (is_listed (tenant_id store)) t.sessions)
