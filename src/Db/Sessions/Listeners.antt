-- ===== src/Db/Sessions/Listeners.antt =====
-- The listeners of db/sessions.py. The id that uuid4 draws is an argument.
use lad_translate.Db.Sessions.{
  SessionRow, ListenerRow, Tables, SessionStore, tenant_id, has_id, is_none,
}
use lad_translate.Db.Sessions.{Answer, answer, raised, unique_violation, foreign_key_violation}
use lad_translate.Db.Sql.{select, first, update_where}
use lad_translate.Common.Text.{Text, text_eq}
use lad_translate.Common.Dict
use lad_translate.Common.Dict.{Dict, text_key}
use lad_translate.Common.{ℕ, suc, Bool, ◌&&◌, Option, none, some, List, [], ◌∷◌, ◌++◌}

abbrev pub has_listener_id : Text → ListenerRow → Bool
has_listener_id lid row = text_eq row.listener_id lid

abbrev pub new_listener : SessionStore → Text → Text → Text → ℕ → ListenerRow
new_listener store lid sid language now = record {
  listener_id = lid;
  session_id = sid;
  tenant_id = tenant_id store;
  language = language;
  joined_at = now;
  left_at = none;
}

-- By the row that has the primary key already, and the one that the foreign key refers to.
abbrev pub joined_or_not :
    ListenerRow → Tables → Option ListenerRow → Option SessionRow → Answer Text × Tables
joined_or_not row t (some _) _ = (raised unique_violation, t)
joined_or_not row t none none = (raised foreign_key_violation, t)
joined_or_not row t none (some _) =
    (answer row.listener_id, record t { listeners = t.listeners ++ row ∷ [] })

-- `INSERT INTO session_listeners`
unfoldable pub listener_joined :
    SessionStore → Text → Text → Text → ℕ → Tables → Answer Text × Tables
unfolding first
listener_joined store lid sid language now t =
    joined_or_not (new_listener store lid sid language now) t
      (first (has_listener_id lid) t.listeners) (first (has_id sid) t.sessions)

-- `listener_id = $1 AND tenant_id = $2 AND left_at IS NULL`
abbrev pub is_present : Text → Text → ListenerRow → Bool
is_present tenant lid row =
    text_eq row.listener_id lid && (text_eq row.tenant_id tenant && is_none row.left_at)

abbrev pub gone : ℕ → ListenerRow → ListenerRow
gone now row = record row { left_at = some now }

-- The clock does not go back between a listener's arrival and departure, so the constraint
-- `left_at >= joined_at` is met.
unfoldable pub listener_left : SessionStore → Text → ℕ → Tables → Tables
unfolding update_where
listener_left store lid now t = record t {
  listeners = update_where (is_present (tenant_id store) lid) (gone now) t.listeners;
}

-- `tenant_id = $1 AND session_id = $2 AND left_at IS NULL`
abbrev pub is_active : Text → Text → ListenerRow → Bool
is_active tenant sid row =
    text_eq row.tenant_id tenant && (text_eq row.session_id sid && is_none row.left_at)

abbrev pub or_zero : Option ℕ → ℕ
or_zero none = 0
or_zero (some n) = n

abbrev pub count_of : Text → Dict Text ℕ → ℕ
count_of language d = or_zero (Dict.lookup language d)

-- `SELECT language, count(*) ... GROUP BY language`, as the dictionary of its rows.
unfoldable pub count_by_language : List ListenerRow → Dict Text ℕ
count_by_language [] = []
count_by_language (x ∷ xs) =
    let d = count_by_language xs in Dict.insert x.language (suc (count_of x.language d)) d

unfoldable pub active_listeners : SessionStore → Text → Tables → Dict Text ℕ
unfolding select count_by_language
active_listeners store sid t =
    count_by_language (select (is_active (tenant_id store) sid) t.listeners)
