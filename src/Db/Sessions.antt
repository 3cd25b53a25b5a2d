-- ===== src/Db/Sessions.antt =====
-- db/sessions.py: `SessionStore`, with the tables of db/migrations/001_translation_sessions.sql. A
-- table is the list of its rows, a statement is a function on the tables of its schema, and now() is
-- an argument. Points of time and latencies are in microseconds, and an id is a text in the form in
-- which the database prints it.
pub mod Live
pub mod Requests
mod Rows
mod Unique
mod Attendance
pub mod Consistent
pub mod Settled
pub mod Billing
pub mod Isolation
pub mod Presence
pub mod Upsert
pub mod Queries
pub mod Reopened
pub mod Listeners
pub mod Transcripts
use lad_translate.Common.{
  ltb, ◌==◌, if◌then◌else◌, length, ℕ, ◌+◌, ◌-◌, ◌*◌, ◌/◌, ◌^◌, Bool, true, false, not, ◌&&◌,
  Option, none, some, List, [], ◌∷◌, ◌++◌,
}
use lad_translate.Common.Text.{Text, text_eq}
use lad_translate.Common.Dict
use lad_translate.Common.Dict.{Dict, text_key}
use lad_translate.Config.{TenantContext, SessionConfig, target_codes}
use lad_translate.Db.Sql.{first, update_where}
use lad_translate.Db.Tenancy.{Checked, ok, error, validate_schema}

pub data Status : Type 0 where
  starting live ended failed : Status

pub record SessionRow : Type 0 where
  pub session_id : Text
  pub tenant_id : Text
  pub event_name : Text
  pub room_name : Text
  pub source_language : Text
  pub target_languages : List Text
  pub status : Status
  pub started_at : ℕ
  pub ended_at : Option ℕ
  pub failure_reason : Option Text
  pub billed_seconds : Option ℕ
  pub billed_language_count : Option ℕ
  pub latency_credible : Bool
  pub backend_stt : Text
  pub backend_mt : Text
  pub backend_tts : Text

pub record ListenerRow : Type 0 where
  pub listener_id : Text
  pub session_id : Text
  pub tenant_id : Text
  pub language : Text
  pub joined_at : ℕ
  pub left_at : Option ℕ

pub record TranscriptRow : Type 0 where
  pub chunk_id : ℕ
  pub language : Text
  pub source_text : Text
  pub translated_text : Option Text
  pub t_audio_start : ℕ
  pub t_audio_end : ℕ
  pub latency_s : Option ℕ
  pub commit_reason : Option Text
  pub revised : Bool

-- A row of `session_transcripts`.
pub record StoredTranscript : Type 0 where
  pub session_id : Text
  pub tenant_id : Text
  pub row : TranscriptRow

-- The tables of one schema.
pub record Tables : Type 0 where
  pub sessions : List SessionRow
  pub listeners : List ListenerRow
  pub transcripts : List StoredTranscript

-- The exceptions: the store's own ValueError and LookupError, and the constraints of the database.
pub data StoreError : Type 0 where
  wrong_tenant not_found unique_violation foreign_key_violation check_violation out_of_range :
      StoreError

pub data Answer {ℓ} (A : Type ℓ) : Type ℓ where
  answer : A → Answer A
  raised : StoreError → Answer A

-- A method that returns nothing.
abbrev pub Outcome : Type 0
Outcome = Answer {0} Unit

pub record SessionBilling : Type 0 where
  pub session_id : Text
  pub tenant_id : Text
  pub seconds : ℕ
  pub language_count : ℕ

unfoldable pub language_seconds : SessionBilling → ℕ
language_seconds b = b.seconds * b.language_count

pub record SessionStore : Type 0 where
  pub tenant : TenantContext
  pub schema : Text

unfoldable pub new_store : TenantContext → Checked SessionStore
unfolding validate_schema
new_store tenant = elim (validate_schema tenant.schema) [
  | ok name ↦ ok (record { tenant = tenant; schema = name })
  | error e ↦ error e
]

abbrev pub tenant_id : SessionStore → Text
tenant_id store = store.tenant.tenant_id

-- `session_id = $1 AND tenant_id = $2`
abbrev pub is_session : Text → Text → SessionRow → Bool
is_session tenant sid row = text_eq row.session_id sid && text_eq row.tenant_id tenant

abbrev pub is_none {ℓ} : {A : Type ℓ} → Option A → Bool
is_none none = true
is_none (some _) = false

abbrev pub is_open : Text → Text → SessionRow → Bool
is_open tenant sid row = is_session tenant sid row && is_none row.ended_at

-- The primary key, whoever the tenant is.
abbrev pub has_id : Text → SessionRow → Bool
has_id sid row = text_eq row.session_id sid

unfoldable pub session_row : SessionStore → SessionConfig → Bool → ℕ → SessionRow
unfolding target_codes
session_row store config credible now = record {
  session_id = config.session_id;
  tenant_id = tenant_id store;
  event_name = config.event_name;
  room_name = config.room_name;
  source_language = config.source_language;
  target_languages = target_codes config;
  status = starting;
  started_at = now;
  ended_at = none;
  failure_reason = none;
  billed_seconds = none;
  billed_language_count = none;
  latency_credible = credible;
  backend_stt = config.backends.stt;
  backend_mt = config.backends.mt;
  backend_tts = config.backends.tts;
}

-- By the row that has the primary key already.
abbrev pub inserted_or_not : SessionRow → Tables → Option SessionRow → Answer Text × Tables
inserted_or_not row t (some _) = (raised unique_violation, t)
inserted_or_not row t none =
    if length row.target_languages == 0
    then (raised check_violation, t)
    else (answer row.session_id, record t { sessions = t.sessions ++ row ∷ [] })

-- `INSERT INTO translation_sessions`
unfoldable pub insert_session : SessionRow → Tables → Answer Text × Tables
unfolding first
insert_session row t = inserted_or_not row t (first (has_id row.session_id) t.sessions)

unfoldable pub create_session :
    SessionStore → SessionConfig → Bool → ℕ → Tables → Answer Text × Tables
unfolding insert_session session_row
create_session store config credible now t =
    let inserted = insert_session (session_row store config credible now) t in
    if text_eq config.tenant.tenant_id (tenant_id store) then inserted else (raised wrong_tenant, t)

abbrev pub with_status : Status → SessionRow → SessionRow
with_status s row = record row { status = s }

abbrev pub status_set : SessionStore → Text → Status → Tables → Option SessionRow → Outcome × Tables
unfolding update_where
status_set store sid s t none = (raised not_found, t)
status_set store sid s t (some _) = (
  answer tt,
  record t {
    sessions = update_where (is_session (tenant_id store) sid) (with_status s) t.sessions;
  },
)

unfoldable pub update_status : SessionStore → Text → Status → Tables → Outcome × Tables
unfolding first
update_status store sid s t =
    status_set store sid s t (first (is_session (tenant_id store) sid) t.sessions)

unfoldable pub mark_live : SessionStore → Text → Tables → Outcome × Tables
unfolding update_status
mark_live store sid t = update_status store sid live t

-- `"failed" if failure_reason else "ended"`: an empty reason counts as none.
unfoldable pub final_status : Option Text → Status
final_status none = ended
final_status (some []) = ended
final_status (some (_ ∷ _)) = failed

-- `GREATEST(0, CEIL(EXTRACT(EPOCH FROM (now() - started_at))))`
unfoldable pub billed : ℕ → ℕ → ℕ
billed started now = (now - started + 999_999) / 1_000_000

unfoldable pub settle : Option Text → ℕ → SessionRow → SessionRow
unfolding final_status billed
settle reason now row = record row {
  status = final_status reason;
  ended_at = some now;
  failure_reason = reason;
  billed_seconds = some (billed row.started_at now);
  billed_language_count = some (length row.target_languages);
}

-- The types integer and smallint, and `ended_at >= started_at`.
abbrev pub settled :
    SessionStore → Text → Option Text → ℕ → Tables → SessionRow → Answer SessionBilling × Tables
unfolding settle update_where billed
settled store sid reason now t row =
    if not (ltb (billed row.started_at now) (2 ^ 31) && ltb (length row.target_languages) (2 ^ 15))
    then (raised out_of_range, t)
    else if ltb now row.started_at
    then (raised check_violation, t)
    else (
      answer (record {
        session_id = sid;
        tenant_id = tenant_id store;
        seconds = billed row.started_at now;
        language_count = length row.target_languages;
      }),
      record t {
        sessions = update_where (is_open (tenant_id store) sid) (settle reason now) t.sessions;
      },
    )

abbrev pub settled_or_not :
    SessionStore
    → Text
    → Option Text
    → ℕ
    → Tables
    → Option SessionRow
    → Answer SessionBilling × Tables
settled_or_not store sid reason now t none = (raised not_found, t)
settled_or_not store sid reason now t (some row) = settled store sid reason now t row

unfoldable pub end_session :
    SessionStore → Text → Option Text → ℕ → Tables → Answer SessionBilling × Tables
unfolding first
end_session store sid reason now t =
    settled_or_not store sid reason now t (first (is_open (tenant_id store) sid) t.sessions)

unfoldable pub get_session : SessionStore → Text → Tables → Option SessionRow
unfolding first
get_session store sid t = first (is_session (tenant_id store) sid) t.sessions
