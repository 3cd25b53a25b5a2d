-- ===== src/Api/Join.antt =====
-- api/join.py: the handlers of the join service. A handler's queries read one state of the database,
-- the tables of each schema by its name. The rows of the control plane's tenants, the answer of the
-- room server, the id of a new listener and the clock are arguments.
pub mod Page
pub mod Grants
pub mod Handlers
mod Opened
pub mod Owned
pub mod Offers
pub mod Admission
pub mod Refusal
use lad_translate.Common.Dict
use lad_translate.Common.Dict.{Dict, text_key}
use lad_translate.Common.Text.{Text, codes, text_eq, member}
use lad_translate.Config.{TenantContext, Made, made, refused, new_context}
use lad_translate.Db.Tenancy.{Checked, ok, error}
use lad_translate.Db.Sessions.{SessionRow, SessionStore, Tables, new_store, get_session}
use lad_translate.Db.Sessions.Live.{live_sessions}
use lad_translate.Api.Languages.{Casing}
use lad_translate.Api.Tokens.{TokenIssuer}
use lad_translate.Common.{if◌then◌else◌, Bool, Option, none, some, List, [], ◌∷◌}

-- The status of an HTTPException; 500 is what any other exception becomes.
pub data HttpError : Type 0 where
  bad_request not_found conflict gone internal_error unavailable : HttpError

pub data Response {ℓ} (A : Type ℓ) : Type ℓ where
  response : A → Response A
  http : HttpError → Response A

abbrev pub Database : Type 0
Database = Dict Text Tables

-- A row of the control plane's table of tenants.
pub record TenantEntry : Type 0 where
  pub id : Text
  pub schema_name : Text
  pub is_active : Bool

-- `SELECT id::text, schema_name ... WHERE is_active`
unfoldable pub active_tenants : List TenantEntry → List (Text × Text)
active_tenants [] = []
active_tenants (entry ∷ rest) =
    let others = active_tenants rest in
    if entry.is_active then (entry.id, entry.schema_name) ∷ others else others

-- `tenants` is the table of the control plane, and `database_url` is LAD_DATABASE_URL or "unused".
pub record App : Type 0 where
  pub has_pool : Bool
  pub issuer : Option TokenIssuer
  pub tenants : List TenantEntry
  pub database_url : Text

abbrev pub with_tables : SessionStore → Option Tables → Option (SessionStore × Tables)
with_tables store none = none
with_tables store (some t) = some (store, t)

abbrev pub store_and_tables : Database → Checked SessionStore → Option (SessionStore × Tables)
store_and_tables db (error e) = none
store_and_tables db (ok store) = with_tables store (Dict.lookup store.schema db)

-- `SessionStore(pool, TenantContext(...))`, and its tables. `none` is an exception: a ValueError, a
-- SchemaError, or a schema that does not exist.
abbrev pub store_of_context : Database → Made TenantContext → Option (SessionStore × Tables)
store_of_context db (refused e) = none
store_of_context db (made context) = store_and_tables db (new_store context)

unfoldable pub open_store : App → Database → Text × Text → Option (SessionStore × Tables)
unfolding new_context store_of_context
open_store app db tenant = store_of_context db (new_context tenant.0 app.database_url tenant.1)

-- The first tenant whose store gives a session, by what its store gives.
abbrev pub found_or :
    Response (SessionStore × SessionRow)
    → SessionStore
    → Option SessionRow
    → Response (SessionStore × SessionRow)
found_or rest store none = rest
found_or rest store (some session) = response (store, session)

abbrev pub searched :
    (SessionStore → Tables → Option SessionRow)
    → Response (SessionStore × SessionRow)
    → Option (SessionStore × Tables)
    → Response (SessionStore × SessionRow)
searched find rest none = http internal_error
searched find rest (some (store, t)) = found_or rest store (find store t)

unfoldable pub search_tenants :
    (SessionStore → Tables → Option SessionRow)
    → App
    → Database
    → List (Text × Text)
    → Response (SessionStore × SessionRow)
unfolding open_store
search_tenants find app db [] = http not_found
search_tenants find app db (tenant ∷ tenants) =
    searched find (search_tenants find app db tenants) (open_store app db tenant)

unfoldable pub load_session : App → Database → Text → Response (SessionStore × SessionRow)
unfolding search_tenants get_session active_tenants
load_session app db sid =
    if app.has_pool
    then search_tenants (λ store t. get_session store sid t) app db (active_tenants app.tenants)
    else http unavailable

-- One round of the loop of `_load_room`, and the loop over the live sessions of a store.
abbrev pub if_in_room : Text → Option SessionRow → Option SessionRow → Option SessionRow
if_in_room room rest none = rest
if_in_room room rest (some session) = if text_eq session.room_name room then some session else rest

unfoldable pub first_in_room : SessionStore → Tables → Text → List SessionRow → Option SessionRow
unfolding get_session
first_in_room store t room [] = none
first_in_room store t room (row ∷ rows) =
    if_in_room room (first_in_room store t room rows) (get_session store row.session_id t)

unfoldable pub load_room : App → Database → Text → Response (SessionStore × SessionRow)
unfolding search_tenants first_in_room live_sessions active_tenants
load_room app db room =
    if app.has_pool
    then search_tenants (λ store t. first_in_room store t room (live_sessions store t)) app db
        (active_tenants app.tenants)
    else http unavailable

-- `host in ("localhost", "127.0.0.1", "::1")`, with the issuer's attribute, and None's AttributeError.
unfoldable pub client_url : Casing → App → Text → Response Text
client_url c app host = elim app.issuer [
  | none ↦ http internal_error
  | some i ↦
      if member (c.lower host) (codes "localhost" ∷ codes "127.0.0.1" ∷ codes "::1" ∷ [])
      then response i.internal_url
      else response i.livekit_url
]
