-- ===== src/Examples/Joining.antt =====
-- The theorems about the join service, with one tenant and one session.
use lad_translate.Examples.Records.{store, tables, row, with_listener}
use lad_translate.Api.Languages.{Casing}
use lad_translate.Api.Tokens.{Claims, TokenIssuer}
use lad_translate.Api.Rooms.{published_languages}
use lad_translate.Api.Join.{
  App, Database, response, load_session, client_url, open_store, search_tenants, active_tenants,
}
use lad_translate.Api.Join.Page.{Page, page_of}
use lad_translate.Api.Join.Grants.{
  JoinGrant, join_grant, is_offered, is_source_language, issue_listener,
}
use lad_translate.Api.Join.Handlers.{join, speak, room_join, room_speak}
use lad_translate.Api.Join.Owned.{has_active, load_session-owned}
use lad_translate.Api.Join.Admission.{join-admits}
use lad_translate.Api.Join.Refusal.{IsFailed, IsRefused, join-unconfigured}
use lad_translate.Db.Sessions.{SessionStore, SessionRow, Tables, get_session, new_store}
use lad_translate.Db.Sessions.Live.{is_live}
use lad_translate.Db.Sessions.Listeners.{listener_joined, active_listeners, count_of}
use lad_translate.Db.Sql.{first}
use lad_translate.Db.Tenancy.{validate_schema}
use lad_translate.Config.{new_context}
use lad_translate.Common.Dict
use lad_translate.Common.Dict.{Dict, text_key}
use lad_translate.Common.Text.{Text, codes, text_eq}
use lad_translate.Common.{
  if◌then◌else◌, ◌+◌, ◌≡◌, refl, true, false, Option, none, some, List, [], ◌∷◌,
}

abbrev plain : Casing
plain = record { lower = λ s. s; upper = λ s. s }

abbrev sign : Claims → Text
sign claims = claims.identity

abbrev the_issuer : TokenIssuer
the_issuer = record {
  livekit_url = codes "wss://hall";
  internal_url = codes "ws://localhost";
  api_key = codes "k";
  api_secret = codes "s";
  ttl_s = 21_600;
}

abbrev app : App
app = record {
  has_pool = true;
  issuer = some the_issuer;
  tenants =
      record { id = codes "9"; schema_name = codes "lad_old"; is_active = false }
      ∷ record { id = codes "1"; schema_name = codes "lad_acme"; is_active = true }
      ∷ [];
  database_url = codes "db";
}

abbrev db : Database
db = (codes "lad_acme", tables) ∷ []

abbrev tracks : List (List Text)
tracks = (codes "lang-fr" ∷ []) ∷ (codes "source-audio" ∷ []) ∷ []

s1_loaded : load_session app db (codes "s1") ≡ response (store, row)
unfolding load_session active_tenants search_tenants open_store new_context new_store
    validate_schema get_session first Dict.lookup
s1_loaded = refl

load_session-owned_example :
    (codes "s1" ≡ codes "s1")
    × (codes "1" ≡ codes "1")
    × (has_active (codes "1") app.tenants ≡ true)
    × ((t : Tables) × (Dict.lookup (codes "lad_acme") db ≡ some t)
        × (get_session store (codes "s1") t ≡ some row))
load_session-owned_example = load_session-owned app db (codes "s1") store row s1_loaded

abbrev page : Page
page = page_of plain (published_languages (some tracks)) row

abbrev no_tracks : Text → Option (List (List Text))
no_tracks room = none

abbrev grant : JoinGrant
grant = join_grant sign the_issuer row (codes "fr") (codes "ws://localhost") (codes "a")

a_joins :
    join plain no_tracks app sign db
      (codes "s1")
      (codes "fr")
      (codes "localhost")
      (codes "a")
      6_000_000
    ≡ (response grant, (codes "lad_acme", with_listener) ∷ [])
unfolding join load_session active_tenants search_tenants open_store new_context new_store
    validate_schema get_session first Dict.lookup Dict.insert client_url issue_listener is_offered
    is_source_language listener_joined
a_joins = refl

join-admits_example :
    (s : SessionStore) × (session : SessionRow) × (load_session app db (codes "s1")
      ≡ response (s, session))
    × (is_live session.status ≡ true)
    × (is_offered session (codes "fr") ≡ true)
    × ((i : TokenIssuer) × (some the_issuer ≡ some i)
        × (says : Claims) × (grant.token ≡ sign says)
        × (says.api_key ≡ i.api_key)
        × (says.api_secret ≡ i.api_secret)
        × (says.grants.room_join ≡ true)
        × (says.grants.room ≡ session.room_name)
        × (says.grants.can_subscribe ≡ true)
        × (says.grants.can_publish ≡ false)
        × (says.grants.can_publish_data ≡ false))
    × ((t : Tables) × (u : Tables) × (Dict.lookup s.schema db ≡ some t)
        × (Dict.lookup s.schema ((codes "lad_acme", with_listener) ∷ []) ≡ some u)
        × ((l : Text)
            → count_of l (active_listeners s session.session_id u)
              ≡ count_of l (active_listeners s session.session_id t)
                + (if text_eq (codes "fr") l then 1 else 0)))
join-admits_example =
    join-admits plain sign no_tracks app db (codes "s1") (codes "fr") (codes "localhost")
      (codes "a") 6_000_000 grant ((codes "lad_acme", with_listener) ∷ []) a_joins

abbrev bare : App
bare = record app { issuer = none }

join-unconfigured_example :
    IsRefused db (
      join plain no_tracks bare sign db
        (codes "s1")
        (codes "fr")
        (codes "host")
        (codes "a")
        6_000_000)
    × IsRefused db (
        room_join plain no_tracks bare sign db
          (codes "hall")
          (codes "fr")
          (codes "host")
          (codes "a")
          6_000_000)
    × IsFailed (speak plain no_tracks bare sign db (codes "s1") (codes "host"))
    × IsFailed (room_speak plain no_tracks bare sign db (codes "hall") (codes "host"))
join-unconfigured_example =
    join-unconfigured plain sign no_tracks bare db (codes "host") (codes "s1") (codes "hall")
      (codes "fr") (codes "a") 6_000_000 refl refl
