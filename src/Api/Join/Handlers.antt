-- ===== src/Api/Join/Handlers.antt =====
-- The endpoints of api/join.py, in the order of what they load, ask and write. `tracks` is the answer
-- of the room server for a room.
use lad_translate.Api.Join.{
  Response, response, http, internal_error, App, Database, load_session, load_room, client_url,
}
use lad_translate.Api.Join.Page.{Page, describe_session}
use lad_translate.Api.Join.Grants.{JoinGrant, SpeakGrant, issue_listener, issue_speaker}
use lad_translate.Api.Tokens.{Claims}
use lad_translate.Api.Languages.{Casing}
use lad_translate.Db.Sessions.{SessionRow, SessionStore}
use lad_translate.Db.Sessions.Listeners.{listener_left}
use lad_translate.Common.Dict
use lad_translate.Common.Dict.{Dict, text_key}
use lad_translate.Common.Text.{Text}
use lad_translate.Common.{ℕ, Option, none, some, List}

module _ (c : Casing) (tracks : Text → Option (List (List Text))) (app : App) where
  abbrev pub described_of : Response (SessionStore × SessionRow) → Response Page
  described_of (http e) = http e
  described_of (response (store, session)) =
      describe_session c app (tracks session.room_name) session

  unfoldable pub session_info : Database → Text → Response Page
  unfolding load_session described_of
  session_info db sid = described_of (load_session app db sid)

  unfoldable pub room_info : Database → Text → Response Page
  unfolding load_room described_of
  room_info db room = described_of (load_room app db room)

  module _ (sign : Claims → Text) where
    abbrev pub spoken_for :
        Response Text → Response (SessionStore × SessionRow) → Response SpeakGrant
    spoken_for url (http e) = http e
    spoken_for (http e) (response found) = http e
    spoken_for (response url) (response (store, session)) =
        issue_speaker sign app session url (tracks session.room_name)

    unfoldable pub speak : Database → Text → Text → Response SpeakGrant
    unfolding load_session client_url spoken_for
    speak db sid host = spoken_for (client_url c app host) (load_session app db sid)

    unfoldable pub room_speak : Database → Text → Text → Response SpeakGrant
    unfolding load_room client_url spoken_for
    room_speak db room host = spoken_for (client_url c app host) (load_room app db room)

    -- The language, the id of the new listener and the time of a request.
    abbrev pub joined_for :
        Text
        → Text
        → ℕ
        → Database
        → Response Text
        → Response (SessionStore × SessionRow)
        → Response JoinGrant × Database
    joined_for language lid now db url (http e) = (http e, db)
    joined_for language lid now db (http e) (response found) = (http e, db)
    joined_for language lid now db (response url) (response (store, session)) =
        issue_listener sign app store session language url lid now db

    unfoldable pub join : Database → Text → Text → Text → Text → ℕ → Response JoinGrant × Database
    unfolding load_session client_url joined_for
    join db sid language host lid now =
        joined_for language lid now db (client_url c app host) (load_session app db sid)

    unfoldable pub room_join :
        Database → Text → Text → Text → Text → ℕ → Response JoinGrant × Database
    unfolding load_room client_url joined_for
    room_join db room language host lid now =
        joined_for language lid now db (client_url c app host) (load_room app db room)

abbrev pub left_for :
    Text → ℕ → Database → Response (SessionStore × SessionRow) → Response (Unit {0}) × Database
left_for lid now db (http e) = (http e, db)
left_for lid now db (response (store, session)) = elim (Dict.lookup store.schema db) [
  | none ↦ (http internal_error, db)
  | some t ↦ (response tt, Dict.insert store.schema (listener_left store lid now t) db)
]

unfoldable pub leave : App → Database → Text → Text → ℕ → Response (Unit {0}) × Database
unfolding load_session left_for
leave app db lid sid now = left_for lid now db (load_session app db sid)
