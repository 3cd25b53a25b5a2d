-- ===== src/Api/Join/Grants.antt =====
-- `_issue_listener` and `_issue_speaker` of api/join.py.
use lad_translate.Api.Join.{
  Response, response, http, bad_request, conflict, gone, internal_error, unavailable, App, Database,
}
use lad_translate.Api.Tokens.{Claims, TokenIssuer, ListenerToken, for_listener, for_publisher}
use lad_translate.Api.Rooms.{source_track_name, track_prefix, published_languages}
use lad_translate.Db.Sessions.{SessionRow, SessionStore, Tables, Answer, answer, raised}
use lad_translate.Db.Sessions.Live.{is_live}
use lad_translate.Db.Sessions.Listeners.{listener_joined}
use lad_translate.Common.Dict
use lad_translate.Common.Dict.{Dict, text_key}
use lad_translate.Common.Text.{Text, codes, text_eq, member}
use lad_translate.Common.{
  if◌then◌else◌, take, ℕ, Bool, not, ◌||◌, Option, none, some, List, [], ◌∷◌, ◌++◌,
}

-- `url or other`
abbrev pub url_or : Text → Text → Text
url_or [] other = other
url_or (c ∷ s) other = c ∷ s

pub record JoinGrant : Type 0 where
  pub listener_id : Text
  pub session_id : Text
  pub language : Text
  pub url : Text
  pub token : Text
  pub track_name : Text
  pub is_source : Bool

pub record SpeakGrant : Type 0 where
  pub url : Text
  pub token : Text
  pub track_name : Text
  pub event_name : Text
  pub source_language : Text

unfoldable pub is_source_language : SessionRow → Text → Bool
is_source_language session language = text_eq language session.source_language

-- `language == source_language or language in target_languages`
unfoldable pub is_offered : SessionRow → Text → Bool
unfolding is_source_language
is_offered session language =
    is_source_language session language || member language session.target_languages

module _ (sign : Claims → Text) where
  unfoldable pub join_grant : TokenIssuer → SessionRow → Text → Text → Text → JoinGrant
  unfolding for_listener is_source_language
  join_grant i session language url listener_id =
      let token : ListenerToken = for_listener sign i session.room_name language listener_id in
      record {
        listener_id = listener_id;
        session_id = session.session_id;
        language = language;
        url = url_or url token.url;
        token = token.token;
        track_name =
            if is_source_language session language
            then source_track_name
            else track_prefix ++ language;
        is_source = is_source_language session language;
      }

  -- By what the database answers to the insert.
  abbrev pub registered :
      TokenIssuer
      → SessionStore
      → SessionRow
      → Text
      → Text
      → Database
      → Answer Text × Tables
      → Response JoinGrant × Database
  registered i store session language url db (raised e, t) = (http internal_error, db)
  registered i store session language url db (answer listener_id, t) =
      (response (join_grant i session language url listener_id), Dict.insert store.schema t db)

  abbrev pub register :
      TokenIssuer
      → SessionStore
      → SessionRow
      → Text
      → Text
      → Text
      → ℕ
      → Database
      → Option Tables
      → Response JoinGrant × Database
  register i store session language url lid now db none = (http internal_error, db)
  register i store session language url lid now db (some t) =
      registered i store session language url db
        (listener_joined store lid session.session_id language now t)

  abbrev pub issue_to_listener :
      SessionStore
      → SessionRow
      → Text
      → Text
      → Text
      → ℕ
      → Database
      → Option TokenIssuer
      → Response JoinGrant × Database
  issue_to_listener store session language url lid now db none = (http unavailable, db)
  issue_to_listener store session language url lid now db (some i) =
      if not (is_live session.status)
      then (http gone, db)
      else if not (is_offered session language)
      then (http bad_request, db)
      else register i store session language url lid now db (Dict.lookup store.schema db)

  unfoldable pub issue_listener :
      App
      → SessionStore
      → SessionRow
      → Text
      → Text
      → Text
      → ℕ
      → Database
      → Response JoinGrant × Database
  unfolding issue_to_listener
  issue_listener app store session language url lid now db =
      issue_to_listener store session language url lid now db app.issuer

  unfoldable pub speak_grant : TokenIssuer → SessionRow → Text → SpeakGrant
  unfolding for_publisher
  speak_grant i session url = record {
    url = url_or url i.livekit_url;
    token = for_publisher sign i session.room_name (codes "speaker-" ++ take 8 session.session_id);
    track_name = source_track_name;
    event_name = session.event_name;
    source_language = session.source_language;
  }

  -- `tracks` is what the room server answers.
  abbrev pub issue_to_speaker :
      SessionRow → Text → Option (List (List Text)) → Option TokenIssuer → Response SpeakGrant
  issue_to_speaker session url tracks none = http unavailable
  issue_to_speaker session url tracks (some i) =
      if not (is_live session.status)
      then http gone
      else if member source_track_name (published_languages tracks)
      then http conflict
      else response (speak_grant i session url)

  unfoldable pub issue_speaker :
      App → SessionRow → Text → Option (List (List Text)) → Response SpeakGrant
  unfolding issue_to_speaker
  issue_speaker app session url tracks = issue_to_speaker session url tracks app.issuer
