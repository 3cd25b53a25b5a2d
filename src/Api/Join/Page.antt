-- ===== src/Api/Join/Page.antt =====
-- `_describe` of api/join.py: what the join page shows of a session.
use lad_translate.Api.Join.{Response, response, http, gone, App}
use lad_translate.Api.Languages.{Casing, LanguageInfo, describe}
use lad_translate.Api.Rooms.{source_track_name, published_languages}
use lad_translate.Db.Sessions.{SessionRow, Status}
use lad_translate.Db.Sessions.Live.{is_live}
use lad_translate.Common.Text.{Text, codes, member}
use lad_translate.Common.{
  ◌==◌, if◌then◌else◌, length, Bool, true, false, ◌||◌, Option, none, some, List, [], ◌∷◌,
}

pub record LanguageEntry : Type 0 where
  pub code : Text
  pub native : Text
  pub english : Text
  pub rtl : Bool
  pub available : Bool
  pub is_source : Bool

pub record Page : Type 0 where
  pub session_id : Text
  pub event_name : Text
  pub status : Status
  pub languages : List LanguageEntry

-- What the inspector finds in the session's room; it is there when the issuer is.
unfoldable pub live_languages : App → Option (List (List Text)) → List Text
unfolding published_languages
live_languages app tracks = elim app.issuer [ none ↦ [] | some i ↦ published_languages tracks ]

-- `(not live) or (code in live)`
abbrev pub is_available : List Text → Text → Bool
is_available live code = length live == 0 || member code live

unfoldable pub source_entry : Casing → List Text → Text → LanguageEntry
unfolding describe
source_entry c live language =
    let info : LanguageInfo = describe c language in
    record {
      code = info.code;
      native = info.native;
      english = codes "original audio";
      rtl = info.rtl;
      available = is_available live source_track_name;
      is_source = true;
    }

unfoldable pub target_entry : Casing → List Text → Text → LanguageEntry
unfolding describe
target_entry c live code =
    let info : LanguageInfo = describe c code in
    record {
      code = info.code;
      native = info.native;
      english = info.english;
      rtl = info.rtl;
      available = is_available live code;
      is_source = false;
    }

unfoldable pub target_entries : Casing → List Text → List Text → List LanguageEntry
unfolding target_entry
target_entries c live [] = []
target_entries c live (code ∷ configured) =
    target_entry c live code ∷ target_entries c live configured

unfoldable pub page_of : Casing → List Text → SessionRow → Page
unfolding source_entry target_entries
page_of c live session = record {
  session_id = session.session_id;
  event_name = session.event_name;
  status = session.status;
  languages =
      source_entry c live session.source_language ∷ target_entries c live session.target_languages;
}

unfoldable pub describe_session :
    Casing → App → Option (List (List Text)) → SessionRow → Response Page
unfolding live_languages page_of
describe_session c app tracks session =
    if is_live session.status
    then response (page_of c (live_languages app tracks) session)
    else http gone
