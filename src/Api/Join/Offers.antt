-- ===== src/Api/Join/Offers.antt =====
-- What the join page of api/join.py offers, and what a listener who picks from it is given.
use lad_translate.Api.Join.{Response, response, http}
use lad_translate.Api.Join.Page.{LanguageEntry, Page}
use lad_translate.Api.Join.Grants.{is_offered, join_grant}
use lad_translate.Api.Languages.{Casing, describe}
use lad_translate.Api.Tokens.{Claims, TokenIssuer}
use lad_translate.Api.Rooms.{source_track_name, published_languages}
use lad_translate.Api.Rooms.Published.{has_track}
use lad_translate.Db.Sessions.{SessionRow}
use lad_translate.Common.Text.{Text, text_eq, member}
use lad_translate.Common.{length, All, ◌≡◌, ◌≢◌, true, false, some, List, []}

-- The page shows the code as it is configured: no other spelling of a known one.
abbrev pub IsCanonical : Casing → Text → Type 0
unfolding describe
IsCanonical c code = (describe c code).code ≡ code

-- The codes of a session's row that the page can offer: spelled as they are shown, the source not
-- among the targets, and none like the name of the source track.
pub record HasPlainCodes (c : Casing) (session : SessionRow) : Type 0 where
  pub source_shown : IsCanonical c session.source_language
  pub shown : All (IsCanonical c) session.target_languages
  pub source_apart : member session.source_language session.target_languages ≡ false
  pub ordinary : All (λ code. text_eq code source_track_name ≡ false) session.target_languages

abbrev page_or : Page → Response Page → Page
page_or d (http e) = d
page_or d (response x) = x

module _ (c : Casing) (sign : Claims → Text) (i : TokenIssuer) (session : SessionRow)
    (participants : List (List Text)) where
  unfoldable pub live : List Text
  unfolding published_languages
  live = published_languages (some participants)

  -- The listener is let in, and what the page calls available is there to be heard, once anything is
  -- published.
  unfoldable pub IsHeard : Text → LanguageEntry → Type 0
  unfolding is_offered join_grant live
  IsHeard lid entry =
      (is_offered session entry.code ≡ true)
      × (entry.available ≡ true
          → length live ≢ 0
          → has_track (join_grant sign i session entry.code [] lid).track_name participants ≡ true)
