-- ===== src/Api/Languages.antt =====
-- api/languages.py: the names of the languages on the join page.
use lad_translate.Common.Dict
use lad_translate.Common.Dict.{Dict, text_key}
use lad_translate.Common.Text.{Text, codes}
use lad_translate.Common.{Bool, true, false, Option, none, some, [], ◌∷◌}

-- `str.lower` and `str.upper`, which read the tables of Unicode.
pub record Casing : Type 0 where
  pub lower : Text → Text
  pub upper : Text → Text

pub record LanguageInfo : Type 0 where
  pub code : Text
  pub native : Text
  pub english : Text
  pub rtl : Bool

abbrev entry : Text → Text → Text → Bool → Text × LanguageInfo
entry code native english rtl =
    (code, record { code = code; native = native; english = english; rtl = rtl })

unfoldable pub languages : Dict Text LanguageInfo
languages =
    entry (codes "ar") (0x0627 ∷ 0x0644 ∷ 0x0639 ∷ 0x0631 ∷ 0x0628 ∷ 0x064A ∷ 0x0629 ∷ [])
      (codes "Arabic") true
    ∷ entry (codes "de") (codes "Deutsch") (codes "German") false
    ∷ entry (codes "en") (codes "English") (codes "English") false
    ∷ entry (codes "es") (codes "Español") (codes "Spanish") false
    ∷ entry (codes "fa") (0x0641 ∷ 0x0627 ∷ 0x0631 ∷ 0x0633 ∷ 0x06CC ∷ []) (codes "Persian") true
    ∷ entry (codes "fr") (codes "Français") (codes "French") false
    ∷ entry (codes "he") (0x05E2 ∷ 0x05D1 ∷ 0x05E8 ∷ 0x05D9 ∷ 0x05EA ∷ []) (codes "Hebrew") true
    ∷ entry (codes "hi") (codes "हिन्दी") (codes "Hindi") false
    ∷ entry (codes "it") (codes "Italiano") (codes "Italian") false
    ∷ entry (codes "ja") (codes "日本語") (codes "Japanese") false
    ∷ entry (codes "ko") (codes "한국어") (codes "Korean") false
    ∷ entry (codes "ml") (codes "മലയാളം") (codes "Malayalam") false
    ∷ entry (codes "nl") (codes "Nederlands") (codes "Dutch") false
    ∷ entry (codes "pt") (codes "Português") (codes "Portuguese") false
    ∷ entry (codes "ru") (codes "Русский") (codes "Russian") false
    ∷ entry (codes "ta") (codes "தமிழ்") (codes "Tamil") false
    ∷ entry (codes "te") (codes "తెలుగు") (codes "Telugu") false
    ∷ entry (codes "tr") (codes "Türkçe") (codes "Turkish") false
    ∷ entry (codes "ur") (0x0627 ∷ 0x0631 ∷ 0x062F ∷ 0x0648 ∷ []) (codes "Urdu") true
    ∷ entry (codes "zh") (codes "中文") (codes "Chinese") false
    ∷ []

-- `_LANGUAGES.get(...) or LanguageInfo(...)`; a LanguageInfo is never false.
abbrev pub described : Casing → Text → Option LanguageInfo → LanguageInfo
described c code (some info) = info
described c code none = record {
  code = code;
  native = c.upper code;
  english = c.upper code;
  rtl = false;
}

unfoldable pub describe : Casing → Text → LanguageInfo
unfolding languages
describe c code = described c code (Dict.lookup (c.lower code) languages)
