-- ===== src/Api/Rooms.antt =====
-- api/rooms.py: `RoomInspector`. What the room server answers is an argument: the names of the tracks
-- of each participant, or none when the call fails in any way.
pub mod Published
use lad_translate.Common.Text.{Text, codes, text_eq, member}
use lad_translate.Common.{
  ◌==◌, if◌then◌else◌, length, drop, ℕ, zero, suc, ◌-◌, Bool, true, false, ◌&&◌, Option, none, some,
  List, [], ◌∷◌, ◌++◌,
}

abbrev pub track_prefix : Text
track_prefix = codes "lang-"

abbrev pub source_track_name : Text
source_track_name = codes "source-audio"

-- `text.startswith(prefix)`
abbrev pub starts_with : Text → Text → Bool
starts_with [] s = true
starts_with (p ∷ ps) [] = false
starts_with (p ∷ ps) (c ∷ s) = p == c && starts_with ps s

-- `text.replace(old, new)` where `skip` characters belong to a match that is replaced already.
unfoldable pub replace_from : Text → Text → ℕ → Text → Text
replace_from old new skip [] = []
replace_from old new (suc skip) (c ∷ s) = replace_from old new skip s
replace_from old new zero (c ∷ s) =
    let found = replace_from old new (length old - 1) s in
    let rest = replace_from old new 0 s in
    if starts_with old (c ∷ s) then new ++ found else c ∷ rest

unfoldable pub http_url : Text → Text
unfolding replace_from
http_url url =
    replace_from (codes "ws://") (codes "http://") 0
      (replace_from (codes "wss://") (codes "https://") 0 url)

-- `published.add(code)`
abbrev pub add_code : Text → List Text → List Text
add_code code published = if member code published then published else code ∷ published

unfoldable pub add_track : Text → List Text → List Text
add_track name published =
    if starts_with track_prefix name
    then add_code (drop (length track_prefix) name) published
    else if text_eq name source_track_name
    then add_code source_track_name published
    else published

unfoldable pub add_tracks : List Text → List Text → List Text
unfolding add_track
add_tracks [] published = published
add_tracks (name ∷ names) published = add_tracks names (add_track name published)

unfoldable pub add_participants : List (List Text) → List Text → List Text
unfolding add_tracks
add_participants [] published = published
add_participants (tracks ∷ rest) published = add_participants rest (add_tracks tracks published)

unfoldable pub published_languages : Option (List (List Text)) → List Text
unfolding add_participants
published_languages none = []
published_languages (some participants) = add_participants participants []
