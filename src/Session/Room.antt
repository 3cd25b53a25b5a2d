-- ===== src/Session/Room.antt =====
-- session/room.py: `TranslationRoom`. The LiveKit package keeps the connection and the queue of each
-- source; what it answers is an argument. Times are in nanoseconds.
pub mod Tracks
use lad_translate.Adapters.Events.{AudioFrame, second}
use lad_translate.Common.Dict
use lad_translate.Common.Dict.{Dict, text_key}
use lad_translate.Common.Text.{Text, codes, text_eq}
use lad_translate.Common.{
  ◌==◌, if◌then◌else◌, length, ℕ, ◌+◌, ◌*◌, ◌/◌, Bool, true, false, not, Option, none, some, List,
  [], ◌∷◌, ◌++◌,
}

abbrev pub source_track_name : Text
source_track_name = codes "source-audio"

abbrev pub speech_bitrate : ℕ
speech_bitrate = 32_000

abbrev pub speech_red : Bool
speech_red = true

abbrev pub playout_queue_ms : ℕ
playout_queue_ms = 12_000

pub record LanguageTrack : Type 0 where
  pub language : Text
  pub track_name : Text
  pub frames_published : ℕ
  pub seconds_published : ℕ

-- `source_track` is the number of the track that is subscribed.
pub record TranslationRoom : Type 0 where
  pub room_name : Text
  pub sample_rate : ℕ
  pub num_channels : ℕ
  pub tracks : Dict Text LanguageTrack
  pub source_track : Option ℕ
  pub source_ready : Bool
  pub closing : Bool

abbrev pub new_room : Text → ℕ → ℕ → TranslationRoom
new_room room_name sample_rate num_channels = record {
  room_name = room_name;
  sample_rate = sample_rate;
  num_channels = num_channels;
  tracks = [];
  source_track = none;
  source_ready = false;
  closing = false;
}

pub record Publication : Type 0 where
  pub track : ℕ
  pub name : Text
  pub subscribed : Bool
  pub is_audio : Bool

-- A call of `set_subscribed` on the publication, or none.
unfoldable pub subscribe_if_source : Publication → Option Bool
subscribe_if_source p =
    if not (text_eq p.name source_track_name)
    then none
    else if not p.subscribed
    then some true
    else none

-- The sweep over what was published before the room was joined.
unfoldable pub sweep : List Publication → List (Option Bool)
unfolding subscribe_if_source
sweep [] = []
sweep (p ∷ ps) = subscribe_if_source p ∷ sweep ps

unfoldable pub on_subscribed : Publication → TranslationRoom → Option Bool × TranslationRoom
on_subscribed p r =
    if not p.is_audio
    then (none, r)
    else if not (text_eq p.name source_track_name)
    then (some false, r)
    else (none, record r { source_track = some p.track; source_ready = true })

unfoldable pub on_disconnected : TranslationRoom → TranslationRoom
on_disconnected r = record r { source_ready = false }

unfoldable pub close : TranslationRoom → TranslationRoom
close r = record r { closing = true }

-- A frame of the track, with the clock when it is handed on.
pub record SourceFrame : Type 0 where
  pub pcm : List ℕ
  pub sample_rate : ℕ
  pub samples_per_channel : ℕ
  pub now : ℕ

-- `samples_per_channel / sample_rate`
unfoldable pub frame_length : SourceFrame → ℕ
frame_length f = f.samples_per_channel * second / f.sample_rate

-- The loop of `source_frames`.
unfoldable pub frames_from : ℕ → List SourceFrame → List AudioFrame
unfolding frame_length
frames_from t_audio [] = []
frames_from t_audio (f ∷ fs) =
    record { pcm = f.pcm; sample_rate = f.sample_rate; t_audio = t_audio; t_wall = f.now }
    ∷ frames_from (t_audio + frame_length f) fs

-- `none` is the TimeoutError of a source that never comes.
unfoldable pub source_frames : TranslationRoom → List SourceFrame → Option (List AudioFrame)
unfolding frames_from
source_frames r fs = if r.source_ready then some (frames_from 0 fs) else none

unfoldable pub new_track : Text → LanguageTrack
new_track language = record {
  language = language;
  track_name = codes "lang-" ++ language;
  frames_published = 0;
  seconds_published = 0;
}

unfoldable pub publish_languages : List Text → TranslationRoom → TranslationRoom
unfolding new_track Dict.insert
publish_languages [] r = r
publish_languages (language ∷ languages) r =
    publish_languages languages
      (record r { tracks = Dict.insert language (new_track language) r.tracks })

pub data PushError : Type 0 where
  no_track wrong_rate : PushError

pub data Pushed : Type 0 where
  pushed : TranslationRoom → Pushed
  refused : PushError → Pushed

abbrev pub push_to : TranslationRoom → Text → List ℕ → ℕ → Option LanguageTrack → Pushed
push_to r language pcm sample_rate none = refused no_track
push_to r language pcm sample_rate (some entry) =
    let samples : ℕ = length pcm / 2 / r.num_channels in
    if not (sample_rate == r.sample_rate)
    then refused wrong_rate
    else if samples == 0
    then pushed r
    else pushed (record r {
      tracks =
          Dict.insert language
            (record entry {
              frames_published = entry.frames_published + 1;
              seconds_published = entry.seconds_published + samples * second / sample_rate;
            })
            r.tracks;
    })

unfoldable pub push : Text → List ℕ → ℕ → TranslationRoom → Pushed
unfolding Dict.lookup Dict.insert
push language pcm sample_rate r = push_to r language pcm sample_rate (Dict.lookup language r.tracks)

-- `queued` is the `queued_duration` of the language's source.
abbrev pub depth_of : ℕ → Option LanguageTrack → ℕ
depth_of queued none = 0
depth_of queued (some entry) = queued

unfoldable pub queue_depth : (Text → ℕ) → Text → TranslationRoom → ℕ
unfolding Dict.lookup
queue_depth queued language r = depth_of (queued language) (Dict.lookup language r.tracks)

-- Whether the source of the language is told to drop its queue.
abbrev pub is_some : Option LanguageTrack → Bool
is_some none = false
is_some (some entry) = true

unfoldable pub clear_queue : Text → TranslationRoom → Bool
unfolding Dict.lookup
clear_queue language r = is_some (Dict.lookup language r.tracks)

abbrev pub keys_of : Dict Text LanguageTrack → List Text
keys_of [] = []
keys_of ((language, entry) ∷ rest) = language ∷ keys_of rest

unfoldable pub languages : TranslationRoom → List Text
languages r = keys_of r.tracks

-- The names under which the room's tracks stand for everyone in it.
abbrev pub names_of : Dict Text LanguageTrack → List Text
names_of [] = []
names_of ((language, entry) ∷ rest) = entry.track_name ∷ names_of rest
