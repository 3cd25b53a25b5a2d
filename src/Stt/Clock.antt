-- ===== src/Stt/Clock.antt =====
-- adapters/stt_fastconformer.py: `WordClock`, which times each word of a transcript.
pub mod Stamps
use lad_translate.Common.{
  if◌then◌else◌, length, take, drop, replicate, ℕ, suc, ◌-◌, List, [], ◌∷◌, ◌++◌,
}
use lad_translate.Common.Text.{text_eq, Text, split}
use lad_translate.Adapters.Events.{WordTiming}

pub record WordClock : Type 0 where
  pub words : List Text
  pub ends : List ℕ

abbrev pub new_clock : WordClock
new_clock = record { words = []; ends = [] }

-- The number of words that two transcripts share from the front.
unfoldable pub shared : List Text → List Text → ℕ
shared [] news = 0
shared (old ∷ olds) [] = 0
shared (old ∷ olds) (new ∷ news) =
    let rest = shared olds news in if text_eq old new then suc rest else 0

-- The loop over `zip(self._words, self._ends)`.
unfoldable pub timings_of : ℕ → List Text → List ℕ → List WordTiming
timings_of previous [] ends = []
timings_of previous (word ∷ words) [] = []
timings_of previous (word ∷ words) (end ∷ ends) =
    record { word = word; t_audio_start = previous; t_audio_end = end } ∷ timings_of end words ends

unfoldable pub restamp : WordClock → List Text → ℕ → WordClock
unfolding shared
restamp c words audio_end =
    let n = shared c.words words in
    record {
      words = take n c.words ++ drop n words;
      ends = take n c.ends ++ replicate (length words - n) audio_end;
    }

unfoldable pub stamp : WordClock → Text → ℕ → List WordTiming × WordClock
unfolding restamp timings_of
stamp c text audio_end =
    let c' = restamp c (split text) audio_end in (timings_of 0 c'.words c'.ends, c')
