-- ===== src/Stt/Frames.antt =====
-- adapters/stt_fastconformer.py: `FrameWindow` and `FeatureBuffer`. A frame is any value; the
-- tensor of frames is a list of them along its last dimension.
pub mod Windows
use lad_translate.Common.{
  ltb, if◌then◌else◌, length, take, drop, ℕ, ◌+◌, ◌-◌, min, max, Option, none, some, List, ◌++◌,
}

pub record FrameWindow : Type 0 where
  pub origin : ℕ
  pub total : ℕ

abbrev pub new_window : FrameWindow
new_window = record { origin = 0; total = 0 }

unfoldable pub held : FrameWindow → ℕ
held w = w.total - w.origin

-- The count is the size of a tensor, which is not negative.
unfoldable pub extend : FrameWindow → ℕ → FrameWindow
extend w count = record w { total = w.total + count }

-- `none` is an IndexError, of a frame that is gone or of one that has not come.
unfoldable pub local : FrameWindow → ℕ → ℕ → Option (ℕ × ℕ)
local w start end =
    if ltb start w.origin
    then none
    else if ltb w.total end
    then none
    else some (start - w.origin, end - w.origin)

abbrev drop_target : FrameWindow → ℕ → ℕ
drop_target w absolute = min (max absolute w.origin) w.total

unfoldable pub drop_before : FrameWindow → ℕ → ℕ × FrameWindow
drop_before w absolute =
    (drop_target w absolute - w.origin, record w { origin = drop_target w absolute })

pub record FeatureBuffer {ℓ} (A : Type ℓ) : Type ℓ where
  pub frames : Option (List A)
  pub window : FrameWindow

module _ {ℓ} {A : Type ℓ} where
  abbrev pub new_buffer : FeatureBuffer A
  new_buffer = record { frames = none; window = new_window }

  abbrev pub available : FeatureBuffer A → ℕ
  available b = b.window.total

  unfoldable pub append : FeatureBuffer A → List A → FeatureBuffer A
  unfolding extend
  append b features = record b {
    frames = some (elim b.frames [ none ↦ features | some old ↦ old ++ features ]);
    window = extend b.window (length features);
  }

  -- `none` is the IndexError, or the TypeError of a buffer that has no tensor yet.
  unfoldable pub slice : FeatureBuffer A → ℕ → ℕ → Option (List A)
  unfolding local
  slice b start end = elim (local b.window start end) [
    | none ↦ none
    | some (lo, hi) ↦ elim b.frames [ none ↦ none | some old ↦ some (take (hi - lo) (drop lo old)) ]
  ]

  unfoldable pub discard_before : FeatureBuffer A → ℕ → FeatureBuffer A
  unfolding drop_before
  discard_before b absolute = record b {
    frames = elim b.frames [
      | none ↦ none
      | some old ↦ some (drop (drop_before b.window absolute).0 old)
    ];
    window = (drop_before b.window absolute).1;
  }
