-- ===== src/Stt/Geometry.antt =====
-- adapters/stt_fastconformer.py: `StreamingGeometry`, the sizes of a streaming encoder's steps.
use lad_translate.Common.{◌>>=◌, ℕ, ◌*◌, ◌/◌, Option, none, some, List, [], ◌∷◌}
use lad_translate.Adapters.Events.{second}

pub record StreamingGeometry : Type 0 where
  pub chunk_size_first : ℕ
  pub chunk_size : ℕ
  pub shift_size_first : ℕ
  pub shift_size : ℕ
  pub pre_encode_cache_first : ℕ
  pub pre_encode_cache : ℕ
  pub drop_extra_pre_encoded : ℕ
  pub subsampling_factor : ℕ

-- A value of the encoder's configuration: an int, or a list of them.
pub data Setting : Type 0 where
  one : ℕ → Setting
  many : List ℕ → Setting

-- `none` is the ValueError of a list that has not two elements.
unfoldable pub pair_of : Setting → Option (ℕ × ℕ)
pair_of (one n) = some (n, n)
pair_of (many []) = none
pair_of (many (a ∷ [])) = none
pair_of (many (a ∷ b ∷ [])) = some (a, b)
pair_of (many (a ∷ b ∷ c ∷ rest)) = none

-- `encoder.streaming_cfg`, and the encoder's own subsampling factor if it has one.
pub record EncoderConfig : Type 0 where
  pub chunk_size : Setting
  pub shift_size : Setting
  pub pre_encode_cache_size : Setting
  pub drop_extra_pre_encoded : ℕ
  pub subsampling_factor : Option ℕ

unfoldable pub from_encoder : EncoderConfig → Option StreamingGeometry
unfolding pair_of
from_encoder cfg = do
  chunk ← pair_of cfg.chunk_size
  shift ← pair_of cfg.shift_size
  cache ← pair_of cfg.pre_encode_cache_size
  some (record {
    chunk_size_first = chunk.0;
    chunk_size = chunk.1;
    shift_size_first = shift.0;
    shift_size = shift.1;
    pre_encode_cache_first = cache.0;
    pre_encode_cache = cache.1;
    drop_extra_pre_encoded = cfg.drop_extra_pre_encoded;
    subsampling_factor = elim cfg.subsampling_factor [ none ↦ 8 | some n ↦ n ];
  })

-- `WINDOW_STRIDE_S`, 10 ms, in nanoseconds.
abbrev pub window_stride : ℕ
window_stride = second / 100

unfoldable pub step_interval : StreamingGeometry → ℕ
step_interval g = g.shift_size * window_stride

unfoldable pub audio_time : ℕ → ℕ
audio_time frame = frame * window_stride
