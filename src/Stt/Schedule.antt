-- ===== src/Stt/Schedule.antt =====
-- adapters/stt_fastconformer.py: `ChunkPlan` and `ChunkSchedule`. Frames are counted from the start
-- of the session.
pub mod Offers
use lad_translate.Common.{
  ltb, leb, ◌==◌, if◌then◌else◌, ℕ, zero, suc, ◌+◌, ◌-◌, min, Option, none, some, List, [], ◌∷◌,
}
use lad_translate.Stt.Geometry.{StreamingGeometry}

pub record ChunkPlan : Type 0 where
  pub step : ℕ
  pub start : ℕ
  pub end : ℕ
  pub cache_start : ℕ
  pub zero_pad : ℕ
  pub drop_extra_pre_encoded : ℕ

unfoldable pub cache_frames : ChunkPlan → ℕ
cache_frames p = p.start - p.cache_start

unfoldable pub width : ChunkPlan → ℕ
unfolding cache_frames
width p = p.zero_pad + cache_frames p + (p.end - p.start)

pub record ChunkSchedule : Type 0 where
  pub geometry : StreamingGeometry
  pub step : ℕ
  pub cursor : ℕ

abbrev pub new_schedule : StreamingGeometry → ChunkSchedule
new_schedule geometry = record { geometry = geometry; step = 0; cursor = 0 }

pub record Sizes : Type 0 where
  pub chunk : ℕ
  pub shift : ℕ
  pub cache : ℕ
  pub drop : ℕ

-- `_sizes`
unfoldable pub sizes : ChunkSchedule → Sizes
sizes s =
    let g = s.geometry in
    if s.step == 0
    then record {
      chunk = g.chunk_size_first;
      shift = g.shift_size_first;
      cache = g.pre_encode_cache_first;
      drop = 0;
    }
    else record {
      chunk = g.chunk_size;
      shift = g.shift_size;
      cache = g.pre_encode_cache;
      drop = g.drop_extra_pre_encoded;
    }

-- The step from the cursor to `end`.
abbrev pub plan_to : ChunkSchedule → ℕ → ChunkPlan
plan_to s end =
    let cached = min (sizes s).cache s.cursor in
    record {
      step = s.step;
      start = s.cursor;
      end = end;
      cache_start = s.cursor - cached;
      zero_pad = (sizes s).cache - cached;
      drop_extra_pre_encoded = (sizes s).drop;
    }

abbrev pub advance : ChunkSchedule → ChunkSchedule
advance s = record s { cursor = s.cursor + (sizes s).shift; step = s.step + 1 }

-- The loop of `offer`. `none` is a loop that the fuel does not end.
unfoldable pub offer_loop : ℕ → ChunkSchedule → ℕ → Option (List ChunkPlan × ChunkSchedule)
unfolding sizes
offer_loop zero s available = none
offer_loop (suc fuel) s available =
    let rest = offer_loop fuel (advance s) available in
    let end = s.cursor + (sizes s).chunk in
    if ltb available end
    then some ([], s)
    else elim rest [ none ↦ none | some r ↦ some (plan_to s end ∷ r.0, r.1) ]

-- As many rounds as there are frames, and two more: the first shift, which may be 0, and the
-- round that finds no chunk.
unfoldable pub offer : ChunkSchedule → ℕ → Option (List ChunkPlan × ChunkSchedule)
unfolding offer_loop
offer s available = offer_loop (available + 3) s available

unfoldable pub flush : ChunkSchedule → ℕ → Option ChunkPlan × ChunkSchedule
flush s available =
    if leb available s.cursor
    then (none, s)
    else (some (plan_to s available), record s { cursor = available; step = s.step + 1 })

unfoldable pub retain_from : ChunkSchedule → ℕ
unfolding sizes
retain_from s = s.cursor - (sizes s).cache
