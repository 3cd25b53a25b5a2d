-- ===== src/Obs/Latency.antt =====
-- obs/latency.py: `LatencyRecorder`.
pub mod Marks
pub mod Samples
use lad_translate.Common.{
  ltb, ◌==◌, if◌then◌else◌, length, drop, ℕ, ◌+◌, ◌-◌, ◌≡◌, ◌↔◌, Bool, true, ◌&&◌, Option, none,
  some, List, [], ◌∷◌, ◌++◌, arith,
}
use lad_translate.Common.Int.{ℤ, ltb_ℤ}
use lad_translate.Common.Text.{Text, text_eq, text_eq_iff}
use lad_translate.Common.Dict
use lad_translate.Common.Dict.{Dict, Key, text_key}
use lad_translate.Obs.Trace.{
  Stage, published, stage_eq, AudioClock, wall_for, ChunkTrace, mark_trace, glass_to_glass, Label,
  label_key, breakdown,
}

-- The key `(chunk_id, language)`.
abbrev pub chunk_eq : ℕ × Text → ℕ × Text → Bool
chunk_eq (i, l) (j, m) = i == j && text_eq l m

pub chunk_eq_iff : (a b : ℕ × Text) → (chunk_eq a b ≡ true) ↔ (a ≡ b)
chunk_eq_iff (i, l) (j, m) =
    (λ h. ground (arith, text_eq_iff l m), λ h. ground (arith, text_eq_iff l m))

instance abbrev pub chunk_key : Key (ℕ × Text)
chunk_key = record { eq = chunk_eq; eq_iff = chunk_eq_iff }

pub record LatencyRecorder : Type 0 where
  pub slo_seconds : ℤ
  pub clock : AudioClock
  pub sample_cap : ℕ
  pub open_chunks : Dict (ℕ × Text) ChunkTrace
  pub g2g : Dict Text (List ℤ)
  pub stages : Dict Text (Dict Label (List ℤ))
  pub breaches : ℕ
  pub revisions : ℕ

abbrev pub new_recorder : ℤ → ℕ → LatencyRecorder
new_recorder slo_seconds sample_cap = record {
  slo_seconds = slo_seconds;
  clock = none;
  sample_cap = sample_cap;
  open_chunks = [];
  g2g = [];
  stages = [];
  breaches = 0;
  revisions = 0;
}

-- `none` is the RuntimeError of the clock.
unfoldable pub open_chunk : LatencyRecorder → ℕ → Text → ℕ → Option LatencyRecorder
open_chunk r chunk_id language t_audio_end = elim (wall_for r.clock t_audio_end) [
  | none ↦ none
  | some wall ↦ some (record r {
    open_chunks =
        Dict.insert (chunk_id, language)
          (record { chunk_id = chunk_id; language = language; audio_end_wall = wall; marks = [] })
          r.open_chunks;
  })
]

-- `_append`, which keeps the last `cap` samples.
unfoldable pub append_sample : ℕ → List ℤ → ℤ → List ℤ
append_sample cap target value =
    let longer = target ++ value ∷ [] in
    if ltb cap (length longer) then drop (length longer - cap) longer else longer

-- `d[key]` of a defaultdict of lists.
abbrev pub samples_of {ℓ} : {K : Type ℓ} ⦃k : Key K⦄ → K → Dict K (List ℤ) → List ℤ
samples_of a d = elim (Dict.lookup a d) [ none ↦ [] | some xs ↦ xs ]

abbrev pub stages_of : Text → Dict Text (Dict Label (List ℤ)) → Dict Label (List ℤ)
stages_of l d = elim (Dict.lookup l d) [ none ↦ [] | some xs ↦ xs ]

-- The loop over `trace.breakdown().items()`.
unfoldable pub append_stages :
    ℕ → Text → Dict Label ℤ → Dict Text (Dict Label (List ℤ)) → Dict Text (Dict Label (List ℤ))
unfolding append_sample
append_stages cap language [] d = d
append_stages cap language ((label, seconds) ∷ rest) d =
    let stages = stages_of language d in
    append_stages cap language rest (
      Dict.insert language
        (Dict.insert label (append_sample cap (samples_of label stages) seconds) stages) d)

unfoldable pub close_trace : LatencyRecorder → ChunkTrace → LatencyRecorder
unfolding glass_to_glass breakdown append_sample append_stages
close_trace r t = elim (glass_to_glass t) [
  | none ↦ r
  | some value ↦ record r {
    g2g =
        Dict.insert t.language (append_sample r.sample_cap (samples_of t.language r.g2g) value)
          r.g2g;
    stages = append_stages r.sample_cap t.language (breakdown t) r.stages;
    breaches = (if ltb_ℤ r.slo_seconds value then r.breaches + 1 else r.breaches);
    open_chunks = Dict.erase (t.chunk_id, t.language) r.open_chunks;
  }
]

-- The trace is shared with the table of open chunks, so a mark changes it there.
abbrev mark_open : LatencyRecorder → ℕ → Text → Stage → ℤ → ChunkTrace → LatencyRecorder
mark_open r chunk_id language stage t_wall trace =
    let marked = mark_trace trace stage t_wall in
    let r' : LatencyRecorder = record r {
      open_chunks = Dict.insert (chunk_id, language) marked r.open_chunks;
    } in
    if stage_eq stage published then close_trace r' marked else r'

-- A mark for a chunk that is not open is logged and changes nothing.
unfoldable pub mark : LatencyRecorder → ℕ → Text → Stage → ℤ → LatencyRecorder
unfolding mark_trace close_trace
mark r chunk_id language stage t_wall = elim (Dict.lookup (chunk_id, language) r.open_chunks) [
  | none ↦ r
  | some trace ↦ mark_open r chunk_id language stage t_wall trace
]

unfoldable pub record_revision : LatencyRecorder → LatencyRecorder
record_revision r = record r { revisions = r.revisions + 1 }
