-- ===== src/Obs/Trace/Stages.antt =====
-- The marks of a trace: the first of a stage wins, and the stages add up to the whole.
use lad_translate.Common.{if◌then◌else◌, ◌≡◌, ap, Option, none, some, List, [], ◌∷◌, arith}
use lad_translate.Common.Int.{ℤ, pos, ◌+ℤ◌, int_laws, eq_of_parts}
use lad_translate.Common.Dict
use lad_translate.Obs.Trace.{
  Stage, committed, translated, tts_first_audio, published, stage_eq, stage_eq_iff, stage_key,
  ChunkTrace, mark_trace, glass_to_glass, breakdown, Label,
}

-- The stage and the time of each call of `mark`, in order.
abbrev pub marked : ChunkTrace → List (Stage × ℤ) → ChunkTrace
marked t [] = t
marked t ((stage, w) ∷ rest) = marked (mark_trace t stage w) rest

-- The first time that a list of marks gives to a stage.
abbrev pub first_of : Stage → List (Stage × ℤ) → Option ℤ
first_of stage [] = none
first_of stage ((s, w) ∷ rest) = if stage_eq s stage then some w else first_of stage rest

abbrev pub or_else : Option ℤ → Option ℤ → Option ℤ
or_else none o = o
or_else (some w) o = some w

pub mark_trace-lookup :
    (t : ChunkTrace) (s stage : Stage) (w : ℤ)
    → Dict.lookup stage (mark_trace t s w).marks
      ≡ or_else (Dict.lookup stage t.marks) (if stage_eq s stage then some w else none)
unfolding mark_trace
mark_trace-lookup t s stage w =
    ground (arith, Dict.lookup-set_default s stage w t.marks, stage_eq_iff s stage)

-- After any calls of `mark` each stage has the time it had before, or else the first that the
-- calls give it.
pub marked-first :
    (t : ChunkTrace) (calls : List (Stage × ℤ)) (stage : Stage)
    → Dict.lookup stage (marked t calls).marks
      ≡ or_else (Dict.lookup stage t.marks) (first_of stage calls)
marked-first t [] stage = ground arith
marked-first t ((s, w) ∷ rest) stage =
    ground (arith, marked-first (mark_trace t s w) rest stage, mark_trace-lookup t s stage w)

abbrev pub total : List (Label × ℤ) → ℤ
total [] = pos 0
total ((label, d) ∷ rest) = d +ℤ total rest

-- When all four stages are marked their durations sum to the glass to glass latency.
pub breakdown-total :
    (t : ChunkTrace) (a b c d : ℤ)
    → Dict.lookup committed t.marks ≡ some a
    → Dict.lookup translated t.marks ≡ some b
    → Dict.lookup tts_first_audio t.marks ≡ some c
    → Dict.lookup published t.marks ≡ some d
    → glass_to_glass t ≡ some (total (breakdown t))
unfolding glass_to_glass breakdown
breakdown-total t a b c d p q r s =
    rw (p, q, r, s, glass_to_glass) (ap some (eq_of_parts _ _ (omega int_laws)))
