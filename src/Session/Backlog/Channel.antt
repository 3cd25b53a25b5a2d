-- ===== src/Session/Backlog/Channel.antt =====
-- The guard between its producer and its consumer: `feed` and `drain` run as two tasks, so their
-- steps interleave in any order.
use lad_translate.Common.{
  if◌then◌else◌, length, length-append, ℕ, ◌+◌, ◌<◌, ◌≡◌, refl, sym, ap, ◌∙◌, subst, ◌⊎◌, Bool,
  true, false, some, List, [], ◌∷◌, ◌++◌, append_assoc, append-nil, arith,
}
use lad_translate.Common.Sequence.{Within, end, Within-snoc, Within-trans, Within-middle}
use lad_translate.Adapters.Events.{AudioFrame}
use lad_translate.Session.Backlog.{
  drain_from, BacklogGuard, Drained, yields, returns, waits, accept, shed_if_behind, push, close,
  drain, new_guard,
}
use lad_translate.Session.Backlog.Shedding.{shed_if_behind-Sheds}

-- The guard, where the consumer stands, and a log of what went in and what came out.
pub record Channel : Type 0 where
  pub guard : BacklogGuard
  pub waiting : Bool
  pub finished : Bool
  pub pushed : List AudioFrame
  pub out : List AudioFrame

abbrev pub opened : BacklogGuard → Channel
opened g = record { guard = g; waiting = false; finished = false; pushed = []; out = [] }

abbrev pub resume : Channel → Drained → Channel
resume ch (yields f g) = record ch { guard = g; waiting = false; out = ch.out ++ f ∷ [] }
resume ch returns = record ch { waiting = false; finished = true }
resume ch (waits g) = record ch { guard = g; waiting = true }

-- A frame arrives, the source ends, or the consumer runs to its next suspension: it can, unless it
-- waits for the event and the event is not set.
pub data Step (ch : Channel) : Channel → Type 0 where
  produce :
      (f : AudioFrame)
      → ch.guard.closed ≡ false
      → Step ch (record ch { guard = push ch.guard f; pushed = ch.pushed ++ f ∷ [] })
  source_ends : Step ch (record ch { guard = close ch.guard })
  consume :
      ch.finished ≡ false
      → (ch.waiting ≡ false) ⊎ (ch.guard.arrived ≡ true)
      → Step ch (resume ch (drain ch.guard))

pub data Reach (ch : Channel) : Channel → Type 0 where
  here : Reach ch ch
  next : {ch' ch'' : Channel} → Reach ch ch' → Step ch' ch'' → Reach ch ch''

pub record IsSound (ch : Channel) : Type 0 where
  pub below : ch.guard.recover_to_s < ch.guard.max_lag_s
  pub ordered : Within (ch.out ++ ch.guard.buffer) ch.pushed
  pub counted_in : ch.guard.stats.frames_in ≡ length ch.pushed
  pub counted_out : ch.guard.stats.frames_out ≡ length ch.out
  pub conserved :
      ch.guard.stats.frames_in
      ≡ ch.guard.stats.frames_out + ch.guard.stats.frames_dropped + length ch.guard.buffer
  pub awake :
      ch.waiting ≡ true
      → ch.guard.arrived ≡ false
      → (ch.guard.buffer ≡ []) × (ch.guard.closed ≡ false)
  pub done : ch.finished ≡ true → (ch.guard.buffer ≡ []) × (ch.guard.closed ≡ true)

opened-IsSound : (g : BacklogGuard) (a b w : ℕ) → new_guard a b w ≡ some g → IsSound (opened g)
unfolding new_guard
opened-IsSound g a b w e =
    let empty : g.buffer ≡ [] = ground arith in
    record {
      below = ground arith;
      ordered = subst (λ s. Within s []) (sym empty) end;
      counted_in = ground arith;
      counted_out = ground arith;
      conserved = ground arith;
      awake = λ w. cc w;
      done = λ d. cc d;
    }

produce-IsSound :
    (ch : Channel) (f : AudioFrame)
    → ch.guard.closed ≡ false
    → IsSound ch
    → IsSound (record ch { guard = push ch.guard f; pushed = ch.pushed ++ f ∷ [] })
unfolding push accept
produce-IsSound ch f open_source h =
    let s = shed_if_behind-Sheds (accept ch.guard f) h.below in
    let kept = (shed_if_behind (accept ch.guard f)).buffer in
    let same : (ch.out ++ ch.guard.buffer) ++ f ∷ [] ≡ ch.out ++ (s.gone ++ kept) =
      append_assoc ch.out ch.guard.buffer (f ∷ []) ∙ ap (λ b. ch.out ++ b) s.split in
    record {
      below = let (a, b, _, _, _, _) = s.same in omega (arith, a, b, h.below);
      ordered =
          Within-trans (subst (λ b. Within b (ch.pushed ++ f ∷ [])) same (Within-snoc f h.ordered))
            (Within-middle ch.out s.gone kept);
      counted_in =
          let (_, _, _, ins, _, _) = s.same in
          omega (arith, ins, h.counted_in, length-append {0} ch.pushed (f ∷ []));
      counted_out = let (_, _, _, _, outs, _) = s.same in omega (arith, outs, h.counted_out);
      conserved =
          let (_, _, _, ins, outs, _) = s.same in
          omega (
            arith,
            ins,
            outs,
            s.counted,
            h.conserved,
            ap (λ (b : List AudioFrame). length b) s.split,
            length-append {0} ch.guard.buffer (f ∷ []),
            length-append {0} s.gone kept,
          );
      awake = λ w a. cc a;
      done = λ d. cc (open_source, (h.done d).1);
    }

consume-IsSound :
    (ch : Channel) → ch.finished ≡ false → IsSound ch → IsSound (resume ch (drain ch.guard))
unfolding drain
consume-IsSound ch running h = by_buffer ch.guard.buffer refl
  where
    by_closed :
        (c : Bool)
        → ch.guard.buffer ≡ []
        → ch.guard.closed ≡ c
        → IsSound (resume ch (if c then returns else waits (record ch.guard { arrived = false })))
    by_closed true empty e = record {
      below = h.below;
      ordered = h.ordered;
      counted_in = h.counted_in;
      counted_out = h.counted_out;
      conserved = h.conserved;
      awake = λ w. cc w;
      done = λ d. (empty, e);
    }
    by_closed false empty e = record {
      below = h.below;
      ordered = h.ordered;
      counted_in = h.counted_in;
      counted_out = h.counted_out;
      conserved = h.conserved;
      awake = λ w a. (empty, e);
      done = λ d. cc (d, running);
    }

    by_buffer :
        (b : List AudioFrame) → ch.guard.buffer ≡ b → IsSound (resume ch (drain_from ch.guard b))
    by_buffer [] e = by_closed ch.guard.closed e refl
    by_buffer (f ∷ fs) e = record {
      below = h.below;
      ordered =
          subst (λ s. Within s ch.pushed)
            (ap (λ b. ch.out ++ b) e ∙ sym (append_assoc ch.out (f ∷ []) fs)) h.ordered;
      counted_in = h.counted_in;
      counted_out = omega (arith, h.counted_out, length-append {0} ch.out (f ∷ []));
      conserved = omega (arith, h.conserved, ap (λ (b : List AudioFrame). length b) e);
      awake = λ w. cc w;
      done = λ d. cc (d, running);
    }

Step-IsSound : {ch ch' : Channel} → Step ch ch' → IsSound ch → IsSound ch'
unfolding close
Step-IsSound {ch} (produce f open_source) h = produce-IsSound ch f open_source h
Step-IsSound {ch} source_ends h = record {
  below = h.below;
  ordered = h.ordered;
  counted_in = h.counted_in;
  counted_out = h.counted_out;
  conserved = h.conserved;
  awake = λ w a. cc a;
  done = λ d. ((h.done d).0, refl);
}
Step-IsSound {ch} (consume running can) h = consume-IsSound ch running h

Reach-IsSound : {ch ch' : Channel} → IsSound ch → Reach ch ch' → IsSound ch'
Reach-IsSound h here = h
Reach-IsSound h (next r s) = Step-IsSound s (Reach-IsSound h r)

module _ (max_lag recover warn : ℕ) {g : BacklogGuard}
    (made : new_guard max_lag recover warn ≡ some g) {ch : Channel}
    (run : Reach (opened g) ch) where
  -- For a guard that was made, however the tasks interleave, the frames that came out, with those
  -- still buffered behind them, are a subsequence of the frames that went in, and every frame that
  -- is missing was counted.
  pub channel-accounts :
      Within (ch.out ++ ch.guard.buffer) ch.pushed
      × (length ch.pushed ≡ length ch.out + length ch.guard.buffer + ch.guard.stats.frames_dropped)
  channel-accounts =
      let h = Reach-IsSound (opened-IsSound g max_lag recover warn made) run in
      (h.ordered, omega (arith, h.counted_in, h.counted_out, h.conserved))

  -- For a guard that was made no wake-up is lost, however the tasks interleave: a consumer that
  -- waits for an event that is not set has no frame to take, and the source has not ended.
  pub channel-awake :
      ch.waiting ≡ true
      → ch.guard.arrived ≡ false
      → (ch.guard.buffer ≡ []) × (ch.guard.closed ≡ false)
  channel-awake = (Reach-IsSound (opened-IsSound g max_lag recover warn made) run).awake

  -- For a guard that was made, however the tasks interleave, when the consumer has finished the
  -- source has ended, and each frame that went in has come out, in order, or was counted as
  -- dropped.
  pub channel-finished :
      ch.finished ≡ true
      → (ch.guard.closed ≡ true)
        × Within ch.out ch.pushed
        × (length ch.pushed ≡ length ch.out + ch.guard.stats.frames_dropped)
  channel-finished d =
      let h = Reach-IsSound (opened-IsSound g max_lag recover warn made) run in
      let (empty, over) = h.done d in
      (
        over,
        subst (λ s. Within s ch.pushed) (ap (λ b. ch.out ++ b) empty ∙ append-nil ch.out) h.ordered,
        omega (
          arith,
          h.counted_in,
          h.counted_out,
          h.conserved,
          ap (λ (b : List AudioFrame). length b) empty,
        ),
      )
