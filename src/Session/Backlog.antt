-- ===== src/Session/Backlog.antt =====
-- session/backpressure.py: `BacklogGuard`, a buffer between the room and the STT backend that drops
pub mod Shedding
pub mod Channel
-- its oldest frames when the backend falls behind.
use lad_translate.Common.{
  ltb, leb, ◌==◌, if◌then◌else◌, length, ℕ, ◌+◌, ◌-◌, ◌*◌, ◌/◌, max, Bool, true, false, not, ◌&&◌,
  Option, none, some, List, [], ◌∷◌, ◌++◌,
}
use lad_translate.Adapters.Events.{AudioFrame, second}

-- `len(self.pcm) / 2 / self.sample_rate` in nanoseconds, rounded down.
unfoldable pub duration : AudioFrame → ℕ
duration f = length f.pcm * second / (2 * f.sample_rate)

pub record BacklogStats : Type 0 where
  pub frames_in : ℕ
  pub frames_out : ℕ
  pub frames_dropped : ℕ
  pub seconds_dropped : ℕ
  pub shed_events : ℕ
  pub peak_lag_s : ℕ

abbrev pub empty_stats : BacklogStats
empty_stats = record {
  frames_in = 0;
  frames_out = 0;
  frames_dropped = 0;
  seconds_dropped = 0;
  shed_events = 0;
  peak_lag_s = 0;
}

-- `arrived` is the asyncio event.
pub record BacklogGuard : Type 0 where
  pub max_lag_s : ℕ
  pub recover_to_s : ℕ
  pub warn_lag_s : ℕ
  pub stats : BacklogStats
  pub buffer : List AudioFrame
  pub arrived : Bool
  pub closed : Bool
  pub newest_audio : ℕ
  pub warned : Bool

-- `none` is the ValueError of the constructor.
unfoldable pub new_guard : ℕ → ℕ → ℕ → Option BacklogGuard
new_guard max_lag_s recover_to_s warn_lag_s =
    if leb max_lag_s recover_to_s
    then none
    else some (record {
      max_lag_s = max_lag_s;
      recover_to_s = recover_to_s;
      warn_lag_s = warn_lag_s;
      stats = empty_stats;
      buffer = [];
      arrived = false;
      closed = false;
      newest_audio = 0;
      warned = false;
    })

-- `max(0.0, newest - oldest)` is the subtraction of ℕ, which stops at 0.
unfoldable pub lag_of : ℕ → List AudioFrame → ℕ
lag_of newest [] = 0
lag_of newest (f ∷ _) = newest - f.t_audio

unfoldable pub lag_seconds : BacklogGuard → ℕ
unfolding lag_of
lag_seconds g = lag_of g.newest_audio g.buffer

-- The frames that are left, how many were dropped, and how long they were.
pub record Shed : Type 0 where
  pub left : List AudioFrame
  pub dropped : ℕ
  pub seconds : ℕ

-- The loop `while len(self._buffer) > 1 and self.lag_seconds > self.recover_to_s`.
unfoldable pub shed_loop : ℕ → ℕ → List AudioFrame → ℕ → ℕ → Shed
unfolding duration lag_of
shed_loop newest recover [] dropped seconds = record {
  left = [];
  dropped = dropped;
  seconds = seconds;
}
shed_loop newest recover (f ∷ []) dropped seconds = record {
  left = f ∷ [];
  dropped = dropped;
  seconds = seconds;
}
shed_loop newest recover (f ∷ (g ∷ fs)) dropped seconds =
    let rest = shed_loop newest recover (g ∷ fs) (dropped + 1) (seconds + duration f) in
    if ltb recover (lag_of newest (f ∷ (g ∷ fs)))
    then rest
    else record { left = f ∷ (g ∷ fs); dropped = dropped; seconds = seconds }

-- `_shed_if_behind` up to its test of `max_lag_s`: the peak, and the warning's latch.
unfoldable pub note_lag : BacklogGuard → BacklogGuard
unfolding lag_seconds
note_lag g =
    let lag = lag_seconds g in
    record g {
      stats = record g.stats { peak_lag_s = max g.stats.peak_lag_s lag };
      warned =
          (if leb g.warn_lag_s lag && not g.warned
            then true
            else if ltb lag g.warn_lag_s
            then false
            else g.warned);
    }

unfoldable pub count_shed : BacklogGuard → Shed → BacklogGuard
count_shed g s = if s.dropped == 0 then record g { buffer = s.left } else record g {
  buffer = s.left;
  stats = record g.stats {
    frames_dropped = g.stats.frames_dropped + s.dropped;
    seconds_dropped = g.stats.seconds_dropped + s.seconds;
    shed_events = g.stats.shed_events + 1;
  };
}

unfoldable pub shed_if_behind : BacklogGuard → BacklogGuard
unfolding note_lag shed_loop count_shed
shed_if_behind g =
    if ltb (lag_seconds g) g.max_lag_s
    then note_lag g
    else count_shed (note_lag g) (shed_loop g.newest_audio g.recover_to_s g.buffer 0 0)

-- `push` before it sheds.
unfoldable pub accept : BacklogGuard → AudioFrame → BacklogGuard
unfolding duration
accept g f = record g {
  stats = record g.stats { frames_in = g.stats.frames_in + 1 };
  newest_audio = f.t_audio + duration f;
  buffer = g.buffer ++ f ∷ [];
}

unfoldable pub push : BacklogGuard → AudioFrame → BacklogGuard
unfolding accept shed_if_behind
push g f = record (shed_if_behind (accept g f)) { arrived = true }

unfoldable pub close : BacklogGuard → BacklogGuard
close g = record g { closed = true; arrived = true }

-- `drain` from one suspension to the next: it yields a frame, returns, or waits for `arrived`.
pub data Drained : Type 0 where
  yields : AudioFrame → BacklogGuard → Drained
  returns : Drained
  waits : BacklogGuard → Drained

abbrev drain_from : BacklogGuard → List AudioFrame → Drained
drain_from g (f ∷ fs) =
    yields f
      (record g { buffer = fs; stats = record g.stats { frames_out = g.stats.frames_out + 1 } })
drain_from g [] = if g.closed then returns else waits (record g { arrived = false })

unfoldable pub drain : BacklogGuard → Drained
drain g = drain_from g g.buffer
