-- ===== src/Examples/Queues.antt =====
-- The theorems about a session's queues at a few frames and policies.
use lad_translate.Common.{length, ℕ, ◌+◌, ◌≡◌, refl, inl, true, false, some, [], ◌∷◌, ◌++◌, arith}
use lad_translate.Common.Text.{Text, codes}
use lad_translate.Common.Dict
use lad_translate.Common.Dict.{Dict, text_key}
use lad_translate.Common.Sequence.{Within}
use lad_translate.Adapters.Events.{AudioFrame}
use lad_translate.Session.Backlog.{BacklogGuard, new_guard, push, empty_stats, close, drain}
use lad_translate.Session.Backlog.Channel.{
  Channel, opened, Reach, here, next, produce, source_ends, consume, channel-accounts,
  channel-awake,
}
use lad_translate.Session.Drift.{
  default_policy_values, DriftController, new_drift, policy_for, should_skip,
}
use lad_translate.Session.Drift.Speed.{IsValid}

abbrev frame_at : ℕ → AudioFrame
frame_at t = record { pcm = 0 ∷ 0 ∷ []; sample_rate = 2; t_audio = t; t_wall = t }

abbrev guard : BacklogGuard
guard = record {
  max_lag_s = 8;
  recover_to_s = 2;
  warn_lag_s = 3;
  stats = empty_stats;
  buffer = [];
  arrived = false;
  closed = false;
  newest_audio = 0;
  warned = false;
}

guard_made : new_guard 8 2 3 ≡ some guard
unfolding new_guard
guard_made = refl

-- One frame has arrived and waits in the buffer.
abbrev behind : Channel
behind = record (opened guard) { guard = push guard (frame_at 0); pushed = frame_at 0 ∷ [] }

behind_reached : Reach (opened guard) behind
behind_reached = next here (produce (frame_at 0) refl)

channel-accounts_example :
    Within (behind.out ++ behind.guard.buffer) behind.pushed
    × (length behind.pushed
        ≡ length behind.out + length behind.guard.buffer + behind.guard.stats.frames_dropped)
channel-accounts_example = channel-accounts 8 2 3 guard_made behind_reached

-- The consumer runs before anything has come.
abbrev idle : Channel
idle = record (opened guard) { waiting = true }

idle_reached : Reach (opened guard) idle
unfolding drain
idle_reached = next here (consume refl (inl refl))

channel-awake_example : (idle.guard.buffer ≡ []) × (idle.guard.closed ≡ false)
channel-awake_example = channel-awake 8 2 3 guard_made idle_reached refl refl

-- The source ends at once, and the consumer sees it.
abbrev over : Channel
over = record (opened guard) {
  guard = record guard { closed = true; arrived = true };
  finished = true;
}

over_reached : Reach (opened guard) over
unfolding drain close
over_reached = next (next here source_ends) (consume refl (inl refl))

abbrev waiting_guard : BacklogGuard
waiting_guard = record guard { buffer = frame_at 0 ∷ frame_at 1 ∷ []; newest_audio = 1 }

default-IsValid : IsValid default_policy_values
default-IsValid = record { comfortable = omega arith; ramp = omega arith; fastest = omega arith }

abbrev french : Text
french = codes "fr"

abbrev controller : DriftController
controller = record {
  default_policy = default_policy_values;
  policies = (french, default_policy_values) ∷ [];
  state =
      (
        french,
        record (new_drift french) { queue_depth_s = 7_000_000_000; peak_depth_s = 7_000_000_000 },
      )
      ∷ [];
}

controller_policy : policy_for controller french ≡ default_policy_values
unfolding policy_for Dict.lookup
controller_policy = refl

controller_skips : should_skip controller french ≡ true
unfolding should_skip Dict.lookup
controller_skips = refl
