-- ===== src/Session/Backlog/Shedding.antt =====
-- What `push` leaves in the buffer: no more lag than allowed, and always the newest frame.
use lad_translate.Common.{
  ltb, ◌==◌, if◌then◌else◌, ltb→lt, ltb-false→le, ==_iff, Bool-cases, length, length-append, ℕ, ◌+◌,
  ◌-◌, ◌≤◌, ◌<◌, ◌≡◌, refl, sym, ap, subst, ◌⊎◌, inl, inr, Bool, true, false, List, [], ◌∷◌, ◌++◌,
  arith,
}
use lad_translate.Adapters.Events.{AudioFrame}
use lad_translate.Session.Backlog.{
  BacklogGuard, Shed, duration, lag_of, lag_seconds, shed_loop, note_lag, count_shed,
  shed_if_behind, accept, push,
}

-- What the loop does to a buffer: it takes frames off the front, counts them, stops at the newest
-- frame, and goes on while the lag is above `recover`.
record ShedsFrom (newest recover : ℕ) (fs : List AudioFrame) (n : ℕ) (s : Shed) : Type 0 where
  gone : List AudioFrame
  split : fs ≡ gone ++ s.left
  counted : s.dropped ≡ n + length gone
  some_left : 1 ≤ length fs → 1 ≤ length s.left
  settled : (lag_of newest s.left ≤ recover) ⊎ (length s.left ≤ 1)

shed_loop-ShedsFrom :
    (newest recover : ℕ) (fs : List AudioFrame) (n sec : ℕ)
    → ShedsFrom newest recover fs n (shed_loop newest recover fs n sec)
unfolding shed_loop
shed_loop-ShedsFrom newest recover [] n sec = record {
  gone = [];
  split = refl;
  counted = omega arith;
  some_left = λ h. h;
  settled = inr (omega arith);
}
shed_loop-ShedsFrom newest recover (f ∷ []) n sec = record {
  gone = [];
  split = refl;
  counted = omega arith;
  some_left = λ h. h;
  settled = inr (omega arith);
}
shed_loop-ShedsFrom newest recover (f ∷ (g ∷ fs)) n sec =
    elim (Bool-cases (ltb recover (newest - f.t_audio))) [
      | inl behind ↦
          rw behind
            (further (shed_loop-ShedsFrom newest recover (g ∷ fs) (n + 1) (sec + duration f)))
      | inr caught_up ↦ rw caught_up (record {
        gone = [];
        split = refl;
        counted = omega arith;
        some_left = λ h. h;
        settled = inl (ltb-false→le _ _ caught_up);
      })
    ]
  where
    further :
        {s : Shed}
        → ShedsFrom newest recover (g ∷ fs) (n + 1) s
        → ShedsFrom newest recover (f ∷ (g ∷ fs)) n s
    further r = record {
      gone = f ∷ r.gone;
      split = ap (λ t. f ∷ t) r.split;
      counted = omega (arith, r.counted);
      some_left = λ h. r.some_left (omega arith);
      settled = r.settled;
    }

-- What `_shed_if_behind` does to a guard.
pub record Sheds (g g' : BacklogGuard) : Type 0 where
  pub gone : List AudioFrame
  pub split : g.buffer ≡ gone ++ g'.buffer
  pub counted : g'.stats.frames_dropped ≡ g.stats.frames_dropped + length gone
  pub some_left : 1 ≤ length g.buffer → 1 ≤ length g'.buffer
  pub settled : (lag_seconds g' < g'.max_lag_s) ⊎ (length g'.buffer ≤ 1)
  pub same :
      (g'.max_lag_s ≡ g.max_lag_s)
      × (g'.recover_to_s ≡ g.recover_to_s)
      × (g'.newest_audio ≡ g.newest_audio)
      × (g'.stats.frames_in ≡ g.stats.frames_in)
      × (g'.stats.frames_out ≡ g.stats.frames_out)
      × (g'.closed ≡ g.closed)

-- `count_shed` by its test.
abbrev counted_shed : BacklogGuard → Shed → BacklogGuard
counted_shed g s = record g {
  buffer = s.left;
  stats = record g.stats {
    frames_dropped = g.stats.frames_dropped + s.dropped;
    seconds_dropped = g.stats.seconds_dropped + s.seconds;
    shed_events = g.stats.shed_events + 1;
  };
}

count_shed-zero :
    (g : BacklogGuard) (s : Shed)
    → (s.dropped == 0) ≡ true
    → count_shed g s ≡ record g { buffer = s.left }
unfolding count_shed
count_shed-zero g s e =
    ap (λ (b : Bool). if b then record g { buffer = s.left } else counted_shed g s) e

count_shed-some :
    (g : BacklogGuard) (s : Shed) → (s.dropped == 0) ≡ false → count_shed g s ≡ counted_shed g s
unfolding count_shed
count_shed-some g s e =
    ap (λ (b : Bool). if b then record g { buffer = s.left } else counted_shed g s) e

shed_if_behind-fine :
    (g : BacklogGuard) → ltb (lag_seconds g) g.max_lag_s ≡ true → shed_if_behind g ≡ note_lag g
unfolding shed_if_behind
shed_if_behind-fine g e =
    ap
      (λ (b : Bool).
        if b
        then note_lag g
        else count_shed (note_lag g) (shed_loop g.newest_audio g.recover_to_s g.buffer 0 0))
      e

module _ (g : BacklogGuard) where
  count_shed-Sheds :
      (s : Shed)
      → g.recover_to_s < g.max_lag_s
      → ShedsFrom g.newest_audio g.recover_to_s g.buffer 0 s
      → Sheds g (count_shed (note_lag g) s)
  unfolding count_shed note_lag lag_seconds
  count_shed-Sheds s below r = elim (Bool-cases (s.dropped == 0)) [
    | inl e ↦
        let nothing : s.dropped ≡ 0 = (==_iff s.dropped 0).0 e in
        subst (Sheds g) (sym (count_shed-zero (note_lag g) s e)) (record {
          gone = r.gone;
          split = r.split;
          counted = omega (arith, r.counted);
          some_left = r.some_left;
          settled = settles r.settled;
          same = (refl, refl, refl, refl, refl, refl);
        })
    | inr e ↦ subst (Sheds g) (sym (count_shed-some (note_lag g) s e)) (record {
      gone = r.gone;
      split = r.split;
      counted = omega (arith, r.counted);
      some_left = r.some_left;
      settled = settles r.settled;
      same = (refl, refl, refl, refl, refl, refl);
    })
  ]
    where
      settles :
          (lag_of g.newest_audio s.left ≤ g.recover_to_s) ⊎ (length s.left ≤ 1)
          → (lag_of g.newest_audio s.left < g.max_lag_s) ⊎ (length s.left ≤ 1)
      settles (inl caught_up) = inl (omega arith)
      settles (inr single) = inr single

  -- Shedding drops frames from the front and counts each, keeps the newest frame, and leaves less
  -- lag than `max_lag_s`, or a single frame.
  pub shed_if_behind-Sheds : g.recover_to_s < g.max_lag_s → Sheds g (shed_if_behind g)
  unfolding shed_if_behind
  shed_if_behind-Sheds below = elim (Bool-cases (ltb (lag_seconds g) g.max_lag_s)) [
    | inl fine ↦ subst (Sheds g) (sym (shed_if_behind-fine g fine)) (record {
      gone = [];
      split = refl;
      counted = omega arith;
      some_left = λ h. h;
      settled = inl (ltb→lt _ _ fine);
      same = (refl, refl, refl, refl, refl, refl);
    })
    | inr behind ↦ rw behind (
        count_shed-Sheds (shed_loop g.newest_audio g.recover_to_s g.buffer 0 0) below
          (shed_loop-ShedsFrom g.newest_audio g.recover_to_s g.buffer 0 0))
  ]

module _ (g : BacklogGuard) (f : AudioFrame) where
  -- Where `recover_to_s` is below `max_lag_s`, after a push the lag is below `max_lag_s`, or a
  -- single frame is buffered; the frames that are left are the newest ones, one at least, and the
  -- counters have grown by what went in and by what was dropped.
  pub push-sheds :
      g.recover_to_s < g.max_lag_s
      → ((lag_seconds (push g f) < g.max_lag_s) ⊎ (length (push g f).buffer ≡ 1))
        × ((gone : List AudioFrame) × (g.buffer ++ f ∷ [] ≡ gone ++ (push g f).buffer)
            × ((push g f).stats.frames_dropped ≡ g.stats.frames_dropped + length gone))
        × (1 ≤ length (push g f).buffer)
        × ((push g f).stats.frames_in ≡ g.stats.frames_in + 1)
  unfolding push accept lag_seconds
  push-sheds below =
      let s = shed_if_behind-Sheds (accept g f) below in
      let (lag, _, _, ins, _, _) = s.same in
      let kept : 1 ≤ length (shed_if_behind (accept g f)).buffer =
        s.some_left (omega (arith, length-append {0} g.buffer (f ∷ []))) in
      (lags s.settled lag kept, (s.gone, s.split, s.counted), kept, ins)
    where
      lags :
          {lag most max_lag n : ℕ}
          → (lag < most) ⊎ (n ≤ 1)
          → most ≡ max_lag
          → 1 ≤ n
          → (lag < max_lag) ⊎ (n ≡ 1)
      lags (inl a) e p = inl (omega arith)
      lags (inr a) e p = inr (omega arith)
