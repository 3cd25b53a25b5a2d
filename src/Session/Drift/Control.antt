-- ===== src/Session/Drift/Control.antt =====
-- The controller's state: which policy a language has, what each call changes, and for whom.
use lad_translate.Common.{
  leb, if◌then◌else◌, Option-cases, ◌≤◌, ◌≡◌, refl, sym, ap, ◌∙◌, subst, ◌≢◌, inl, inr, true,
  Option, none, some, List, [], ◌∷◌, arith,
}
use lad_translate.Common.Text.{Text, text_eq, text_eq_iff, member}
use lad_translate.Common.Int.{ℤ, pos_part}
use lad_translate.Common.Dict
use lad_translate.Common.Dict.{Dict, text_key, lookup-insert}
use lad_translate.Session.Drift.{
  counted, DriftPolicy, DriftController, LanguageDrift, new_drift, or_else, resolve, resolve_all,
  new_states, new_controller, policy_for, observe, observed, on_state, speed_at, speed_for,
  should_skip, note_skipped, skipped, language_policies,
}
use lad_translate.Session.Drift.Speed.{IsValid, speed-full}

lookup-resolve_all :
    (overrides : Dict Text DriftPolicy) (default : DriftPolicy) (ls : List Text)
    (d : Dict Text DriftPolicy) (l : Text)
    → Dict.lookup l (resolve_all overrides default ls d)
      ≡ (if member l ls then some (resolve overrides default l) else Dict.lookup l d)
unfolding resolve_all
lookup-resolve_all overrides default [] d l = refl
lookup-resolve_all overrides default (k ∷ ls) d l = ground (
  arith,
  lookup-resolve_all overrides default ls (Dict.insert k (resolve overrides default k) d) l,
  lookup-insert k l (resolve overrides default k) d,
  text_eq_iff k l,
  text_eq_iff l k,
)

lookup-new_states :
    (ls : List Text) (d : Dict Text LanguageDrift) (l : Text)
    → Dict.lookup l (new_states ls d)
      ≡ (if member l ls then some (new_drift l) else Dict.lookup l d)
unfolding new_states
lookup-new_states [] d l = refl
lookup-new_states (k ∷ ls) d l = ground (
  arith,
  lookup-new_states ls (Dict.insert k (new_drift k) d) l,
  lookup-insert k l (new_drift k) d,
  text_eq_iff k l,
  text_eq_iff l k,
)

-- A language that the controller was made for has its explicit policy, or else its measured one, or
-- else the fallback, and starts with an empty queue; any other has the fallback and no state.
pub new_controller-resolves :
    (ls : List Text) (default : DriftPolicy) (overrides : Dict Text DriftPolicy) (l : Text)
    → (policy_for (new_controller ls (some default) (some overrides)) l ≡ (
        if member l ls
        then or_else (Dict.lookup l overrides) (or_else (Dict.lookup l language_policies) default)
        else default))
      × (Dict.lookup l (new_controller ls (some default) (some overrides)).state
          ≡ (if member l ls then some (new_drift l) else none))
unfolding new_controller policy_for Dict.lookup
new_controller-resolves ls default overrides l =
    (ground (arith, lookup-resolve_all overrides default ls [] l), lookup-new_states ls [] l)

abbrev map_option : (LanguageDrift → LanguageDrift) → Option LanguageDrift → Option LanguageDrift
map_option f none = none
map_option f (some s) = some (f s)

-- What a method that changes the state of `m` leaves for `l`.
lookup-on_state :
    (f : LanguageDrift → LanguageDrift) (c : DriftController) (m l : Text)
    → Dict.lookup l (on_state f c m).state
      ≡ (if text_eq m l then map_option f (Dict.lookup l c.state) else Dict.lookup l c.state)
lookup-on_state f c m l = elim (Option-cases (Dict.lookup m c.state)) [
  | inl e ↦ ground (arith, text_eq_iff m l)
  | inr (s, e) ↦ ground (arith, lookup-insert m l (f s) c.state, text_eq_iff m l)
]

policies-on_state :
    (f : LanguageDrift → LanguageDrift) (c : DriftController) (m l : Text)
    → policy_for (on_state f c m) l ≡ policy_for c l
unfolding policy_for
policies-on_state f c m l = ground arith

speed_for-state :
    (c : DriftController) (l : Text) → (speed_for c l).0 ≡ on_state (counted (policy_for c l)) c l
unfolding speed_for
speed_for-state c l = ground arith

-- The calls that change a controller.
pub data Call : Type 0 where
  observes : Text → ℤ → Call
  speeds : Text → Call
  skips : Text → ℤ → Call

unfoldable pub call : DriftController → Call → DriftController
call c (observes l depth) = observe c l depth
call c (speeds l) = (speed_for c l).0
call c (skips l seconds) = note_skipped c l seconds

abbrev pub language_of : Call → Text
language_of (observes l depth) = l
language_of (speeds l) = l
language_of (skips l seconds) = l

-- A call about one language leaves the state of every other language, and all policies, alone.
pub call-others :
    (c : DriftController) (e : Call) (l : Text)
    → language_of e ≢ l
    → (Dict.lookup l (call c e).state ≡ Dict.lookup l c.state)
      × (policy_for (call c e) l ≡ policy_for c l)
unfolding call observe note_skipped
call-others c (observes m depth) l ne = (
  ground (arith, lookup-on_state (observed (pos_part depth)) c m l, text_eq_iff m l),
  policies-on_state (observed (pos_part depth)) c m l,
)
call-others c (speeds m) l ne = (
  ground (
    arith,
    lookup-on_state (counted (policy_for c m)) c m l,
    text_eq_iff m l,
    speed_for-state c m,
  ),
  ap (λ (d : DriftController). policy_for d l) (speed_for-state c m)
      ∙ policies-on_state (counted (policy_for c m)) c m l,
)
call-others c (skips m seconds) l ne = (
  ground (arith, lookup-on_state (skipped seconds) c m l, text_eq_iff m l),
  policies-on_state (skipped seconds) c m l,
)

-- After an observation of a language that the controller tracks, the phrase is skipped exactly when
-- the queue has reached the skip threshold of its policy, and the speed is that of the queue.
pub observe-decides :
    (c : DriftController) (l : Text) (depth : ℤ) (s : LanguageDrift)
    → Dict.lookup l c.state ≡ some s
    → (should_skip (observe c l depth) l ≡ leb (policy_for c l).skip_at_s (pos_part depth))
      × ((speed_for (observe c l depth) l).1 ≡ speed_at (policy_for c l) (pos_part depth))
unfolding observe should_skip speed_for
observe-decides c l depth s e =
    let now = lookup-on_state (observed (pos_part depth)) c l l in
    let same = policies-on_state (observed (pos_part depth)) c l l in
    let tracked : Dict.lookup l (on_state (observed (pos_part depth)) c l).state
        ≡ some (observed (pos_part depth) s) =
      ground (arith, now, text_eq_iff l l) in
    (ground (arith, tracked, same), ground (arith, tracked, same))

-- A phrase is skipped only when the speed has already reached the greatest one of a valid policy.
pub should_skip-full :
    (c : DriftController) (l : Text)
    → IsValid (policy_for c l)
    → should_skip c l ≡ true
    → (speed_for c l).1 ≡ (policy_for c l).max_speed
unfolding should_skip speed_for
should_skip-full c l v e = elim (Option-cases (Dict.lookup l c.state)) [
  | inl untracked ↦ absurd (ground arith)
  | inr (s, tracked) ↦
      let reached : (policy_for c l).skip_at_s ≤ s.queue_depth_s = ground arith in
      ground (arith, tracked, speed-full (policy_for c l) v s.queue_depth_s reached)
]

-- No language has a queue that is longer than its recorded peak.
pub record IsTracked (c : DriftController) : Type 0 where
  pub peaks :
      (l : Text) (s : LanguageDrift)
      → Dict.lookup l c.state ≡ some s
      → s.queue_depth_s ≤ s.peak_depth_s

on_state-IsTracked :
    (f : LanguageDrift → LanguageDrift) (c : DriftController) (m : Text)
    → ((s : LanguageDrift)
        → s.queue_depth_s ≤ s.peak_depth_s
        → (f s).queue_depth_s ≤ (f s).peak_depth_s)
    → IsTracked c
    → IsTracked (on_state f c m)
on_state-IsTracked f c m keeps h = record {
  peaks = λ l s e. elim (Option-cases (Dict.lookup l c.state)) [
    | inl untracked ↦ absurd (ground (arith, e, lookup-on_state f c m l))
    | inr (t, tracked) ↦
        ground
          (arith, e, lookup-on_state f c m l, h.peaks l t tracked, keeps t (h.peaks l t tracked))
  ];
}

call-IsTracked : (c : DriftController) (e : Call) → IsTracked c → IsTracked (call c e)
unfolding call observe note_skipped
call-IsTracked c (observes m depth) h =
    on_state-IsTracked (observed (pos_part depth)) c m (λ s k. omega arith) h
call-IsTracked c (speeds m) h =
    subst IsTracked (sym (speed_for-state c m))
      (on_state-IsTracked (counted (policy_for c m)) c m (λ s k. ground arith) h)
call-IsTracked c (skips m seconds) h = on_state-IsTracked (skipped seconds) c m (λ s k. k) h

unfoldable pub calls : DriftController → List Call → DriftController
unfolding call
calls c [] = c
calls c (e ∷ es) = calls (call c e) es

calls-IsTracked : (c : DriftController) (es : List Call) → IsTracked c → IsTracked (calls c es)
unfolding calls
calls-IsTracked c [] h = h
calls-IsTracked c (e ∷ es) h = calls-IsTracked (call c e) es (call-IsTracked c e h)

new_controller-IsTracked :
    (ls : List Text) (default : Option DriftPolicy) (overrides : Option (Dict Text DriftPolicy))
    → IsTracked (new_controller ls default overrides)
unfolding new_controller Dict.lookup
new_controller-IsTracked ls default overrides = record {
  peaks = λ l s e. ground (arith, e, lookup-new_states ls [] l);
}

-- Whatever calls are made of a new controller, no language has a queue above its recorded peak.
pub calls-peaks :
    (ls : List Text) (default : Option DriftPolicy) (overrides : Option (Dict Text DriftPolicy))
    → (es : List Call) (l : Text) (s : LanguageDrift)
    → Dict.lookup l (calls (new_controller ls default overrides) es).state ≡ some s
    → s.queue_depth_s ≤ s.peak_depth_s
calls-peaks ls default overrides es =
    (calls-IsTracked (new_controller ls default overrides) es
      (new_controller-IsTracked ls default overrides)).peaks
