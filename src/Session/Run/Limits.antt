-- ===== src/Session/Run/Limits.antt =====
-- When the watchdog of session/pipeline.py ends a session.
use lad_translate.Config.{SessionLimits}
use lad_translate.Session.Run.{Reading, watchdog}
use lad_translate.Common.{
  leb, leb→le, leb-false→lt, Bool-cases, All, ℕ, ◌-◌, ◌*◌, ◌<◌, ◌≡◌, refl, ◌↔◌, inl, inr, Bool,
  ◌||◌, none, List, [], ◌∷◌, arith,
}

-- A session that is neither over its time nor idle for too long at a reading.
abbrev pub IsWithin : SessionLimits → ℕ → Reading → Type 0
IsWithin limits started_at r =
    (r.now - started_at < limits.max_duration_s) × (r.now - r.last_audio_at < limits.max_idle_s)

-- The watchdog lets a session go on exactly as long as it is within both limits at every reading.
pub watchdog_iff :
    (limits : SessionLimits) (started_at : ℕ) (warned : Bool) (rs : List Reading)
    → ((watchdog limits started_at warned rs).0 ≡ none) ↔ All (IsWithin limits started_at) rs
unfolding watchdog
watchdog_iff limits started_at warned [] = ((λ e. tt), λ h. refl)
watchdog_iff limits started_at warned (r ∷ rs) =
    elim (Bool-cases (leb limits.max_duration_s (r.now - started_at))) [
      | inl e ↦ rw e ((λ h. absurd (cc h)), λ h. absurd (omega (arith, leb→le _ _ e, h.0.0)))
      | inr e ↦ elim (Bool-cases (leb limits.max_idle_s (r.now - r.last_audio_at))) [
        | inl f ↦ rw (e, f) ((λ h. absurd (cc h)), λ h. absurd (omega (arith, leb→le _ _ f, h.0.1)))
        | inr f ↦
            let near : Bool =
              leb (limits.max_duration_s * limits.warn_at_fraction) ((r.now - started_at) * 1000) in
            let rest = watchdog_iff limits started_at (warned || near) rs in
            rw (e, f) ((λ h. ((leb-false→lt _ _ e, leb-false→lt _ _ f), rest.0 h)), λ h. rest.1 h.1)
      ]
    ]
