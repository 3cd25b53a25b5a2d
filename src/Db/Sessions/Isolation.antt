-- ===== src/Db/Sessions/Isolation.antt =====
-- Tenants that share a schema: what the calls of one store leave of another tenant's rows.
use lad_translate.Db.Sessions.{
  SessionRow, ListenerRow, SessionStore, Tables, settle, with_status, live, is_session, is_open,
  session_row, tenant_id, get_session,
}
use lad_translate.Db.Sessions.Live.{is_listed, is_newer, live_sessions}
use lad_translate.Db.Sessions.Listeners.{
  new_listener, is_present, gone, is_active, active_listeners, count_by_language,
}
use lad_translate.Db.Sessions.Requests.{Request, apply, run}
use lad_translate.Db.Sessions.Rows.{Change, same, inserted, went_live, closed, apply-Change}
use lad_translate.Db.Sessions.Attendance.{Movement, none_moved, came, went, apply-Movement}
use lad_translate.Db.Ordering.{order_by}
use lad_translate.Db.Sql.{
  first, select, update_where, select-update_where, select-append, select-select, first-select,
}
use lad_translate.Common.Text.{Text, text_eq, text_eq→eq}
use lad_translate.Common.{
  Bool-cases, All, ℕ, ◌≡◌, refl, sym, ap, ◌∙◌, ◌≢◌, inl, inr, Bool, true, false, List, [], ◌∷◌,
  append-nil, arith,
}

abbrev owns_session : Text → SessionRow → Bool
owns_session tenant row = text_eq row.tenant_id tenant

abbrev owns_listener : Text → ListenerRow → Bool
owns_listener tenant row = text_eq row.tenant_id tenant

module _ (tenant : Text) where
  -- An update within the rows of another tenant.
  foreign_session :
      (other : Text) (q : SessionRow → Bool) (f : SessionRow → SessionRow)
      → other ≢ tenant
      → ((x : SessionRow) → q x ≡ true → x.tenant_id ≡ other)
      → ((x : SessionRow) → (f x).tenant_id ≡ x.tenant_id)
      → (xs : List SessionRow)
      → select (owns_session tenant) (update_where q f xs) ≡ select (owns_session tenant) xs
  foreign_session other q f apart within keeps =
      select-update_where (owns_session tenant) q f
        (λ x. elim (Bool-cases (q x)) [ inl e ↦ rw (e, keeps x) refl | inr e ↦ rw e refl ])
        (λ x own. elim (Bool-cases (q x)) [
          | inl e ↦ absurd (apart (sym (within x e) ∙ text_eq→eq _ _ own))
          | inr e ↦ rw e refl
        ])

  not_owned : (other : Text) → other ≢ tenant → text_eq other tenant ≡ false
  not_owned other apart = elim (Bool-cases (text_eq other tenant)) [
    | inl e ↦ absurd (apart (text_eq→eq _ _ e))
    | inr e ↦ e
  ]

  Change-foreign :
      (store : SessionStore) (xs ys : List SessionRow)
      → tenant_id store ≢ tenant
      → Change store xs ys
      → select (owns_session tenant) ys ≡ select (owns_session tenant) xs
  unfolding session_row settle select
  Change-foreign store xs ys apart (same e) = rw e refl
  Change-foreign store xs ys apart (inserted config credible now u n e) =
      rw
        (
          e,
          select-append (owns_session tenant) xs (session_row store config credible now ∷ []),
          not_owned (tenant_id store) apart,
        )
        (append-nil _)
  Change-foreign store xs ys apart (went_live sid e) = rw e (
      foreign_session (tenant_id store) (is_session (tenant_id store) sid) (with_status live) apart
        (λ x h. text_eq→eq _ _ (ground (arith, h))) (λ x. refl) xs)
  Change-foreign store xs ys apart (closed sid reason now row f l e) = rw e (
      foreign_session (tenant_id store) (is_open (tenant_id store) sid) (settle reason now) apart
        (λ x h. text_eq→eq _ _ (ground (arith, h))) (λ x. refl) xs)

  foreign_listener :
      (store : SessionStore) (lid : Text) (now : ℕ)
      → tenant_id store ≢ tenant
      → (xs : List ListenerRow)
      → select
          (owns_listener tenant)
          (update_where (is_present (tenant_id store) lid) (gone now) xs)
        ≡ select (owns_listener tenant) xs
  foreign_listener store lid now apart =
      let q = is_present (tenant_id store) lid in
      select-update_where (owns_listener tenant) q (gone now)
        (λ x. elim (Bool-cases (q x)) [ inl e ↦ rw e refl | inr e ↦ rw e refl ])
        (λ x own. elim (Bool-cases (q x)) [
          | inl e ↦
              let h : x.tenant_id ≡ tenant_id store = text_eq→eq _ _ (ground (arith, e)) in
              absurd (apart (sym h ∙ text_eq→eq _ _ own))
          | inr e ↦ rw e refl
        ])

  Movement-foreign :
      (store : SessionStore) (xs ys : List ListenerRow)
      → tenant_id store ≢ tenant
      → Movement store xs ys
      → select (owns_listener tenant) ys ≡ select (owns_listener tenant) xs
  unfolding select
  Movement-foreign store xs ys apart (none_moved e) = rw e refl
  Movement-foreign store xs ys apart (came lid sid language now e) =
      rw
        (
          e,
          select-append (owns_listener tenant) xs (new_listener store lid sid language now ∷ []),
          not_owned (tenant_id store) apart,
        )
        (append-nil _)
  Movement-foreign store xs ys apart (went lid now e) =
      rw e (foreign_listener store lid now apart xs)

  -- What a tenant's rows are, in the tables that it shares.
  record IsSameFor (t u : Tables) : Type 0 where
    sessions : select (owns_session tenant) u.sessions ≡ select (owns_session tenant) t.sessions
    listeners :
        select (owns_listener tenant) u.listeners ≡ select (owns_listener tenant) t.listeners

  abbrev IsForeign : SessionStore × Request → Type 0
  IsForeign call = tenant_id call.0 ≢ tenant

  run-IsSameFor :
      (rs : List (SessionStore × Request)) (t : Tables) → All IsForeign rs → IsSameFor t (run rs t)
  unfolding run
  run-IsSameFor [] t h = record { sessions = refl; listeners = refl }
  run-IsSameFor ((store, r) ∷ rs) t h =
      let later = run-IsSameFor rs (apply store r t) h.1 in
      record {
        sessions = later.sessions ∙ Change-foreign store t.sessions _ h.0 (apply-Change store t r);
        listeners =
            later.listeners ∙ Movement-foreign store t.listeners _ h.0 (apply-Movement store t r);
      }

-- Calls of other tenants' stores on the same schema change nothing of what a store reads of its
-- sessions and its listeners.
pub run-isolated :
    (store : SessionStore) (rs : List (SessionStore × Request)) (t : Tables) (sid : Text)
    → All (λ call. tenant_id call.0 ≢ tenant_id store) rs
    → let later = run rs t in
      (get_session store sid later ≡ get_session store sid t)
      × (live_sessions store later ≡ live_sessions store t)
      × (active_listeners store sid later ≡ active_listeners store sid t)
unfolding get_session live_sessions active_listeners
run-isolated store rs t sid h =
    let me = tenant_id store in
    let s = run-IsSameFor me rs t h in
    let u = (run rs t).sessions in
    let v = (run rs t).listeners in
    (
      sym (first-select (is_session me sid) (owns_session me) (λ x e. ground (arith, e)) u)
          ∙ ap (first (is_session me sid)) s.sessions
          ∙ first-select (is_session me sid) (owns_session me) (λ x e. ground (arith, e))
              t.sessions,
      ap (order_by is_newer) (
          sym (select-select (is_listed me) (owns_session me) (λ x e. ground (arith, e)) u)
          ∙ ap (select (is_listed me)) s.sessions
          ∙ select-select (is_listed me) (owns_session me) (λ x e. ground (arith, e)) t.sessions),
      ap count_by_language (
          sym (select-select (is_active me sid) (owns_listener me) (λ x e. ground (arith, e)) v)
          ∙ ap (select (is_active me sid)) s.listeners
          ∙ select-select (is_active me sid) (owns_listener me) (λ x e. ground (arith, e))
              t.listeners),
    )
