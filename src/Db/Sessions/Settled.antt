-- ===== src/Db/Sessions/Settled.antt =====
-- A session is settled once: no later call of any store bills it again or changes the bill.
use lad_translate.Db.Sessions.{
  live, SessionRow, SessionStore, Tables, is_none, settle, with_status, has_id, is_session, is_open,
  session_row, tenant_id,
}
use lad_translate.Db.Sessions.Requests.{Request, apply, run}
use lad_translate.Db.Sessions.Rows.{Change, same, inserted, went_live, closed, apply-Change}
use lad_translate.Db.Sql.{first, updated, first-update, first-append, first-none, first-closed}
use lad_translate.Config.{SessionConfig}
use lad_translate.Common.Text.{Text, text_eq→eq}
use lad_translate.Common.{
  Bool-cases, ℕ, ◌≡◌, refl, subst, inl, inr, Bool, true, false, Option, none, some, List, [], ◌∷◌,
  arith,
}

module _ (tenant sid : Text) (seconds count : ℕ) where
  abbrev pub HasBill : SessionRow → Type 0
  HasBill row =
      (is_none row.ended_at ≡ false)
      × (row.billed_seconds ≡ some seconds)
      × (row.billed_language_count ≡ some count)

  -- The session's row holds this bill, and no open row is left for it.
  pub record IsSettled (xs : List SessionRow) : Type 0 where
    pub row : SessionRow
    pub found : first (is_session tenant sid) xs ≡ some row
    pub billed_for : HasBill row
    pub none_open : first (is_open tenant sid) xs ≡ none

  -- Rows that a test selects hold no open session of another test.
  status_kept :
      (q : SessionRow → Bool) (x : SessionRow)
      → is_session tenant sid (updated q (with_status live) x) ≡ is_session tenant sid x
  status_kept q x = elim (Bool-cases (q x)) [ inl e ↦ rw e refl | inr e ↦ rw e refl ]

  open_kept :
      (q : SessionRow → Bool) (x : SessionRow)
      → is_open tenant sid x ≡ false
      → is_open tenant sid (updated q (with_status live) x) ≡ false
  open_kept q x h = elim (Bool-cases (q x)) [ inl e ↦ rw e h | inr e ↦ rw e h ]

  pub settle_kept :
      (q : SessionRow → Bool) (reason : Option Text) (now : ℕ) (x : SessionRow)
      → is_session tenant sid (updated q (settle reason now) x) ≡ is_session tenant sid x
  unfolding settle
  settle_kept q reason now x = elim (Bool-cases (q x)) [ inl e ↦ rw e refl | inr e ↦ rw e refl ]

  pub settle_closes :
      (reason : Option Text) (now : ℕ) (x : SessionRow)
      → is_open tenant sid (settle reason now x) ≡ false
  unfolding settle
  settle_closes reason now x = ground arith

  closed_kept :
      (q : SessionRow → Bool) (reason : Option Text) (now : ℕ) (x : SessionRow)
      → is_open tenant sid x ≡ false
      → is_open tenant sid (updated q (settle reason now) x) ≡ false
  closed_kept q reason now x h = elim (Bool-cases (q x)) [
    | inl e ↦ rw e (settle_closes reason now x)
    | inr e ↦ rw e h
  ]

  same_id : (x : SessionRow) → is_session tenant sid x ≡ true → has_id sid x ≡ true
  same_id x h = ground (arith, h)

  bill_kept :
      (q : SessionRow → Bool) (x : SessionRow)
      → HasBill x
      → HasBill (updated q (with_status live) x)
  bill_kept q x h = elim (Bool-cases (q x)) [ inl e ↦ rw e h | inr e ↦ rw e h ]

  not_again :
      (other id : Text) (reason : Option Text) (now : ℕ) (x : SessionRow)
      → HasBill x
      → HasBill (updated (is_open other id) (settle reason now) x)
  not_again other id reason now x h = elim (Bool-cases (is_open other id x)) [
    | inl e ↦ absurd (ground (arith, e, h.0))
    | inr e ↦ rw e h
  ]

  -- A new session has another id.
  not_new :
      (store : SessionStore) (config : SessionConfig) (credible : Bool) (now : ℕ)
      → (xs : List SessionRow) → first (has_id config.session_id) xs ≡ none
      → IsSettled xs
      → is_open tenant sid (session_row store config credible now) ≡ false
  unfolding session_row
  not_new store config credible now xs u s =
      elim (Bool-cases (is_open tenant sid (session_row store config credible now))) [
        | inr e ↦ e
        | inl e ↦
            let same : config.session_id ≡ sid = text_eq→eq _ _ (ground (arith, e)) in
            absurd (
              cc (
                s.found,
                first-none (is_session tenant sid) (has_id sid) same_id xs
                    (subst (λ i. first (has_id i) xs ≡ none) same u),
              ))
      ]

  Change-IsSettled :
      (store : SessionStore) (xs ys : List SessionRow)
      → Change store xs ys
      → IsSettled xs
      → IsSettled ys
  unfolding first
  Change-IsSettled store xs ys (same e) s = rw e s
  Change-IsSettled store xs ys (inserted config credible now u n e) s = rw e (record {
    row = s.row;
    found = rw (first-append (is_session tenant sid) xs _, s.found) refl;
    billed_for = s.billed_for;
    none_open =
        rw
          (
            first-append (is_open tenant sid) xs _,
            s.none_open,
            not_new store config credible now xs u s,
          )
          refl;
  })
  Change-IsSettled store xs ys (went_live other e) s =
      let q = is_session (tenant_id store) other in
      rw e (record {
        row = updated q (with_status live) s.row;
        found =
            rw
              (
                first-update (is_session tenant sid) q (with_status live) (status_kept q) xs,
                s.found,
              )
              refl;
        billed_for = bill_kept q s.row s.billed_for;
        none_open =
            first-closed (is_open tenant sid) q (with_status live) (open_kept q) xs s.none_open;
      })
  Change-IsSettled store xs ys (closed other reason now x f l e) s =
      let q = is_open (tenant_id store) other in
      rw e (record {
        row = updated q (settle reason now) s.row;
        found =
            rw
              (
                first-update (is_session tenant sid) q (settle reason now)
                    (settle_kept q reason now) xs,
                s.found,
              )
              refl;
        billed_for = not_again (tenant_id store) other reason now s.row s.billed_for;
        none_open =
            first-closed (is_open tenant sid) q (settle reason now) (closed_kept q reason now) xs
              s.none_open;
      })

  pub run-IsSettled :
      (rs : List (SessionStore × Request)) (t : Tables)
      → IsSettled t.sessions
      → IsSettled (run rs t).sessions
  unfolding run
  run-IsSettled [] t s = s
  run-IsSettled ((store, r) ∷ rs) t s =
      run-IsSettled rs (apply store r t)
        (Change-IsSettled store t.sessions _ (apply-Change store t r) s)
