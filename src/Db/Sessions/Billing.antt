-- ===== src/Db/Sessions/Billing.antt =====
-- What `end_session` of db/sessions.py charges, and that it charges it once.
use lad_translate.Db.Sessions.{
  SessionRow, SessionStore, Tables, settle, SessionBilling, language_seconds, is_session, is_open,
  tenant_id, billed, end_session, get_session, has_id, is_none, Answer, answer, raised, StoreError,
  not_found, out_of_range, check_violation, settled_or_not, settled,
}
use lad_translate.Db.Sessions.Requests.{Request, run}
use lad_translate.Db.Sessions.Consistent.{IsSound}
use lad_translate.Db.Sessions.Unique.{HasUniqueIds}
use lad_translate.Db.Sessions.Settled.{IsSettled, run-IsSettled, settle_kept, settle_closes}
use lad_translate.Db.Sql.{
  first-hit, first-skip, first, update_where, first-update, first-emptied, first-holds, first-none,
}
use lad_translate.Common.Text.{Text, text_eq, text_eq→eq}
use lad_translate.Common.{
  ltb, lt→ltb, le→ltb-false, ltb-false→le, Bool-cases, length, ℕ, ◌+◌, ◌-◌, ◌*◌, ◌^◌, ◌≤◌, ◌<◌, ◌≡◌,
  refl, sym, ap, ◌∙◌, subst, inl, inr, true, ◌&&◌, Option, none, some, List, [], ◌∷◌, arith,
}

unfoldable pub bill_of : SessionStore → Text → SessionRow → ℕ → SessionBilling
unfolding billed
bill_of store sid row now = record {
  session_id = sid;
  tenant_id = tenant_id store;
  seconds = billed row.started_at now;
  language_count = length row.target_languages;
}

abbrev answer_or : SessionBilling → Answer SessionBilling → SessionBilling
answer_or b (answer c) = c
answer_or b (raised e) = b

module _ (store : SessionStore) (sid : Text) (reason : Option Text) (now : ℕ) (t : Tables) where
  unfoldable pub after : Tables
  unfolding update_where settle
  after = record t {
    sessions = update_where (is_open (tenant_id store) sid) (settle reason now) t.sessions;
  }

  data Ending (out : Answer SessionBilling × Tables) : Type 0 where
    refused : (e : StoreError) → out ≡ (raised e, t) → Ending out
    charged :
        (row : SessionRow)
        → first (is_open (tenant_id store) sid) t.sessions ≡ some row
        → row.started_at ≤ now
        → out ≡ (answer (bill_of store sid row now), after)
        → Ending out

  end_session-Ending : Ending (end_session store sid reason now t)
  unfolding end_session settled after bill_of
  end_session-Ending = by_row (first (is_open (tenant_id store) sid) t.sessions) refl
    where
      by_row :
          (o : Option SessionRow)
          → first (is_open (tenant_id store) sid) t.sessions ≡ o
          → Ending (settled_or_not store sid reason now t o)
      by_row none e = refused not_found refl
      by_row (some row) e =
          elim (Bool-cases (
            ltb (billed row.started_at now) (2 ^ 31)
            && ltb (length row.target_languages) (2 ^ 15))) [
              | inr f ↦ refused out_of_range (rw f refl)
              | inl f ↦ elim (Bool-cases (ltb now row.started_at)) [
                | inl l ↦ refused check_violation (rw (f, l) refl)
                | inr l ↦ charged row e (ltb-false→le _ _ l) (rw (f, l) refl)
              ]
            ]

-- The one open row of an id is the row that the id finds.
open_found :
    (tenant sid : Text) (row : SessionRow) (xs : List SessionRow)
    → HasUniqueIds xs
    → first (is_open tenant sid) xs ≡ some row
    → first (is_session tenant sid) xs ≡ some row
unfolding first
open_found tenant sid row [] u e = absurd (cc e)
open_found tenant sid row (x ∷ xs) u e = elim (Bool-cases (is_session tenant sid x)) [
  | inr h ↦
      first-skip (is_session tenant sid) x xs h
      ∙ open_found tenant sid row xs u.1
          (sym (first-skip (is_open tenant sid) x xs (rw h refl)) ∙ e)
  | inl h ↦ elim (Bool-cases (is_none x.ended_at)) [
    | inl o ↦
        first-hit (is_session tenant sid) x xs h
        ∙ sym (first-hit (is_open tenant sid) x xs (rw (h, o) refl))
        ∙ e
    | inr o ↦ absurd (
        cc (
          sym (first-skip (is_open tenant sid) x xs (rw (h, o) refl)) ∙ e,
          first-none (is_open tenant sid) (has_id x.session_id) (same_id tenant sid x h) xs u.0,
        ))
  ]
]
  where
    same_id :
        (tenant sid : Text) (x : SessionRow)
        → is_session tenant sid x ≡ true
        → (y : SessionRow) → is_open tenant sid y ≡ true
        → has_id x.session_id y ≡ true
    same_id tenant sid x h y o =
        subst (λ i. text_eq y.session_id i ≡ true)
          (sym (text_eq→eq x.session_id sid (ground (arith, h)))) (ground (arith, o))

module _ (store : SessionStore) (sid : Text) (reason : Option Text) (now : ℕ) (t : Tables) where
  after_found :
      (row : SessionRow)
      → HasUniqueIds t.sessions
      → first (is_open (tenant_id store) sid) t.sessions ≡ some row
      → first (is_session (tenant_id store) sid) (after store sid reason now t).sessions
        ≡ some (settle reason now row)
  unfolding after
  after_found row u e =
      let q = is_open (tenant_id store) sid in
      rw
        (
          first-update (is_session (tenant_id store) sid) q (settle reason now)
              (settle_kept (tenant_id store) sid 0 0 q reason now) t.sessions,
          open_found (tenant_id store) sid row t.sessions u e,
          first-holds q t.sessions row e,
        )
        refl

  after-IsSettled :
      (row : SessionRow)
      → HasUniqueIds t.sessions
      → first (is_open (tenant_id store) sid) t.sessions ≡ some row
      → let b = bill_of store sid row now in
        IsSettled
          (tenant_id store)
          sid
          b.seconds
          b.language_count
          (after store sid reason now t).sessions
  unfolding after bill_of settle
  after-IsSettled row u e = record {
    row = settle reason now row;
    found = after_found row u e;
    billed_for = (refl, refl, refl);
    none_open =
        first-emptied (is_open (tenant_id store) sid) (settle reason now)
          (settle_closes (tenant_id store) sid 0 0 reason now) t.sessions;
  }

  end_session-IsSettled :
      (b : SessionBilling) (u : Tables)
      → HasUniqueIds t.sessions
      → end_session store sid reason now t ≡ (answer b, u)
      → IsSettled (tenant_id store) sid b.seconds b.language_count u.sessions
  end_session-IsSettled b u unique e = by_ending (end_session-Ending store sid reason now t)
    where
      by_ending :
          Ending store sid reason now t (end_session store sid reason now t)
          → IsSettled (tenant_id store) sid b.seconds b.language_count u.sessions
      by_ending (refused x f) = absurd (cc (ap (λ p. p.0) (sym f ∙ e)))
      by_ending (charged row f l g) =
          let same : bill_of store sid row now ≡ b = ap (λ p. answer_or b p.0) (sym g ∙ e) in
          let tables : after store sid reason now t ≡ u = ap (λ p. p.1) (sym g ∙ e) in
          subst (λ c. IsSettled (tenant_id store) sid c.seconds c.language_count u.sessions) same
            (subst
              (λ v.
                IsSettled (tenant_id store) sid (bill_of store sid row now).seconds
                  (bill_of store sid row now).language_count v.sessions)
              tables (after-IsSettled row unique f))

  -- Once a session has ended, no call of any store changes the bill in its row, and another
  -- `end_session` is refused, in a sound table.
  pub end_session-IsFinal :
      (b : SessionBilling) (u : Tables) (rs : List (SessionStore × Request))
      → IsSound t.sessions
      → end_session store sid reason now t ≡ (answer b, u)
      → let later = run rs u in
        ((row : SessionRow) × (get_session store sid later ≡ some row)
          × (row.billed_seconds ≡ some b.seconds)
          × (row.billed_language_count ≡ some b.language_count))
        × ((reason' : Option Text) (now' : ℕ)
            → end_session store sid reason' now' later ≡ (raised not_found, later))
  unfolding get_session end_session
  end_session-IsFinal b u rs sound e =
      let s =
        run-IsSettled (tenant_id store) sid b.seconds b.language_count rs u
          (end_session-IsSettled b u sound.unique e) in
      ((s.row, s.found, s.billed_for.1, s.billed_for.2), λ reason' now'. rw s.none_open refl)

  -- The row that is found after an answer is the open one, settled.
  pub end_session-settled :
      (b : SessionBilling) (u : Tables)
      → HasUniqueIds t.sessions
      → end_session store sid reason now t ≡ (answer b, u)
      → (row : SessionRow) × (get_session store sid u ≡ some (settle reason now row))
  unfolding get_session
  end_session-settled b u unique e = by_ending (end_session-Ending store sid reason now t)
    where
      by_ending :
          Ending store sid reason now t (end_session store sid reason now t)
          → (row : SessionRow) × (get_session store sid u ≡ some (settle reason now row))
      by_ending (refused x f) = absurd (cc (ap (λ p. p.0) (sym f ∙ e)))
      by_ending (charged row f l g) = (
        row,
        subst
            (λ v.
              first (is_session (tenant_id store) sid) v.sessions ≡ some (settle reason now row))
            (ap (λ p. p.1) (sym g ∙ e)) (after_found row unique f),
      )

  -- A session that is open, started by now, runs for less than 2^31 seconds and has fewer than 2^15
  -- languages is charged: the seconds are the least that cover the time since its start, and the
  -- quantity is those seconds for each language.
  pub end_session-bill :
      (row : SessionRow)
      → first (is_open (tenant_id store) sid) t.sessions ≡ some row
      → row.started_at ≤ now
      → now ≤ row.started_at + (2 ^ 31 - 1) * 1_000_000
      → length row.target_languages < 2 ^ 15
      → (b : SessionBilling) × (end_session store sid reason now t
          ≡ (answer b, after store sid reason now t))
        × (now ≤ row.started_at + b.seconds * 1_000_000)
        × (row.started_at + b.seconds * 1_000_000 < now + 1_000_000)
        × (language_seconds b ≡ b.seconds * length row.target_languages)
  unfolding end_session settled after bill_of language_seconds billed
  end_session-bill row e started fits few = (
    bill_of store sid row now,
    rw
        (
          e,
          lt→ltb (billed row.started_at now) (2 ^ 31) (omega arith),
          lt→ltb (length row.target_languages) (2 ^ 15) few,
          le→ltb-false now row.started_at started,
        )
        refl,
    omega arith,
    omega arith,
    refl,
  )
