-- ===== src/Db/Sessions/Consistent.antt =====
-- The invariant of the rows of `translation_sessions`.
use lad_translate.Db.Sessions.{
  live, failed, ended, SessionRow, SessionStore, Tables, settle, with_status, is_session, is_open,
  session_row, tenant_id, final_status, billed,
}
use lad_translate.Db.Sessions.Live.{is_live}
use lad_translate.Db.Sessions.Requests.{Request, apply, run}
use lad_translate.Db.Sessions.Rows.{Change, same, inserted, went_live, closed, apply-Change}
use lad_translate.Db.Sql.{update_where}
use lad_translate.Common.Text.{Text}
use lad_translate.Common.{
  Bool-cases, length, All, All-append, ℕ, ◌+◌, ◌*◌, ◌≤◌, ◌<◌, ◌≡◌, refl, subst, ◌≢◌, inl, inr, Bool,
  true, Option, none, some, List, [], ◌∷◌, arith,
}
use lad_translate.Db.Sessions.Unique.{HasUniqueIds, only_one, Change-HasUniqueIds}

-- The least whole number of seconds that covers the time from one point to a later one.
pub record Covers (started at seconds : ℕ) : Type 0 where
  pub in_order : started ≤ at
  pub enough : at ≤ started + seconds * 1_000_000
  pub least : started + seconds * 1_000_000 < at + 1_000_000

-- A reason with at least one character.
abbrev pub HasReason : Option Text → Type 0
HasReason none = ⊥
HasReason (some []) = ⊥
HasReason (some (c ∷ reason)) = Unit

-- A session that is open is starting or live and not billed, one that is over is billed for the time
-- it ran and its languages, and of those that are over exactly a failed one has a reason, unless it
-- was made live again.
pub data IsConsistent (row : SessionRow) : Type 0 where
  still_open :
      row.ended_at ≡ none
      → is_live row.status ≡ true
      → row.billed_seconds ≡ none
      → row.billed_language_count ≡ none
      → row.failure_reason ≡ none
      → length row.target_languages ≢ 0
      → IsConsistent row
  over :
      (at : ℕ)
      → row.ended_at ≡ some at
      → (seconds : ℕ) → row.billed_seconds ≡ some seconds
      → Covers row.started_at at seconds
      → row.billed_language_count ≡ some (length row.target_languages)
      → length row.target_languages ≢ 0
      → (row.status ≡ failed → HasReason row.failure_reason)
      → (row.status ≡ ended → HasReason row.failure_reason → ⊥)
      → IsConsistent row

with_live : (row : SessionRow) → IsConsistent row → IsConsistent (with_status live row)
with_live row (still_open e l b c r n) = still_open e refl b c r n
with_live row (over at e s b v c n r k) =
    over at e s b v c n (λ f. absurd (cc f)) (λ f. absurd (cc f))

billed-Covers : (started at : ℕ) → started ≤ at → Covers started at (billed started at)
unfolding billed
billed-Covers started at h = record {
  in_order = h;
  enough = omega (arith, h);
  least = omega (arith, h);
}

pub failed-HasReason : (reason : Option Text) → final_status reason ≡ failed → HasReason reason
unfolding final_status
failed-HasReason none e = cc e
failed-HasReason (some []) e = cc e
failed-HasReason (some (c ∷ s)) e = tt

pub ended-HasReason : (reason : Option Text) → final_status reason ≡ ended → HasReason reason → ⊥
unfolding final_status
ended-HasReason none e h = h
ended-HasReason (some []) e h = h
ended-HasReason (some (c ∷ s)) e h = cc e

settle-IsConsistent :
    (reason : Option Text) (now : ℕ) (row : SessionRow)
    → row.started_at ≤ now
    → length row.target_languages ≢ 0
    → IsConsistent (settle reason now row)
unfolding settle
settle-IsConsistent reason now row l n =
    over now refl (billed row.started_at now) refl (billed-Covers row.started_at now l) refl n
      (failed-HasReason reason) (ended-HasReason reason)

has_targets : (row : SessionRow) → IsConsistent row → length row.target_languages ≢ 0
has_targets row (still_open e l b c r n) = n
has_targets row (over at e s b v c n r k) = n

All-update_where :
    (q : SessionRow → Bool) (f : SessionRow → SessionRow) (P : SessionRow → Type 0)
    → ((x : SessionRow) → P x → IsConsistent x → IsConsistent (f x))
    → (xs : List SessionRow) → All (λ x. q x ≡ true → P x) xs
    → All IsConsistent xs
    → All IsConsistent (update_where q f xs)
unfolding update_where
All-update_where q f P keeps [] p h = tt
All-update_where q f P keeps (x ∷ xs) p h = elim (Bool-cases (q x)) [
  | inl e ↦ rw e (keeps x (p.0 e) h.0, All-update_where q f P keeps xs p.1 h.1)
  | inr e ↦ rw e (h.0, All-update_where q f P keeps xs p.1 h.1)
]

All_any : (q : SessionRow → Bool) (xs : List SessionRow) → All (λ x. q x ≡ true → Unit {0}) xs
All_any q [] = tt
All_any q (x ∷ xs) = (λ e. tt, All_any q xs)

Change-Consistent :
    (store : SessionStore) (xs ys : List SessionRow)
    → Change store xs ys
    → HasUniqueIds xs
    → All IsConsistent xs
    → All IsConsistent ys
unfolding session_row
Change-Consistent store xs ys (same e) u h = rw e h
Change-Consistent store xs ys (inserted config credible now new n e) u h =
    rw e (All-append IsConsistent xs _ h (still_open refl refl refl refl refl n, tt))
Change-Consistent store xs ys (went_live sid e) u h = rw e (
    All-update_where (is_session (tenant_id store) sid) (with_status live) (λ x. Unit {0})
      (λ x p. with_live x) xs (All_any (is_session (tenant_id store) sid) xs) h)
Change-Consistent store xs ys (closed sid reason now row f l e) u h = rw e (
    All-update_where (is_open (tenant_id store) sid) (settle reason now) (λ x. row ≡ x)
      (λ x p c.
        settle-IsConsistent reason now x (subst (λ y. y.started_at ≤ now) p l) (has_targets x c))
      xs (only_one (is_open (tenant_id store) sid) sid (λ x b. ground (arith, b)) xs row u f) h)

pub record IsSound (xs : List SessionRow) : Type 0 where
  pub consistent : All IsConsistent xs
  pub unique : HasUniqueIds xs

-- Whatever calls any stores make in whatever order, the table of sessions stays sound: no id twice,
-- an open session is starting or live and neither billed nor failed, one that is over is billed for
-- the least number of whole seconds that covers the time from its start to its end, which comes no
-- earlier, and for its number of languages, which is not 0; a failed one has a reason that is not
-- empty, and one that is called ended has none.
pub run-IsSound :
    (rs : List (SessionStore × Request)) (t : Tables)
    → IsSound t.sessions
    → IsSound (run rs t).sessions
unfolding run
run-IsSound [] t h = h
run-IsSound ((store, r) ∷ rs) t h = run-IsSound rs (apply store r t) (record {
  consistent = Change-Consistent store t.sessions _ (apply-Change store t r) h.unique h.consistent;
  unique = Change-HasUniqueIds store t.sessions _ (apply-Change store t r) h.unique;
})
