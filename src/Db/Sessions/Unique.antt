-- ===== src/Db/Sessions/Unique.antt =====
-- No id of a session comes twice in the table.
use lad_translate.Db.Sessions.{
  live, SessionRow, SessionStore, has_id, settle, with_status, is_session, is_open, session_row,
  tenant_id,
}
use lad_translate.Db.Sessions.Rows.{Change, same, inserted, went_live, closed}
use lad_translate.Db.Sql.{
  first, update_where, updated, first-update, first-append, first-skip, first-hit, first-none,
}
use lad_translate.Common.Text.{Text, text_eq, text_eq→eq, text_eq_sym}
use lad_translate.Common.{
  if◌then◌else◌, Bool-cases, All, ◌≡◌, refl, sym, ap, ◌∙◌, subst, inl, inr, Bool, true, Option,
  none, some, List, [], ◌∷◌, ◌++◌,
}

-- The primary key.
abbrev pub HasUniqueIds : List SessionRow → Type 0
HasUniqueIds [] = Unit
HasUniqueIds (x ∷ xs) = (first (has_id x.session_id) xs ≡ none) × HasUniqueIds xs

no_one :
    (q : SessionRow → Bool) (xs : List SessionRow) (row : SessionRow)
    → first q xs ≡ none
    → All (λ x. q x ≡ true → row ≡ x) xs
no_one q [] row e = tt
no_one q (x ∷ xs) row e = elim (Bool-cases (q x)) [
  | inl h ↦ absurd (cc (sym (first-hit q x xs h) ∙ e))
  | inr h ↦ (λ b. absurd (cc (sym h ∙ b)), no_one q xs row (sym (first-skip q x xs h) ∙ e))
]

abbrev row_or : SessionRow → Option SessionRow → SessionRow
row_or d none = d
row_or d (some x) = x

-- Rows that a test finds are the one that it finds first, when their ids are the same.
pub only_one :
    (q : SessionRow → Bool) (sid : Text)
    → ((x : SessionRow) → q x ≡ true → has_id sid x ≡ true)
    → (xs : List SessionRow) (row : SessionRow) → HasUniqueIds xs
    → first q xs ≡ some row
    → All (λ x. q x ≡ true → row ≡ x) xs
only_one q sid within [] row u e = tt
only_one q sid within (x ∷ xs) row u e = elim (Bool-cases (q x)) [
  | inl h ↦ (
    λ b. sym (ap (row_or row) (sym (first-hit q x xs h) ∙ e)),
    no_one q xs row (
        first-none q (has_id x.session_id)
          (λ y b.
            subst (λ i. text_eq y.session_id i ≡ true)
              (sym (text_eq→eq x.session_id sid (within x h))) (within y b))
          xs u.0),
  )
  | inr h ↦ (
    λ b. absurd (cc (sym h ∙ b)),
    only_one q sid within xs row u.1 (sym (first-skip q x xs h) ∙ e),
  )
]

unique_updated :
    (q : SessionRow → Bool) (f : SessionRow → SessionRow)
    → ((x : SessionRow) → (updated q f x).session_id ≡ x.session_id)
    → (xs : List SessionRow) → HasUniqueIds xs
    → HasUniqueIds (update_where q f xs)
unfolding update_where
unique_updated q f same_id [] u = tt
unique_updated q f same_id (x ∷ xs) u = (
  rw (same_id x, first-update (has_id x.session_id) q f (λ y. rw (same_id y) refl) xs, u.0) refl,
  unique_updated q f same_id xs u.1,
)

unique_append :
    (xs : List SessionRow) (y : SessionRow)
    → first (has_id y.session_id) xs ≡ none
    → HasUniqueIds xs
    → HasUniqueIds (xs ++ y ∷ [])
unfolding first
unique_append [] y new u = (refl, tt)
unique_append (x ∷ xs) y new u = elim (Bool-cases (text_eq x.session_id y.session_id)) [
  | inl e ↦
      absurd (cc (subst (λ b. (if b then some x else first (has_id y.session_id) xs) ≡ none) e new))
  | inr e ↦ (
    rw (first-append (has_id x.session_id) xs y, u.0, text_eq_sym y.session_id x.session_id, e)
        refl,
    unique_append xs y
        (subst (λ b. (if b then some x else first (has_id y.session_id) xs) ≡ none) e new) u.1,
  )
]

pub Change-HasUniqueIds :
    (store : SessionStore) (xs ys : List SessionRow)
    → Change store xs ys
    → HasUniqueIds xs
    → HasUniqueIds ys
unfolding session_row settle
Change-HasUniqueIds store xs ys (same e) u = rw e u
Change-HasUniqueIds store xs ys (inserted config credible now new n e) u =
    rw e (unique_append xs (session_row store config credible now) new u)
Change-HasUniqueIds store xs ys (went_live sid e) u = rw e (
    unique_updated (is_session (tenant_id store) sid) (with_status live)
      (λ x. elim (Bool-cases (is_session (tenant_id store) sid x)) [
        | inl h ↦ rw h refl
        | inr h ↦ rw h refl
      ])
      xs u)
Change-HasUniqueIds store xs ys (closed sid reason now row f l e) u = rw e (
    unique_updated (is_open (tenant_id store) sid) (settle reason now)
      (λ x. elim (Bool-cases (is_open (tenant_id store) sid x)) [
        | inl h ↦ rw h refl
        | inr h ↦ rw h refl
      ])
      xs u)
