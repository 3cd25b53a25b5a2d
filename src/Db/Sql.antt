-- ===== src/Db/Sql.antt =====
-- What the statements of db/sessions.py do to a table: the rows of a table are a list, and a WHERE
-- clause is a test on a row.
use lad_translate.Common.{
  if◌then◌else◌, Bool-cases, ◌≡◌, refl, sym, ◌∙◌, subst, inl, inr, Bool, true, false, Option, none,
  some, List, [], ◌∷◌, ◌++◌, arith,
}

module _ {ℓ} {A : Type ℓ} where
  -- `SELECT * FROM rows WHERE p`
  unfoldable pub select : (A → Bool) → List A → List A
  select p [] = []
  select p (x ∷ xs) = let rest = select p xs in if p x then x ∷ rest else rest

  -- `fetchrow`: the first row of a query, or None
  unfoldable pub first : (A → Bool) → List A → Option A
  first p [] = none
  first p (x ∷ xs) = let rest = first p xs in if p x then some x else rest

  -- `UPDATE rows SET row = f row WHERE p`
  unfoldable pub update_where : (A → Bool) → (A → A) → List A → List A
  update_where p f [] = []
  update_where p f (x ∷ xs) = (if p x then f x else x) ∷ update_where p f xs

  -- What an update leaves in the place of a row.
  abbrev pub updated : (A → Bool) → (A → A) → A → A
  updated p f x = if p x then f x else x

  abbrev pub map_option : (A → A) → Option A → Option A
  map_option f none = none
  map_option f (some x) = some (f x)

  -- `or` on two optional rows
  abbrev pub or_else : Option A → Option A → Option A
  or_else none o = o
  or_else (some x) o = some x

  module _ (p : A → Bool) where
    pub updated-keeps :
        (q : A → Bool) (f : A → A) → ((x : A) → p (f x) ≡ p x) → (x : A) → p (updated q f x) ≡ p x
    updated-keeps q f keeps x = elim (Bool-cases (q x)) [
      | inl e ↦ rw e (keeps x)
      | inr e ↦ rw e refl
    ]

    -- An update that leaves a query's test as it was changes the row that the query finds.
    pub first-update :
        (q : A → Bool) (f : A → A)
        → ((x : A) → p (updated q f x) ≡ p x)
        → (xs : List A) → first p (update_where q f xs) ≡ map_option (updated q f) (first p xs)
    unfolding first update_where
    first-update q f same [] = refl
    first-update q f same (x ∷ xs) = elim (Bool-cases (p x)) [
      | inl e ↦ rw (same x, e) refl
      | inr e ↦ rw (same x, e) (first-update q f same xs)
    ]

    pub first-append :
        (xs : List A) (x : A)
        → first p (xs ++ x ∷ []) ≡ or_else (first p xs) (if p x then some x else none)
    unfolding first
    first-append [] x = refl
    first-append (y ∷ xs) x = elim (Bool-cases (p y)) [
      | inl e ↦ rw e refl
      | inr e ↦ rw e (first-append xs x)
    ]

    pub first-holds : (xs : List A) (x : A) → first p xs ≡ some x → p x ≡ true
    unfolding first
    first-holds [] x e = absurd (cc e)
    first-holds (y ∷ xs) x e = elim (Bool-cases (p y)) [
      | inl h ↦ ground (arith, h, e)
      | inr h ↦ first-holds xs x (ground (arith, h, e))
    ]

    -- An update that no row satisfies, and one that changes no row that a query selects.
    pub select-update_where :
        (q : A → Bool) (f : A → A)
        → ((x : A) → p (updated q f x) ≡ p x)
        → ((x : A) → p x ≡ true → updated q f x ≡ x)
        → (xs : List A) → select p (update_where q f xs) ≡ select p xs
    unfolding select update_where
    select-update_where q f same kept [] = refl
    select-update_where q f same kept (x ∷ xs) = elim (Bool-cases (p x)) [
      | inl e ↦ rw (same x, e, kept x e, select-update_where q f same kept xs) refl
      | inr e ↦ rw (same x, e) (select-update_where q f same kept xs)
    ]

    pub select-append : (xs ys : List A) → select p (xs ++ ys) ≡ select p xs ++ select p ys
    unfolding select
    select-append [] ys = refl
    select-append (x ∷ xs) ys = elim (Bool-cases (p x)) [
      | inl e ↦ rw (e, select-append xs ys) refl
      | inr e ↦ rw e (select-append xs ys)
    ]

    pub first-skip : (x : A) (xs : List A) → p x ≡ false → first p (x ∷ xs) ≡ first p xs
    unfolding first
    first-skip x xs e = rw e refl

    pub first-hit : (x : A) (xs : List A) → p x ≡ true → first p (x ∷ xs) ≡ some x
    unfolding first
    first-hit x xs e = rw e refl

    -- A query that another contains finds nothing where the other finds nothing.
    pub first-none :
        (q : A → Bool)
        → ((x : A) → p x ≡ true → q x ≡ true)
        → (xs : List A) → first q xs ≡ none
        → first p xs ≡ none
    unfolding first
    first-none q within [] e = refl
    first-none q within (x ∷ xs) e = elim (Bool-cases (p x)) [
      | inl h ↦ absurd (cc (subst (λ b. (if b then some x else first q xs) ≡ none) (within x h) e))
      | inr h ↦ elim (Bool-cases (q x)) [
        | inl k ↦ absurd (cc (subst (λ b. (if b then some x else first q xs) ≡ none) k e))
        | inr k ↦
            rw h
              (first-none q within xs (subst (λ b. (if b then some x else first q xs) ≡ none) k e))
      ]
    ]

    -- An update that makes no row satisfy a test, and one that leaves no row that does.
    pub first-closed :
        (q : A → Bool) (f : A → A)
        → ((x : A) → p x ≡ false → p (updated q f x) ≡ false)
        → (xs : List A) → first p xs ≡ none
        → first p (update_where q f xs) ≡ none
    unfolding first update_where
    first-closed q f stays [] e = refl
    first-closed q f stays (x ∷ xs) e = elim (Bool-cases (p x)) [
      | inl h ↦ absurd (cc (subst (λ b. (if b then some x else first p xs) ≡ none) h e))
      | inr h ↦
          rw (stays x h)
            (first-closed q f stays xs (subst (λ b. (if b then some x else first p xs) ≡ none) h e))
    ]

    pub first-emptied :
        (f : A → A)
        → ((x : A) → p (f x) ≡ false)
        → (xs : List A) → first p (update_where p f xs) ≡ none
    unfolding first update_where
    first-emptied f closes [] = refl
    first-emptied f closes (x ∷ xs) = elim (Bool-cases (p x)) [
      | inl h ↦ rw (h, closes x) (first-emptied f closes xs)
      | inr h ↦ rw (h, h) (first-emptied f closes xs)
    ]

    -- A narrower query finds its rows among those of a wider one.
    pub select-select :
        (r : A → Bool)
        → ((x : A) → p x ≡ true → r x ≡ true)
        → (xs : List A) → select p (select r xs) ≡ select p xs
    unfolding select
    select-select r within [] = refl
    select-select r within (x ∷ xs) = elim (Bool-cases (p x)) [
      | inl e ↦ rw (within x e, e, select-select r within xs) refl
      | inr e ↦ elim (Bool-cases (r x)) [
        | inl h ↦ rw (h, e) (select-select r within xs)
        | inr h ↦ rw (h, e) (select-select r within xs)
      ]
    ]

    pub first-select :
        (r : A → Bool)
        → ((x : A) → p x ≡ true → r x ≡ true)
        → (xs : List A) → first p (select r xs) ≡ first p xs
    unfolding select first
    first-select r within [] = refl
    first-select r within (x ∷ xs) = elim (Bool-cases (p x)) [
      | inl e ↦ rw (within x e, e) refl
      | inr e ↦ elim (Bool-cases (r x)) [
        | inl h ↦ rw (h, e) (first-select r within xs)
        | inr h ↦ rw (h, e) (first-select r within xs)
      ]
    ]

    -- An update that no row satisfies.
    pub update_none : (f : A → A) (xs : List A) → first p xs ≡ none → update_where p f xs ≡ xs
    unfolding first update_where
    update_none f [] e = refl
    update_none f (x ∷ xs) e = elim (Bool-cases (p x)) [
      | inl h ↦ absurd (cc (sym (first-hit x xs h) ∙ e))
      | inr h ↦ rw (h, update_none f xs (sym (first-skip x xs h) ∙ e)) refl
    ]

    pub update-append :
        (f : A → A) (xs ys : List A)
        → update_where p f (xs ++ ys) ≡ update_where p f xs ++ update_where p f ys
    unfolding update_where
    update-append f [] ys = refl
    update-append f (x ∷ xs) ys = rw (update-append f xs ys) refl

    -- An update made twice.
    pub update_twice :
        (f : A → A)
        → ((x : A) → p (f x) ≡ p x)
        → ((x : A) → f (f x) ≡ f x)
        → (xs : List A) → update_where p f (update_where p f xs) ≡ update_where p f xs
    unfolding update_where
    update_twice f same twice [] = refl
    update_twice f same twice (x ∷ xs) = elim (Bool-cases (p x)) [
      | inl h ↦ rw (h, same x, h, twice x, update_twice f same twice xs) refl
      | inr h ↦ rw (h, h, update_twice f same twice xs) refl
    ]
