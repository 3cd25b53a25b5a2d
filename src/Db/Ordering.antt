-- ===== src/Db/Ordering.antt =====
-- The ORDER BY of the queries of db/sessions.py. Rows that compare equal come in an order that SQL
-- leaves open; here the order is that of the table.
use mathlib.Core.List.{Perm}
use mathlib.Core.List.Perm
use lad_translate.Common.{
  if◌then◌else◌, Bool-cases, All, All-map, ◌≡◌, inl, inr, Bool, true, false, List, [], ◌∷◌,
}

module _ {ℓ} {A : Type ℓ} (before : A → A → Bool) where
  unfoldable pub insert_row : A → List A → List A
  insert_row x [] = x ∷ []
  insert_row x (y ∷ ys) =
      let rest = insert_row x ys in if before y x then y ∷ rest else x ∷ (y ∷ ys)

  unfoldable pub order_by : List A → List A
  unfolding insert_row
  order_by [] = []
  order_by (x ∷ xs) = insert_row x (order_by xs)

  -- No row comes before one that stands in front of it.
  abbrev pub IsOrdered : List A → Type ℓ
  IsOrdered [] = Unit
  IsOrdered (x ∷ xs) = All (λ y. before y x ≡ false) xs × IsOrdered xs

  insert_row-Perm : (x : A) (xs : List A) → Perm (insert_row x xs) (x ∷ xs)
  unfolding insert_row
  insert_row-Perm x [] = Perm.rfl
  insert_row-Perm x (y ∷ ys) = elim (Bool-cases (before y x)) [
    | inl e ↦ rw e (Perm.trans (Perm.cons y (insert_row-Perm x ys)) (Perm.swap x y ys))
    | inr e ↦ rw e (Perm.rfl)
  ]

  pub order_by-Perm : (xs : List A) → Perm (order_by xs) xs
  unfolding order_by
  order_by-Perm [] = Perm.rfl
  order_by-Perm (x ∷ xs) =
      Perm.trans (insert_row-Perm x (order_by xs)) (Perm.cons x (order_by-Perm xs))

  module _ (asymmetric : (x y : A) → before y x ≡ true → before x y ≡ false)
      (transitive : (x y z : A)
        → before y x ≡ false
        → before z y ≡ false
        → before z x ≡ false) where
    All-insert_row :
        (P : A → Type 0) (x : A) (xs : List A) → P x → All P xs → All P (insert_row x xs)
    unfolding insert_row
    All-insert_row P x [] p h = (p, tt)
    All-insert_row P x (y ∷ ys) p h = elim (Bool-cases (before y x)) [
      | inl e ↦ rw e (h.0, All-insert_row P x ys p h.1)
      | inr e ↦ rw e (p, h)
    ]

    insert_row-IsOrdered : (x : A) (xs : List A) → IsOrdered xs → IsOrdered (insert_row x xs)
    unfolding insert_row
    insert_row-IsOrdered x [] h = (tt, tt)
    insert_row-IsOrdered x (y ∷ ys) h = elim (Bool-cases (before y x)) [
      | inl e ↦ rw e (
        All-insert_row (λ z. before z y ≡ false) x ys (asymmetric x y e) h.0,
        insert_row-IsOrdered x ys h.1,
      )
      | inr e ↦ rw e ((e, All-map ys (λ z l. transitive x y z e l) h.0), h)
    ]

    pub order_by-IsOrdered : (xs : List A) → IsOrdered (order_by xs)
    unfolding order_by
    order_by-IsOrdered [] = tt
    order_by-IsOrdered (x ∷ xs) = insert_row-IsOrdered x (order_by xs) (order_by-IsOrdered xs)
