-- ===== src/Db/Sessions/Presence.antt =====
-- The counts of the listeners of a session.
use lad_translate.Db.Sessions.{
  foreign_key_violation, unique_violation, StoreError, ListenerRow, SessionRow, SessionStore,
  Tables, tenant_id, has_id, Answer, answer, raised,
}
use lad_translate.Db.Sessions.Listeners.{
  listener_joined, joined_or_not, new_listener, listener_left, is_present, gone, has_listener_id,
  is_active, active_listeners, count_of, count_by_language,
}
use lad_translate.Db.Sql.{
  first, select, update_where, first-none, select-append, update_none, update-append,
}
use lad_translate.Common.Dict
use lad_translate.Common.Dict.{Dict, text_key}
use lad_translate.Common.Text.{Text, text_eq, text_eq→eq, text_eq_refl}
use lad_translate.Common.{
  if◌then◌else◌, Bool-cases, length, length-append, ℕ, suc, ◌+◌, ◌≡◌, refl, sym, ap, ◌∙◌, inl, inr,
  Bool, Option, none, some, List, [], ◌∷◌, ◌++◌, append-nil, arith,
}

abbrev speaks : Text → ListenerRow → Bool
speaks language row = text_eq row.language language

count_of-count :
    (l : Text) (xs : List ListenerRow)
    → count_of l (count_by_language xs) ≡ length (select (speaks l) xs)
unfolding count_by_language select Dict.lookup
count_of-count l [] = refl
count_of-count l (x ∷ xs) = elim (Bool-cases (text_eq x.language l)) [
  | inl e ↦
      rw
        (
          Dict.lookup-insert x.language l (suc (count_of x.language (count_by_language xs)))
              (count_by_language xs),
          e,
        )
        (ap suc (
          ap (λ m. count_of m (count_by_language xs)) (text_eq→eq x.language l e)
          ∙ count_of-count l xs))
  | inr e ↦
      rw
        (
          Dict.lookup-insert x.language l (suc (count_of x.language (count_by_language xs)))
              (count_by_language xs),
          e,
        )
        (count_of-count l xs)
]

module _ (store : SessionStore) (lid sid language : Text) (now : ℕ) (t : Tables) where
  abbrev newcomer : ListenerRow
  newcomer = new_listener store lid sid language now

  data Arrival (out : Answer Text × Tables) : Type 0 where
    turned_away : (e : StoreError) → out ≡ (raised e, t) → Arrival out
    let_in :
        first (has_listener_id lid) t.listeners ≡ none
        → out ≡ (answer lid, record t { listeners = t.listeners ++ newcomer ∷ [] })
        → Arrival out

  listener_joined-Arrival : Arrival (listener_joined store lid sid language now t)
  unfolding listener_joined
  listener_joined-Arrival =
      by_rows (first (has_listener_id lid) t.listeners) (first (has_id sid) t.sessions) refl
    where
      by_rows :
          (o : Option ListenerRow) (u : Option SessionRow)
          → first (has_listener_id lid) t.listeners ≡ o
          → Arrival (joined_or_not newcomer t o u)
      by_rows (some x) u e = turned_away unique_violation refl
      by_rows none none e = turned_away foreign_key_violation refl
      by_rows none (some x) e = let_in e refl

  -- The table after a listener is let in.
  joined_tables :
      (id : Text) (u : Tables)
      → listener_joined store lid sid language now t ≡ (answer id, u)
      → (first (has_listener_id lid) t.listeners ≡ none)
        × (u ≡ record t { listeners = t.listeners ++ newcomer ∷ [] })
  joined_tables id u e = by_arrival listener_joined-Arrival
    where
      by_arrival :
          Arrival (listener_joined store lid sid language now t)
          → (first (has_listener_id lid) t.listeners ≡ none)
            × (u ≡ record t { listeners = t.listeners ++ newcomer ∷ [] })
      by_arrival (turned_away x f) = absurd (cc (ap (λ p. p.0) (sym f ∙ e)))
      by_arrival (let_in n f) = (n, ap (λ p. p.1) (sym e ∙ f))

  -- A listener who is let in is counted for the language, and no other count changes.
  pub listener_joined-counted :
      (id l : Text) (u : Tables)
      → listener_joined store lid sid language now t ≡ (answer id, u)
      → count_of l (active_listeners store sid u)
        ≡ count_of l (active_listeners store sid t) + (if text_eq language l then 1 else 0)
  unfolding active_listeners select
  listener_joined-counted id l u e =
      let (new, same) = joined_tables id u e in
      let p = is_active (tenant_id store) sid in
      rw
        (
          same,
          count_of-count l (select p (t.listeners ++ newcomer ∷ [])),
          count_of-count l (select p t.listeners),
          select-append p t.listeners (newcomer ∷ []),
          text_eq_refl (tenant_id store),
          text_eq_refl sid,
          select-append (speaks l) (select p t.listeners) (newcomer ∷ []),
          length-append (select (speaks l) (select p t.listeners))
              (select (speaks l) (newcomer ∷ [])),
        )
        (ground arith)

  departed_newcomer :
      (later : ℕ) (reader : SessionStore) (any : Text)
      → select
          (is_active (tenant_id reader) any)
          (update_where (is_present (tenant_id store) lid) (gone later) (newcomer ∷ []))
        ≡ []
  unfolding select update_where
  departed_newcomer later reader any =
      rw (text_eq_refl lid, text_eq_refl (tenant_id store))
        (elim (Bool-cases (text_eq (tenant_id store) (tenant_id reader))) [
          | inl e ↦ elim (Bool-cases (text_eq sid any)) [
            | inl f ↦ rw (e, f) refl
            | inr f ↦ rw (e, f) refl
          ]
          | inr e ↦ rw e refl
        ])

  -- When a listener who was let in leaves again, every session's counts are those from before.
  pub listener_left-joined :
      (id : Text) (u : Tables) (later : ℕ) (reader : SessionStore) (any : Text)
      → listener_joined store lid sid language now t ≡ (answer id, u)
      → active_listeners reader any (listener_left store lid later u)
        ≡ active_listeners reader any t
  unfolding active_listeners listener_left select
  listener_left-joined id u later reader any e =
      let (new, same) = joined_tables id u e in
      let p = is_active (tenant_id reader) any in
      let q = is_present (tenant_id store) lid in
      rw
        (
          same,
          update-append q (gone later) t.listeners (newcomer ∷ []),
          update_none q (gone later) t.listeners
              (first-none q (has_listener_id lid) (λ x h. ground (arith, h)) t.listeners new),
          select-append p t.listeners (update_where q (gone later) (newcomer ∷ [])),
        )
        (rw (departed_newcomer later reader any, append-nil (select p t.listeners)) refl)
