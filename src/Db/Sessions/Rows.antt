-- ===== src/Db/Sessions/Rows.antt =====
-- What each call of a `SessionStore` may do to the table of sessions.
use lad_translate.Db.Sessions.{
  live, SessionRow, Tables, SessionStore, TranscriptRow, tenant_id, session_row, has_id, is_session,
  is_open, with_status, settle, create_session, insert_session, mark_live, update_status,
  end_session, billed, settled_or_not, inserted_or_not, status_set, ListenerRow,
}
use lad_translate.Db.Sessions.Listeners.{
  listener_joined, listener_left, has_listener_id, new_listener, joined_or_not,
}
use lad_translate.Db.Sessions.Transcripts.{record_transcript, is_entry}
use lad_translate.Db.Sessions.Requests.{
  Request, create, go_live, end, arrive, depart, record_row, apply,
}
use lad_translate.Db.Sql.{first, update_where}
use lad_translate.Config.{SessionConfig}
use lad_translate.Common.Text.{Text, text_eq}
use lad_translate.Common.{
  ltb, ◌==◌, ltb-false→le, Bool-cases, Option-cases, length, ℕ, ◌^◌, ◌≤◌, ◌≡◌, refl, ◌≢◌, inl, inr,
  Bool, ◌&&◌, Option, none, some, List, [], ◌∷◌, ◌++◌, arith,
}

-- One insert of a session with a new id, one change of status, one settlement of the open rows, or
-- nothing.
pub data Change (store : SessionStore) (xs : List SessionRow) (ys : List SessionRow) : Type 0 where
  same : ys ≡ xs → Change store xs ys
  inserted :
      (config : SessionConfig) (credible : Bool) (now : ℕ)
      → first (has_id config.session_id) xs ≡ none
      → length (session_row store config credible now).target_languages ≢ 0
      → ys ≡ xs ++ session_row store config credible now ∷ []
      → Change store xs ys
  went_live :
      (sid : Text)
      → ys ≡ update_where (is_session (tenant_id store) sid) (with_status live) xs
      → Change store xs ys
  closed :
      (sid : Text) (reason : Option Text) (now : ℕ) (row : SessionRow)
      → first (is_open (tenant_id store) sid) xs ≡ some row
      → row.started_at ≤ now
      → ys ≡ update_where (is_open (tenant_id store) sid) (settle reason now) xs
      → Change store xs ys

module _ (store : SessionStore) (t : Tables) where
  create-Change :
      (config : SessionConfig) (credible : Bool) (now : ℕ)
      → Change store t.sessions ((create_session store config credible now t).1).sessions
  unfolding create_session insert_session session_row
  create-Change config credible now =
      elim (Bool-cases (text_eq config.tenant.tenant_id (tenant_id store))) [
        | inr e ↦ same (rw e refl)
        | inl e ↦ rw e (by_id (first (has_id config.session_id) t.sessions) refl)
      ]
    where
      row : SessionRow
      row = session_row store config credible now

      by_id :
          (o : Option SessionRow)
          → first (has_id config.session_id) t.sessions ≡ o
          → Change store t.sessions ((inserted_or_not row t o).1).sessions
      by_id (some x) h = same refl
      by_id none h = elim (Bool-cases (length row.target_languages == 0)) [
        | inl z ↦ same (rw z refl)
        | inr z ↦ inserted config credible now h (ground (arith, z)) (rw z refl)
      ]

  mark_live-Change : (sid : Text) → Change store t.sessions ((mark_live store sid t).1).sessions
  unfolding mark_live update_status status_set
  mark_live-Change sid = by_id (first (is_session (tenant_id store) sid) t.sessions)
    where
      by_id :
          (o : Option SessionRow)
          → Change store t.sessions ((status_set store sid live t o).1).sessions
      by_id none = same refl
      by_id (some x) = went_live sid refl

  end-Change :
      (sid : Text) (reason : Option Text) (now : ℕ)
      → Change store t.sessions ((end_session store sid reason now t).1).sessions
  unfolding end_session lad_translate.Db.Sessions.settled
  end-Change sid reason now = by_row (first (is_open (tenant_id store) sid) t.sessions) refl
    where
      by_row :
          (o : Option SessionRow)
          → first (is_open (tenant_id store) sid) t.sessions ≡ o
          → Change store t.sessions ((settled_or_not store sid reason now t o).1).sessions
      by_row none e = same refl
      by_row (some row) e =
          elim (Bool-cases (
            ltb (billed row.started_at now) (2 ^ 31)
            && ltb (length row.target_languages) (2 ^ 15))) [
              | inr f ↦ same (rw f refl)
              | inl f ↦ elim (Bool-cases (ltb now row.started_at)) [
                | inl l ↦ same (rw (f, l) refl)
                | inr l ↦ closed sid reason now row e (ltb-false→le _ _ l) (rw (f, l) refl)
              ]
            ]

  arrive-Change :
      (lid sid language : Text) (now : ℕ)
      → Change store t.sessions ((listener_joined store lid sid language now t).1).sessions
  unfolding listener_joined
  arrive-Change lid sid language now =
      by_rows (first (has_listener_id lid) t.listeners) (first (has_id sid) t.sessions)
    where
      by_rows :
          (o : Option ListenerRow) (u : Option SessionRow)
          → Change store t.sessions
              ((joined_or_not (new_listener store lid sid language now) t o u).1).sessions
      by_rows (some x) u = same refl
      by_rows none none = same refl
      by_rows none (some x) = same refl

  record-Change :
      (sid : Text) (new : TranscriptRow)
      → Change store t.sessions ((record_transcript store sid new t).1).sessions
  unfolding record_transcript
  record-Change sid new = elim (Bool-cases (ltb new.t_audio_end new.t_audio_start)) [
    | inl l ↦ same (rw l refl)
    | inr l ↦ elim (Option-cases (first (is_entry sid new.chunk_id new.language) t.transcripts)) [
      | inr (x, e) ↦ same (rw (l, e) refl)
      | inl e ↦ elim (Option-cases (first (has_id sid) t.sessions)) [
        | inl f ↦ same (rw (l, e, f) refl)
        | inr (x, f) ↦ same (rw (l, e, f) refl)
      ]
    ]
  ]

  pub apply-Change : (r : Request) → Change store t.sessions (apply store r t).sessions
  unfolding apply listener_left
  apply-Change (create config credible now) = create-Change config credible now
  apply-Change (go_live sid) = mark_live-Change sid
  apply-Change (end sid reason now) = end-Change sid reason now
  apply-Change (arrive lid sid language now) = arrive-Change lid sid language now
  apply-Change (depart lid now) = same refl
  apply-Change (record_row sid row) = record-Change sid row
