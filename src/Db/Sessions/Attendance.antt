-- ===== src/Db/Sessions/Attendance.antt =====
-- What each call of a `SessionStore` may do to the table of listeners.
use lad_translate.Db.Sessions.{
  Status, live, SessionRow, ListenerRow, TranscriptRow, Tables, SessionStore, tenant_id,
  session_row, has_id, create_session, insert_session, inserted_or_not, mark_live, update_status,
  status_set, end_session, billed, settled_or_not, settled,
}
use lad_translate.Db.Sessions.Listeners.{
  listener_joined, joined_or_not, new_listener, listener_left, is_present, gone,
}
use lad_translate.Db.Sessions.Transcripts.{record_transcript, is_entry}
use lad_translate.Db.Sessions.Requests.{
  Request, create, go_live, end, arrive, depart, record_row, apply,
}
use lad_translate.Db.Sql.{first, update_where}
use lad_translate.Config.{SessionConfig}
use lad_translate.Common.Text.{Text, text_eq}
use lad_translate.Common.{
  ltb, ◌==◌, Bool-cases, Option-cases, length, ℕ, ◌^◌, ◌≡◌, refl, inl, inr, Bool, ◌&&◌, Option,
  none, some, List, [], ◌∷◌, ◌++◌,
}

pub data Movement (store : SessionStore) (xs ys : List ListenerRow) : Type 0 where
  none_moved : ys ≡ xs → Movement store xs ys
  came :
      (lid sid language : Text) (now : ℕ)
      → ys ≡ xs ++ new_listener store lid sid language now ∷ []
      → Movement store xs ys
  went :
      (lid : Text) (now : ℕ)
      → ys ≡ update_where (is_present (tenant_id store) lid) (gone now) xs
      → Movement store xs ys

module _ (store : SessionStore) (t : Tables) where
  inserted_listeners :
      (row : SessionRow) (o : Option SessionRow)
      → ((inserted_or_not row t o).1).listeners ≡ t.listeners
  inserted_listeners row (some x) = refl
  inserted_listeners row none = elim (Bool-cases (length row.target_languages == 0)) [
    | inl e ↦ rw e refl
    | inr e ↦ rw e refl
  ]

  create_listeners :
      (config : SessionConfig) (credible : Bool) (now : ℕ)
      → ((create_session store config credible now t).1).listeners ≡ t.listeners
  unfolding create_session insert_session
  create_listeners config credible now =
      elim (Bool-cases (text_eq config.tenant.tenant_id (tenant_id store))) [
        | inl e ↦ rw e (inserted_listeners (session_row store config credible now) _)
        | inr e ↦ rw e refl
      ]

  status_listeners :
      (sid : Text) (s : Status) (o : Option SessionRow)
      → ((status_set store sid s t o).1).listeners ≡ t.listeners
  unfolding status_set
  status_listeners sid s none = refl
  status_listeners sid s (some x) = refl

  settled_listeners :
      (sid : Text) (reason : Option Text) (now : ℕ) (o : Option SessionRow)
      → ((settled_or_not store sid reason now t o).1).listeners ≡ t.listeners
  unfolding settled
  settled_listeners sid reason now none = refl
  settled_listeners sid reason now (some row) =
      elim (Bool-cases
        (ltb (billed row.started_at now) (2 ^ 31) && ltb (length row.target_languages) (2 ^ 15))) [
          | inr f ↦ rw f refl
          | inl f ↦ elim (Bool-cases (ltb now row.started_at)) [
            | inl l ↦ rw (f, l) refl
            | inr l ↦ rw (f, l) refl
          ]
        ]

  record_listeners :
      (sid : Text) (new : TranscriptRow)
      → ((record_transcript store sid new t).1).listeners ≡ t.listeners
  unfolding record_transcript
  record_listeners sid new = elim (Bool-cases (ltb new.t_audio_end new.t_audio_start)) [
    | inl l ↦ rw l refl
    | inr l ↦ elim (Option-cases (first (is_entry sid new.chunk_id new.language) t.transcripts)) [
      | inr (x, e) ↦ rw (l, e) refl
      | inl e ↦ elim (Option-cases (first (has_id sid) t.sessions)) [
        | inl f ↦ rw (l, e, f) refl
        | inr (x, f) ↦ rw (l, e, f) refl
      ]
    ]
  ]

  joined-Movement :
      (lid sid language : Text) (now : ℕ) (o : Option ListenerRow) (u : Option SessionRow)
      → Movement store t.listeners
          ((joined_or_not (new_listener store lid sid language now) t o u).1).listeners
  joined-Movement lid sid language now (some x) u = none_moved refl
  joined-Movement lid sid language now none none = none_moved refl
  joined-Movement lid sid language now none (some x) = came lid sid language now refl

  pub apply-Movement : (r : Request) → Movement store t.listeners (apply store r t).listeners
  unfolding apply mark_live update_status end_session listener_joined listener_left
  apply-Movement (create config credible now) = none_moved (create_listeners config credible now)
  apply-Movement (go_live sid) = none_moved (status_listeners sid live _)
  apply-Movement (end sid reason now) = none_moved (settled_listeners sid reason now _)
  apply-Movement (arrive lid sid language now) = joined-Movement lid sid language now _ _
  apply-Movement (depart lid now) = went lid now refl
  apply-Movement (record_row sid row) = none_moved (record_listeners sid row)
