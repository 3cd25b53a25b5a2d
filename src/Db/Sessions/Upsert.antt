-- ===== src/Db/Sessions/Upsert.antt =====
-- The upsert of db/sessions.py, and what is read back.
use lad_translate.Db.Sessions.{
  foreign_key_violation, check_violation, StoreError, TranscriptRow, StoredTranscript, SessionStore,
  Tables, tenant_id, has_id, Outcome, answer, raised,
}
use lad_translate.Db.Sessions.Transcripts.{is_entry, overwritten, record_transcript}
use lad_translate.Db.Sql.{
  updated-keeps, first, update_where, first-update, first-append, first-holds, update_none,
  update-append, update_twice,
}
use lad_translate.Common.Text.{Text, text_eq_refl}
use lad_translate.Common.{
  ltb, Bool-cases, Option-cases, ◌≡◌, refl, sym, ap, ◌∙◌, subst, inl, inr, Bool, true, false,
  Option, none, some, [], ◌∷◌, ◌++◌, arith,
}

module _ (store : SessionStore) (sid : Text) (new : TranscriptRow) (t : Tables) where
  abbrev entry : StoredTranscript → Bool
  entry = is_entry sid new.chunk_id new.language

  -- What stands for the chunk in the language after a call, by what stood there before.
  abbrev pub recorded : Option StoredTranscript → StoredTranscript
  recorded none = record { session_id = sid; tenant_id = tenant_id store; row = new }
  recorded (some old) = record {
    session_id = old.session_id;
    tenant_id = old.tenant_id;
    row = record {
      chunk_id = old.row.chunk_id;
      language = old.row.language;
      source_text = old.row.source_text;
      translated_text = new.translated_text;
      t_audio_start = old.row.t_audio_start;
      t_audio_end = old.row.t_audio_end;
      latency_s = new.latency_s;
      commit_reason = old.row.commit_reason;
      revised = new.revised;
    };
  }

  fresh_entry : is_entry sid new.chunk_id new.language (recorded none) ≡ true
  fresh_entry = ground (arith, text_eq_refl sid, text_eq_refl new.language)

  entry-overwritten : (x : StoredTranscript) → entry (overwritten new x) ≡ entry x
  entry-overwritten x = refl

  data Recording (out : Outcome × Tables) : Type 0 where
    refused : (e : StoreError) → out ≡ (raised e, t) → Recording out
    replaced :
        (old : StoredTranscript)
        → first entry t.transcripts ≡ some old
        → ltb new.t_audio_end new.t_audio_start ≡ false
        → out ≡ (
          answer tt,
          record t { transcripts = update_where entry (overwritten new) t.transcripts },
        )
        → Recording out
    added :
        first entry t.transcripts ≡ none
        → ltb new.t_audio_end new.t_audio_start ≡ false
        → out ≡ (answer tt, record t { transcripts = t.transcripts ++ recorded none ∷ [] })
        → Recording out

  record_transcript-Recording : Recording (record_transcript store sid new t)
  unfolding record_transcript
  record_transcript-Recording = elim (Bool-cases (ltb new.t_audio_end new.t_audio_start)) [
    | inl l ↦ refused check_violation (rw l refl)
    | inr l ↦ elim (Option-cases (first entry t.transcripts)) [
      | inr (old, e) ↦ replaced old e l (rw (l, e) refl)
      | inl e ↦ elim (Option-cases (first (has_id sid) t.sessions)) [
        | inl f ↦ refused foreign_key_violation (rw (l, e, f) refl)
        | inr (x, f) ↦ added e l (rw (l, e, f) refl)
      ]
    ]
  ]

module _ (store : SessionStore) (sid : Text) (new : TranscriptRow) (t : Tables) where
  -- A chunk that has its row is written over.
  over_again :
      (old : StoredTranscript) (u : Tables)
      → ltb new.t_audio_end new.t_audio_start ≡ false
      → first (entry store sid new t) u.transcripts ≡ some old
      → update_where (entry store sid new t) (overwritten new) u.transcripts ≡ u.transcripts
      → record_transcript store sid new u ≡ (answer tt, u)
  unfolding record_transcript
  over_again old u l e same = rw (l, e, same) refl

  -- A call that is made again is answered and leaves the tables as the first one left them.
  pub record_transcript-again :
      (u : Tables)
      → record_transcript store sid new t ≡ (answer tt, u)
      → record_transcript store sid new u ≡ (answer tt, u)
  unfolding update_where
  record_transcript-again u e = by_recording (record_transcript-Recording store sid new t)
    where
      p : StoredTranscript → Bool
      p = entry store sid new t

      by_recording :
          Recording store sid new t (record_transcript store sid new t)
          → record_transcript store sid new u ≡ (answer tt, u)
      by_recording (refused x f) = absurd (cc (ap (λ o. o.0) (sym f ∙ e)))
      by_recording (replaced old h l f) =
          subst (λ v. record_transcript store sid new v ≡ (answer tt, v))
            (ap (λ o. o.1) (sym f ∙ e))
            (over_again (overwritten new old)
              (record t { transcripts = update_where p (overwritten new) t.transcripts }) l
              (rw
                (
                  first-update p p (overwritten new)
                      (updated-keeps p p (overwritten new) (λ x. refl)) t.transcripts,
                  h,
                  first-holds p t.transcripts old h,
                )
                refl)
              (update_twice p (overwritten new) (λ x. refl) (λ x. refl) t.transcripts))
      by_recording (added h l f) =
          subst (λ v. record_transcript store sid new v ≡ (answer tt, v))
            (ap (λ o. o.1) (sym f ∙ e))
            (let fresh = recorded store sid new t none in
              over_again fresh (record t { transcripts = t.transcripts ++ fresh ∷ [] }) l
                (rw (first-append p t.transcripts fresh, h, fresh_entry store sid new t) refl)
                (rw
                  (
                    update-append p (overwritten new) t.transcripts (fresh ∷ []),
                    update_none p (overwritten new) t.transcripts h,
                    fresh_entry store sid new t,
                  )
                  refl))
