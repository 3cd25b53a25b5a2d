-- ===== src/Db/Sessions/Transcripts.antt =====
-- The transcripts of db/sessions.py.
use lad_translate.Db.Sessions.{Outcome, TranscriptRow, StoredTranscript, Tables, SessionStore}
use lad_translate.Db.Sessions.{tenant_id, has_id}
use lad_translate.Db.Sessions.{answer, raised, foreign_key_violation, check_violation}
use lad_translate.Db.Ordering.{order_by}
use lad_translate.Db.Sql.{select, first, update_where}
use lad_translate.Common.Text.{Text, text_eq}
use lad_translate.Common.{ltb, ◌==◌, if◌then◌else◌, ℕ, Bool, ◌&&◌, none, some, List, [], ◌∷◌, ◌++◌}

-- `UNIQUE (session_id, chunk_id, language)`
abbrev pub is_entry : Text → ℕ → Text → StoredTranscript → Bool
is_entry sid chunk language s =
    text_eq s.session_id sid && (s.row.chunk_id == chunk && text_eq s.row.language language)

-- `DO UPDATE SET translated_text, latency_s, revised`
abbrev pub overwritten : TranscriptRow → StoredTranscript → StoredTranscript
overwritten new s = record s {
  row = record s.row {
    translated_text = new.translated_text;
    latency_s = new.latency_s;
    revised = new.revised;
  };
}

-- `INSERT INTO session_transcripts ... ON CONFLICT ... DO UPDATE`. The constraint on the span is
-- checked before the conflict, and the foreign key at the end of an insert.
unfoldable pub record_transcript : SessionStore → Text → TranscriptRow → Tables → Outcome × Tables
unfolding first update_where
record_transcript store sid new t =
    if ltb new.t_audio_end new.t_audio_start
    then (raised check_violation, t)
    else elim (first (is_entry sid new.chunk_id new.language) t.transcripts) [
      | some _ ↦ (
        answer tt,
        record t {
          transcripts =
              update_where (is_entry sid new.chunk_id new.language) (overwritten new) t.transcripts;
        },
      )
      | none ↦ elim (first (has_id sid) t.sessions) [
        | none ↦ (raised foreign_key_violation, t)
        | some _ ↦ (
          answer tt,
          record t {
            transcripts =
                t.transcripts
                ++ (record { session_id = sid; tenant_id = tenant_id store; row = new }) ∷ [];
          },
        )
      ]
    ]

-- `tenant_id = $1 AND session_id = $2 AND language = $3`
abbrev pub is_spoken_in : Text → Text → Text → StoredTranscript → Bool
is_spoken_in tenant sid language s =
    text_eq s.tenant_id tenant && (text_eq s.session_id sid && text_eq s.row.language language)

-- `ORDER BY chunk_id`
abbrev pub is_earlier : TranscriptRow → TranscriptRow → Bool
is_earlier x y = ltb x.chunk_id y.chunk_id

abbrev pub rows_of : List StoredTranscript → List TranscriptRow
rows_of [] = []
rows_of (s ∷ rest) = s.row ∷ rows_of rest

unfoldable pub transcript : SessionStore → Text → Text → Tables → List TranscriptRow
unfolding select order_by
transcript store sid language t =
    order_by is_earlier
      (rows_of (select (is_spoken_in (tenant_id store) sid language) t.transcripts))
