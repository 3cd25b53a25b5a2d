-- ===== src/Examples/Records.antt =====
-- The theorems about the records of sessions, in a schema that two tenants share.
use lad_translate.Db.Sessions.{
  SessionRow, TranscriptRow, Tables, SessionStore, SessionBilling, live, ended, is_open, tenant_id,
  settle, billed, final_status, answer, raised, not_found, language_seconds, end_session,
  get_session,
}
use lad_translate.Db.Sessions.Live.{live_sessions}
use lad_translate.Db.Sessions.Listeners.{listener_joined, listener_left, active_listeners}
use lad_translate.Db.Sessions.Requests.{Request, create, go_live, end, arrive, depart, run}
use lad_translate.Db.Sessions.Consistent.{IsSound, still_open, run-IsSound}
use lad_translate.Db.Sessions.Billing.{after, end_session-IsFinal, end_session-bill}
use lad_translate.Db.Sessions.Isolation.{run-isolated}
use lad_translate.Db.Sessions.Presence.{listener_left-joined}
use lad_translate.Db.Sql.{first, update_where}
use lad_translate.Examples.Settings.{session}
use lad_translate.Common.Text.{Text, codes, text_eq}
use lad_translate.Common.{
  ℕ, ◌+◌, ◌*◌, ◌≤◌, ◌<◌, ◌≡◌, refl, ap, ◌≢◌, true, false, Option, none, some, List, [], ◌∷◌, arith,
}

abbrev pub store : SessionStore
store = record {
  tenant = record { tenant_id = codes "1"; database_url = codes "db"; schema = codes "lad_acme" };
  schema = codes "lad_acme";
}

abbrev other : SessionStore
other = record {
  tenant = record { tenant_id = codes "2"; database_url = codes "db"; schema = codes "lad_acme" };
  schema = codes "lad_acme";
}

abbrev empty_tables : Tables
empty_tables = record { sessions = []; listeners = []; transcripts = [] }

empty-IsSound : IsSound empty_tables.sessions
empty-IsSound = record { consistent = tt; unique = tt }

abbrev requests : List (SessionStore × Request)
requests =
    (store, create session true 5_000_000)
    ∷ (store, go_live (codes "s1"))
    ∷ (store, arrive (codes "a") (codes "s1") (codes "fr") 6_000_000)
    ∷ (other, end (codes "s1") none 7_000_000)
    ∷ (store, end (codes "s1") none 65_400_000)
    ∷ []

run-IsSound_example : IsSound (run requests empty_tables).sessions
run-IsSound_example = run-IsSound requests empty_tables empty-IsSound

abbrev pub row : SessionRow
row = record {
  session_id = codes "s1";
  tenant_id = codes "1";
  event_name = codes "keynote";
  room_name = codes "hall";
  source_language = codes "en";
  target_languages = codes "fr" ∷ codes "hi" ∷ [];
  status = live;
  started_at = 5_000_000;
  ended_at = none;
  failure_reason = none;
  billed_seconds = none;
  billed_language_count = none;
  latency_credible = true;
  backend_stt = codes "fastconformer";
  backend_mt = codes "opus-mt";
  backend_tts = codes "piper";
}

abbrev pub tables : Tables
tables = record { sessions = row ∷ []; listeners = []; transcripts = [] }

pub tables-IsSound : IsSound tables.sessions
unfolding first
tables-IsSound = record {
  consistent = (still_open refl refl refl refl refl (λ e. omega (arith, e)), tt);
  unique = (refl, tt);
}

abbrev pub bill : SessionBilling
bill = record { session_id = codes "s1"; tenant_id = codes "1"; seconds = 61; language_count = 2 }

abbrev pub closed : Tables
closed = record {
  sessions =
      record row {
        status = ended;
        ended_at = some 65_400_000;
        billed_seconds = some 61;
        billed_language_count = some 2;
      }
      ∷ [];
  listeners = [];
  transcripts = [];
}

pub s1_ended : end_session store (codes "s1") none 65_400_000 tables ≡ (answer bill, closed)
unfolding end_session first update_where settle billed final_status
s1_ended = refl

abbrev afterwards : List (SessionStore × Request)
afterwards = (store, go_live (codes "s1")) ∷ (other, end (codes "s1") none 70_000_000) ∷ []

end_session-IsFinal_example :
    let later = run afterwards closed in
    ((r : SessionRow) × (get_session store (codes "s1") later ≡ some r)
      × (r.billed_seconds ≡ some 61)
      × (r.billed_language_count ≡ some 2))
    × ((reason' : Option Text) (now' : ℕ)
        → end_session store (codes "s1") reason' now' later ≡ (raised not_found, later))
end_session-IsFinal_example =
    end_session-IsFinal store (codes "s1") none 65_400_000 tables bill closed afterwards
      tables-IsSound s1_ended

s1_open : first (is_open (tenant_id store) (codes "s1")) tables.sessions ≡ some row
unfolding first
s1_open = refl

end_session-bill_example :
    (b : SessionBilling) × (end_session store (codes "s1") none 65_400_000 tables
      ≡ (answer b, after store (codes "s1") none 65_400_000 tables))
    × (65_400_000 ≤ 5_000_000 + b.seconds * 1_000_000)
    × (5_000_000 + b.seconds * 1_000_000 < 65_400_000 + 1_000_000)
    × (language_seconds b ≡ b.seconds * 2)
end_session-bill_example =
    end_session-bill store (codes "s1") none 65_400_000 tables row s1_open (omega arith)
      (omega arith) (omega arith)

abbrev meddling : List (SessionStore × Request)
meddling = (other, end (codes "s1") none 7_000_000) ∷ (other, depart (codes "a") 8_000_000) ∷ []

tenants_differ : tenant_id other ≢ tenant_id store
tenants_differ e = absurd (cc (ap (λ t. text_eq t (codes "1")) e))

run-isolated_example :
    let later = run meddling tables in
    (get_session store (codes "s1") later ≡ get_session store (codes "s1") tables)
    × (live_sessions store later ≡ live_sessions store tables)
    × (active_listeners store (codes "s1") later ≡ active_listeners store (codes "s1") tables)
run-isolated_example =
    run-isolated store meddling tables (codes "s1") (tenants_differ, (tenants_differ, tt))

abbrev pub with_listener : Tables
with_listener = record tables {
  listeners =
      record {
        listener_id = codes "a";
        session_id = codes "s1";
        tenant_id = codes "1";
        language = codes "fr";
        joined_at = 6_000_000;
        left_at = none;
      }
      ∷ [];
}

a_joined :
    listener_joined store (codes "a") (codes "s1") (codes "fr") 6_000_000 tables
    ≡ (answer (codes "a"), with_listener)
unfolding listener_joined first
a_joined = refl

listener_left-joined_example :
    active_listeners store (codes "s1") (listener_left store (codes "a") 9_000_000 with_listener)
    ≡ active_listeners store (codes "s1") tables
listener_left-joined_example =
    listener_left-joined store (codes "a") (codes "s1") (codes "fr") 6_000_000 tables (codes "a")
      with_listener 9_000_000 store (codes "s1") a_joined

abbrev spoken : TranscriptRow
spoken = record {
  chunk_id = 3;
  language = codes "fr";
  source_text = codes "hello";
  translated_text = some (codes "bonjour");
  t_audio_start = 1_000_000;
  t_audio_end = 2_000_000;
  latency_s = some 1_500_000;
  commit_reason = none;
  revised = false;
}

-- The other tenant has an earlier translation of the chunk in the schema.
abbrev before : Tables
before = record tables {
  transcripts =
      record {
        session_id = codes "s1";
        tenant_id = codes "2";
        row = record spoken {
          source_text = codes "hallo";
          translated_text = some (codes "salut");
          latency_s = none;
        };
      }
      ∷ [];
}
