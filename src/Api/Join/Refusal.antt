-- ===== src/Api/Join/Refusal.antt =====
-- Requests that api/join.py refuses: a second speaker, and every request for a token where the
-- service has no issuer.
use lad_translate.Api.Join.{
  Response, response, http, conflict, gone, not_found, internal_error, App, Database, open_store,
  found_or, searched, search_tenants, load_session, load_room, client_url, active_tenants,
  first_in_room,
}
use lad_translate.Api.Join.Grants.{JoinGrant, issue_speaker, speak_grant}
use lad_translate.Api.Join.Handlers.{joined_for, spoken_for, join, room_join, speak, room_speak}
use lad_translate.Api.Languages.{Casing}
use lad_translate.Api.Tokens.{Claims, TokenIssuer}
use lad_translate.Api.Rooms.{source_track_name, published_languages}
use lad_translate.Api.Rooms.Published.{is_published, member-published_languages}
use lad_translate.Db.Sessions.{SessionRow, SessionStore, Tables, get_session}
use lad_translate.Db.Sessions.Live.{is_live, live_sessions}
use lad_translate.Common.Text.{Text, member}
use lad_translate.Common.{
  Bool-cases, ℕ, ◌≡◌, refl, ◌∙◌, ◌⊎◌, inl, inr, true, false, Option, none, some, List, [], ◌∷◌,
}

-- A speaker of a session that the service has loaded is given a token, if it has an issuer, exactly
-- when the session is starting or live and no participant of its room publishes the source track:
-- otherwise the answer is 410 for a session that is over, and 409 for a second speaker.
pub issue_speaker-exclusive :
    (sign : Claims → Text) (app : App) (session : SessionRow) (url : Text)
    (participants : List (List Text)) (i : TokenIssuer)
    → app.issuer ≡ some i
    → ((is_live session.status ≡ false)
        × (issue_speaker sign app session url (some participants) ≡ http gone))
      ⊎ ((is_published source_track_name participants ≡ true)
          × (issue_speaker sign app session url (some participants) ≡ http conflict))
      ⊎ ((is_live session.status ≡ true)
          × (is_published source_track_name participants ≡ false)
          × (issue_speaker sign app session url (some participants)
              ≡ response (speak_grant sign i session url)))
unfolding issue_speaker
issue_speaker-exclusive sign app session url participants i known =
    rw known (elim (Bool-cases (is_live session.status)) [
      | inr l ↦ inl (l, rw l refl)
      | inl l ↦ elim (Bool-cases (is_published source_track_name participants)) [
        | inl p ↦ inr (inl (p, rw (l, found ∙ p) refl))
        | inr p ↦ inr (inr (l, p, rw (l, found ∙ p) refl))
      ]
    ])
  where
    found :
        member source_track_name (published_languages (some participants))
        ≡ is_published source_track_name participants
    found = member-published_languages source_track_name (some participants)

-- 404 or 500.
abbrev pub IsFailed {ℓ} : {A : Type ℓ} → Response A → Type ℓ
IsFailed r = (r ≡ http not_found) ⊎ (r ≡ http internal_error)

-- The answer is 404 or 500, and nothing is written.
abbrev pub IsRefused : Database → Response JoinGrant × Database → Type 0
IsRefused db out = IsFailed out.0 × (out.1 ≡ db)

-- A search finds a session or ends in 404 or 500.
abbrev IsSearched : Response (SessionStore × SessionRow) → Type 0
IsSearched r = ((x : SessionStore × SessionRow) × (r ≡ response x)) ⊎ IsFailed r

search_tenants-IsSearched :
    (find : SessionStore → Tables → Option SessionRow) (app : App) (db : Database)
    (tenants : List (Text × Text))
    → IsSearched (search_tenants find app db tenants)
unfolding search_tenants
search_tenants-IsSearched find app db [] = inr (inl refl)
search_tenants-IsSearched find app db (tenant ∷ tenants) =
    by_store (open_store app db tenant) (search_tenants-IsSearched find app db tenants)
  where
    rest : Response (SessionStore × SessionRow)
    rest = search_tenants find app db tenants

    by_row :
        (store : SessionStore) (o : Option SessionRow)
        → IsSearched rest
        → IsSearched (found_or rest store o)
    by_row store none h = h
    by_row store (some session) h = inl ((store, session), refl)

    by_store :
        (o : Option (SessionStore × Tables)) → IsSearched rest → IsSearched (searched find rest o)
    by_store none h = inr (inr refl)
    by_store (some (store, t)) h = by_row store (find store t) h

module _ (c : Casing) (sign : Claims → Text) (tracks : Text → Option (List (List Text))) (app : App)
    (db : Database) (host : Text) where
  joined-IsRefused :
      (language lid : Text) (now : ℕ) (found : Response (SessionStore × SessionRow))
      → IsSearched found
      → IsRefused db (joined_for c tracks app sign language lid now db (http internal_error) found)
  joined-IsRefused language lid now found (inl (x, e)) = rw e (inr refl, refl)
  joined-IsRefused language lid now found (inr (inl e)) = rw e (inl refl, refl)
  joined-IsRefused language lid now found (inr (inr e)) = rw e (inr refl, refl)

  spoken-IsFailed :
      (found : Response (SessionStore × SessionRow))
      → IsSearched found
      → IsFailed (spoken_for c tracks app sign (http internal_error) found)
  spoken-IsFailed found (inl (x, e)) = rw e (inr refl)
  spoken-IsFailed found (inr (inl e)) = rw e (inl refl)
  spoken-IsFailed found (inr (inr e)) = rw e (inr refl)

  load_session-IsSearched :
      (sid : Text) → app.has_pool ≡ true → IsSearched (load_session app db sid)
  unfolding load_session
  load_session-IsSearched sid pool = rw pool (
      search_tenants-IsSearched (λ store t. get_session store sid t) app db
        (active_tenants app.tenants))

  load_room-IsSearched : (room : Text) → app.has_pool ≡ true → IsSearched (load_room app db room)
  unfolding load_room
  load_room-IsSearched room pool = rw pool (
      search_tenants-IsSearched (λ store t. first_in_room store t room (live_sessions store t)) app
        db (active_tenants app.tenants))

  no_url : app.issuer ≡ none → client_url c app host ≡ http internal_error
  unfolding client_url
  no_url unset = rw unset refl

  -- Where the service has a database but no issuer, no request to join or to speak, by the id of a
  -- session or by a room, is answered by the 503 that the code means it to give: each is refused with
  -- 404 or 500, whatever the tables hold, and nothing is written.
  pub join-unconfigured :
      (sid room language lid : Text) (now : ℕ)
      → app.has_pool ≡ true
      → app.issuer ≡ none
      → IsRefused db (join c tracks app sign db sid language host lid now)
        × IsRefused db (room_join c tracks app sign db room language host lid now)
        × IsFailed (speak c tracks app sign db sid host)
        × IsFailed (room_speak c tracks app sign db room host)
  unfolding join room_join speak room_speak
  join-unconfigured sid room language lid now pool unset =
      let s = load_session-IsSearched sid pool in
      let r = load_room-IsSearched room pool in
      rw (no_url unset) (
        joined-IsRefused language lid now (load_session app db sid) s,
        joined-IsRefused language lid now (load_room app db room) r,
        spoken-IsFailed (load_session app db sid) s,
        spoken-IsFailed (load_room app db room) r,
      )
