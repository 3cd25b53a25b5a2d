-- ===== src/Api/Join/Owned.antt =====
-- The session that the handlers of api/join.py load, and the tenant that it belongs to.
use lad_translate.Api.Join.{
  Response, response, http, unavailable, App, Database, open_store, found_or, searched,
  search_tenants, load_session, if_in_room, first_in_room, load_room, TenantEntry, active_tenants,
}
use lad_translate.Db.Sessions.{SessionRow, SessionStore, Tables, get_session, tenant_id, is_session}
use lad_translate.Db.Sessions.Live.{live_sessions}
use lad_translate.Db.Sql.{first-holds}
use lad_translate.Common.Dict
use lad_translate.Common.Dict.{Dict, text_key}
use lad_translate.Common.Text.{Text, text_eq, text_eq→eq, text_eq_refl, member}
use lad_translate.Common.{
  if◌then◌else◌, Bool-cases, ◌≡◌, refl, sym, ap, ◌∙◌, subst, inl, inr, Bool, true, false, ◌&&◌,
  ◌||◌, Option, none, some, List, [], ◌∷◌, arith,
}
use lad_translate.Api.Join.Opened.{Opens, open_store-Opens}

abbrev result_or :
    SessionStore × SessionRow → Response (SessionStore × SessionRow) → SessionStore × SessionRow
result_or d (http e) = d
result_or d (response p) = p

abbrev pub ids_of : List (Text × Text) → List Text
ids_of [] = []
ids_of (row ∷ rows) = row.0 ∷ ids_of rows

-- Whether a row of the control plane says that the tenant is active.
abbrev pub has_active : Text → List TenantEntry → Bool
has_active id [] = false
has_active id (entry ∷ rest) = (entry.is_active && text_eq id entry.id) || has_active id rest

member-active_tenants :
    (id : Text) (entries : List TenantEntry)
    → member id (ids_of (active_tenants entries)) ≡ has_active id entries
unfolding active_tenants
member-active_tenants id [] = refl
member-active_tenants id (entry ∷ rest) = elim (Bool-cases entry.is_active) [
  | inl q ↦ rw q (ground (arith, member-active_tenants id rest))
  | inr q ↦ rw q (member-active_tenants id rest)
]

-- The store is that of one of the tenants, and found the session in the tables of its schema.
record Finds (find : SessionStore → Tables → Option SessionRow) (db : Database)
    (tenants : List (Text × Text)) (store : SessionStore) (session : SessionRow) : Type 0 where
  tables : Tables
  holds : Dict.lookup store.schema db ≡ some tables
  found : find store tables ≡ some session
  active : member (tenant_id store) (ids_of tenants) ≡ true

search_tenants-Finds :
    (find : SessionStore → Tables → Option SessionRow) (app : App) (db : Database)
    (tenants : List (Text × Text)) (store : SessionStore) (session : SessionRow)
    → search_tenants find app db tenants ≡ response (store, session)
    → Finds find db tenants store session
unfolding search_tenants
search_tenants-Finds find app db [] store session e = absurd (cc e)
search_tenants-Finds find app db (row ∷ rows) store session e =
    by_open (open_store app db row) refl
      (λ h. search_tenants-Finds find app db rows store session h) e
  where
    later : Finds find db rows store session → Finds find db (row ∷ rows) store session
    later f = record {
      tables = f.tables;
      holds = f.holds;
      found = f.found;
      active = ground (arith, f.active);
    }

    by_row :
        (s : SessionStore) (t : Tables) (o : Option SessionRow)
        → find s t ≡ o
        → Opens app db row.0 s t
        → (search_tenants find app db rows ≡ response (store, session)
            → Finds find db rows store session)
        → found_or (search_tenants find app db rows) s o ≡ response (store, session)
        → Finds find db (row ∷ rows) store session
    by_row s t none f opens ih h = later (ih h)
    by_row s t (some x) f opens ih h =
        let same : (s, x) ≡ (store, session) = ap (result_or (s, x)) h in
        subst (λ p. Finds find db (row ∷ rows) p.0 p.1) same
          (record {
            tables = t;
            holds = opens.holds;
            found = f;
            active = rw (opens.belongs, text_eq_refl row.0) refl;
          })

    by_open :
        (o : Option (SessionStore × Tables))
        → open_store app db row ≡ o
        → (search_tenants find app db rows ≡ response (store, session)
            → Finds find db rows store session)
        → searched find (search_tenants find app db rows) o ≡ response (store, session)
        → Finds find db (row ∷ rows) store session
    by_open none f ih h = absurd (cc h)
    by_open (some (s, t)) f ih h =
        by_row s t (find s t) refl (open_store-Opens app db row s t f) ih h

get_session-found :
    (store : SessionStore) (sid : Text) (t : Tables) (session : SessionRow)
    → get_session store sid t ≡ some session
    → (session.session_id ≡ sid) × (session.tenant_id ≡ tenant_id store)
unfolding get_session
get_session-found store sid t session e =
    let h = first-holds (is_session (tenant_id store) sid) t.sessions session e in
    (text_eq→eq _ _ (ground (arith, h)), text_eq→eq _ _ (ground (arith, h)))

-- A session that a request names by its id is the one with that id, of a tenant that is active in
-- the control plane, in the tables of the schema of that tenant's store: the tenant comes from the row, not the request.
pub load_session-owned :
    (app : App) (db : Database) (sid : Text) (store : SessionStore) (session : SessionRow)
    → load_session app db sid ≡ response (store, session)
    → (session.session_id ≡ sid)
      × (session.tenant_id ≡ tenant_id store)
      × (has_active (tenant_id store) app.tenants ≡ true)
      × ((t : Tables) × (Dict.lookup store.schema db ≡ some t)
          × (get_session store sid t ≡ some session))
unfolding load_session
load_session-owned app db sid store session e = by_pool app.has_pool e
  where
    find : SessionStore → Tables → Option SessionRow
    find s t = get_session s sid t

    by_pool :
        (b : Bool)
        → (if b then search_tenants find app db (active_tenants app.tenants) else http unavailable)
          ≡ response (store, session)
        → (session.session_id ≡ sid)
          × (session.tenant_id ≡ tenant_id store)
          × (has_active (tenant_id store) app.tenants ≡ true)
          × ((t : Tables) × (Dict.lookup store.schema db ≡ some t)
              × (get_session store sid t ≡ some session))
    by_pool false h = absurd (cc h)
    by_pool true h =
        let f = search_tenants-Finds find app db (active_tenants app.tenants) store session h in
        let s = get_session-found store sid f.tables session f.found in
        (
          s.0,
          s.1,
          sym (member-active_tenants (tenant_id store) app.tenants) ∙ f.active,
          (f.tables, f.holds, f.found),
        )

first_in_room-found :
    (store : SessionStore) (t : Tables) (room : Text) (rows : List SessionRow)
    (session : SessionRow)
    → first_in_room store t room rows ≡ some session
    → (session.room_name ≡ room) × (session.tenant_id ≡ tenant_id store)
unfolding first_in_room
first_in_room-found store t room [] session e = absurd (cc e)
first_in_room-found store t room (row ∷ rows) session e =
    by_row (get_session store row.session_id t) refl (first_in_room-found store t room rows session)
      e
  where
    by_row :
        (o : Option SessionRow)
        → get_session store row.session_id t ≡ o
        → (first_in_room store t room rows ≡ some session
            → (session.room_name ≡ room) × (session.tenant_id ≡ tenant_id store))
        → if_in_room room (first_in_room store t room rows) o ≡ some session
        → (session.room_name ≡ room) × (session.tenant_id ≡ tenant_id store)
    by_row none f ih h = ih h
    by_row (some x) f ih h = elim (Bool-cases (text_eq x.room_name room)) [
      | inl g ↦
          let same : x ≡ session =
            ap (λ o. elim o [ none ↦ x | some y ↦ y ])
              (subst (λ b. (if b then some x else first_in_room store t room rows) ≡ some session) g
                h) in
          subst (λ y. (y.room_name ≡ room) × (y.tenant_id ≡ tenant_id store)) same
            (text_eq→eq _ _ g, (get_session-found store row.session_id t x f).1)
      | inr g ↦
          ih (
            subst (λ b. (if b then some x else first_in_room store t room rows) ≡ some session) g h)
    ]

-- A session that a request names by its room is in that room, and belongs to an active tenant, whose
-- store is used from then on.
pub load_room-owned :
    (app : App) (db : Database) (room : Text) (store : SessionStore) (session : SessionRow)
    → load_room app db room ≡ response (store, session)
    → (session.room_name ≡ room)
      × (session.tenant_id ≡ tenant_id store)
      × (has_active (tenant_id store) app.tenants ≡ true)
unfolding load_room
load_room-owned app db room store session e = by_pool app.has_pool e
  where
    find : SessionStore → Tables → Option SessionRow
    find s t = first_in_room s t room (live_sessions s t)

    by_pool :
        (b : Bool)
        → (if b then search_tenants find app db (active_tenants app.tenants) else http unavailable)
          ≡ response (store, session)
        → (session.room_name ≡ room)
          × (session.tenant_id ≡ tenant_id store)
          × (has_active (tenant_id store) app.tenants ≡ true)
    by_pool false h = absurd (cc h)
    by_pool true h =
        let f = search_tenants-Finds find app db (active_tenants app.tenants) store session h in
        let s =
          first_in_room-found store f.tables room (live_sessions store f.tables) session f.found in
        (s.0, s.1, sym (member-active_tenants (tenant_id store) app.tenants) ∙ f.active)
