-- ===== src/Api/Join/Admission.antt =====
-- Listeners who are let in by api/join.py, from the request to the counts of the session.
use lad_translate.Api.Join.{
  Response, response, http, HttpError, bad_request, gone, internal_error, unavailable, App,
  Database, load_session, client_url,
}
use lad_translate.Api.Join.Grants.{
  JoinGrant, is_offered, join_grant, registered, register, issue_to_listener, issue_listener,
}
use lad_translate.Api.Join.Handlers.{joined_for, join}
use lad_translate.Api.Languages.{Casing}
use lad_translate.Api.Tokens.{Claims, TokenIssuer, listener_claims, for_listener}
use lad_translate.Db.Sessions.{SessionRow, SessionStore, Tables, Answer, answer, raised}
use lad_translate.Db.Sessions.Live.{is_live}
use lad_translate.Db.Sessions.Listeners.{listener_joined, active_listeners, count_of}
use lad_translate.Db.Sessions.Presence.{listener_joined-counted}
use lad_translate.Common.Dict
use lad_translate.Common.Dict.{Dict, text_key}
use lad_translate.Common.Text.{Text, text_eq, text_eq_refl}
use lad_translate.Common.{
  if◌then◌else◌, Bool-cases, ℕ, ◌+◌, ◌≡◌, refl, sym, ap, ◌∙◌, subst, inl, inr, true, false, Option,
  none, some, List,
}

abbrev grant_or : JoinGrant → Response JoinGrant → JoinGrant
grant_or d (http e) = d
grant_or d (response g) = g

pair_eq :
    (h g : JoinGrant) (db later : Database)
    → Path (Response JoinGrant × Database) (response h, db) (response g, later)
    → Path (JoinGrant × Database) (h, db) (g, later)
pair_eq h g db later e = ap (λ p. (grant_or h p.0, p.1)) e

module _ (sign : Claims → Text) (app : App) (store : SessionStore) (session : SessionRow)
    (language url lid : Text) (now : ℕ) (db : Database) where
  -- What was so when a listener was let in, and what is so after it.
  pub record Admitted (g : JoinGrant) (later : Database) : Type 0 where
    pub issuer : TokenIssuer
    pub known : app.issuer ≡ some issuer
    pub tables : Tables
    pub tables' : Tables
    pub is_running : is_live session.status ≡ true
    pub offered : is_offered session language ≡ true
    pub before : Dict.lookup store.schema db ≡ some tables
    pub after : Dict.lookup store.schema later ≡ some tables'
    pub inserted :
        listener_joined store lid session.session_id language now tables
        ≡ (answer g.listener_id, tables')
    pub granted : g ≡ join_grant sign issuer session language url g.listener_id

  pub data Admission (out : Response JoinGrant × Database) : Type 0 where
    refused : (e : HttpError) → out ≡ (http e, db) → Admission out
    admitted :
        (g : JoinGrant) (later : Database)
        → out ≡ (response g, later)
        → Admitted g later
        → Admission out

  -- A listener is refused and nothing is written, or is let in to a session that is running.
  issue_listener-Admission :
      Admission (issue_listener sign app store session language url lid now db)
  unfolding issue_listener join_grant
  issue_listener-Admission = by_issuer app.issuer refl
    where
      by_insert :
          (i : TokenIssuer) (t : Tables) (o : Answer Text × Tables)
          → is_live session.status ≡ true
          → is_offered session language ≡ true
          → Dict.lookup store.schema db ≡ some t
          → listener_joined store lid session.session_id language now t ≡ o
          → app.issuer ≡ some i
          → Admission (registered sign i store session language url db o)
      by_insert i t (raised e, u) live offered f h known = refused internal_error refl
      by_insert i t (answer id, u) live offered f h known =
          admitted (join_grant sign i session language url id) (Dict.insert store.schema u db) refl
            (record {
              issuer = i;
              known = known;
              tables = t;
              tables' = u;
              is_running = live;
              offered = offered;
              before = f;
              after =
                  Dict.lookup-insert store.schema store.schema u db
                  ∙ rw (text_eq_refl store.schema) refl;
              inserted = h;
              granted = refl;
            })

      by_tables :
          (i : TokenIssuer) (o : Option Tables)
          → is_live session.status ≡ true
          → is_offered session language ≡ true
          → Dict.lookup store.schema db ≡ o
          → app.issuer ≡ some i
          → Admission (register sign i store session language url lid now db o)
      by_tables i none live offered f known = refused internal_error refl
      by_tables i (some t) live offered f known =
          by_insert i t (listener_joined store lid session.session_id language now t) live offered f
            refl known

      by_issuer :
          (o : Option TokenIssuer)
          → app.issuer ≡ o
          → Admission (issue_to_listener sign store session language url lid now db o)
      by_issuer none known = refused unavailable refl
      by_issuer (some i) known = elim (Bool-cases (is_live session.status)) [
        | inr l ↦ refused gone (rw l refl)
        | inl l ↦ elim (Bool-cases (is_offered session language)) [
          | inr o ↦ refused bad_request (rw (l, o) refl)
          | inl o ↦ rw (l, o) (by_tables i (Dict.lookup store.schema db) l o refl known)
        ]
      ]

  issue_listener-Admitted :
      (g : JoinGrant) (later : Database)
      → issue_listener sign app store session language url lid now db ≡ (response g, later)
      → Admitted g later
  issue_listener-Admitted g later e = by_admission issue_listener-Admission
    where
      by_admission :
          Admission (issue_listener sign app store session language url lid now db)
          → Admitted g later
      by_admission (refused x f) = absurd (cc (ap (λ p. p.0) (sym f ∙ e)))
      by_admission (admitted h db' f a) =
          subst (λ p. Admitted p.0 p.1) (pair_eq h g db' later (sym f ∙ e)) a

-- What `join` answers with a grant, it got from the session with the id and a client's URL.
record Joined (sign : Claims → Text) (app : App) (sid language lid : Text) (now : ℕ) (db : Database)
    (g : JoinGrant) (later : Database) : Type 0 where
  store : SessionStore
  session : SessionRow
  url : Text
  loaded : load_session app db sid ≡ response (store, session)
  admitted : Admitted sign app store session language url lid now db g later

join-Joined :
    (c : Casing) (sign : Claims → Text) (tracks : Text → Option (List (List Text))) (app : App)
    (db : Database) (sid language host lid : Text) (now : ℕ) (g : JoinGrant) (later : Database)
    → join c tracks app sign db sid language host lid now ≡ (response g, later)
    → Joined sign app sid language lid now db g later
unfolding join
join-Joined c sign tracks app db sid language host lid now g later e =
    by_parts (client_url c app host) (load_session app db sid) refl e
  where
    by_parts :
        (url : Response Text) (found : Response (SessionStore × SessionRow))
        → load_session app db sid ≡ found
        → joined_for c tracks app sign language lid now db url found ≡ (response g, later)
        → Joined sign app sid language lid now db g later
    by_parts url (http x) f h = absurd (cc (ap (λ p. p.0) h))
    by_parts (http x) (response found) f h = absurd (cc (ap (λ p. p.0) h))
    by_parts (response url) (response (store, session)) f h = record {
      store = store;
      session = session;
      url = url;
      loaded = f;
      admitted = issue_listener-Admitted sign app store session language url lid now db g later h;
    }

-- A listener whom `join` gives a grant is let in to the session with the id while it is starting or
-- live, for a language that it offers; what the token says, under the key and the secret of the
-- issuer, is that its holder may join the session's room and no other, and subscribe there, but not
-- publish audio or data; and the session's count of listeners grows by one for the language and for no
-- other.
pub join-admits :
    (c : Casing) (sign : Claims → Text) (tracks : Text → Option (List (List Text))) (app : App)
    (db : Database) (sid language host lid : Text) (now : ℕ) (g : JoinGrant) (later : Database)
    → join c tracks app sign db sid language host lid now ≡ (response g, later)
    → (store : SessionStore) × (session : SessionRow) × (load_session app db sid
        ≡ response (store, session))
      × (is_live session.status ≡ true)
      × (is_offered session language ≡ true)
      × ((i : TokenIssuer) × (app.issuer ≡ some i)
          × (says : Claims) × (g.token ≡ sign says)
          × (says.api_key ≡ i.api_key)
          × (says.api_secret ≡ i.api_secret)
          × (says.grants.room_join ≡ true)
          × (says.grants.room ≡ session.room_name)
          × (says.grants.can_subscribe ≡ true)
          × (says.grants.can_publish ≡ false)
          × (says.grants.can_publish_data ≡ false))
      × ((t : Tables) × (u : Tables) × (Dict.lookup store.schema db ≡ some t)
          × (Dict.lookup store.schema later ≡ some u)
          × ((l : Text)
              → count_of l (active_listeners store session.session_id u)
                ≡ count_of l (active_listeners store session.session_id t)
                  + (if text_eq language l then 1 else 0)))
unfolding join_grant for_listener listener_claims
join-admits c sign tracks app db sid language host lid now g later e =
    let j = join-Joined c sign tracks app db sid language host lid now g later e in
    let a = j.admitted in
    (
      j.store,
      j.session,
      j.loaded,
      a.is_running,
      a.offered,
      (
        a.issuer,
        a.known,
        listener_claims sign a.issuer j.session.room_name language g.listener_id,
        ap (λ x. x.token) a.granted,
        refl,
        refl,
        refl,
        refl,
        refl,
        refl,
        refl,
      ),
      (
        a.tables,
        a.tables',
        a.before,
        a.after,
        λ l.
            listener_joined-counted j.store lid j.session.session_id language now a.tables
              g.listener_id l a.tables' a.inserted,
      ),
    )
