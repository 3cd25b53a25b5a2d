-- ===== src/Api/Join/Opened.antt =====
-- The store that api/join.py opens for a row of the tenants.
use lad_translate.Api.Join.{
  App, Database, with_tables, store_and_tables, store_of_context, open_store,
}
use lad_translate.Config.{TenantContext, Made, made, refused, new_context}
use lad_translate.Config.Contexts.{new_context-made}
use lad_translate.Db.Tenancy.{Checked, ok, error, validate_schema}
use lad_translate.Db.Sessions.{SessionStore, Tables, new_store, tenant_id}
use lad_translate.Common.Dict
use lad_translate.Common.Dict.{Dict, text_key}
use lad_translate.Common.Text.{Text}
use lad_translate.Common.{◌≡◌, refl, sym, ap, ◌∙◌, subst, Option, none, some, []}

abbrev store_or : SessionStore → Checked SessionStore → SessionStore
store_or d (ok store) = store
store_or d (error e) = d

new_store-ok :
    (context : TenantContext) (store : SessionStore)
    → new_store context ≡ ok store
    → store.tenant ≡ context
unfolding new_store
new_store-ok context store e = by_check (validate_schema context.schema) e
  where
    by_check :
        (o : Checked Text)
        → Path
            (Checked SessionStore)
            (elim o [
              | ok name ↦ ok (record { tenant = context; schema = name })
              | error x ↦ error x
            ])
            (ok store)
        → store.tenant ≡ context
    by_check (ok name) h =
        sym (ap (λ o. (store_or (record { tenant = context; schema = [] }) o).tenant) h)
    by_check (error x) h = absurd (cc h)

abbrev pair_or : SessionStore × Tables → Option (SessionStore × Tables) → SessionStore × Tables
pair_or d none = d
pair_or d (some p) = p

-- A store that is opened for a row of the tenants is that tenant's, with the tables of its schema.
pub record Opens (app : App) (db : Database) (tenant : Text) (store : SessionStore) (t : Tables)
    : Type 0 where
  pub belongs : tenant_id store ≡ tenant
  pub holds : Dict.lookup store.schema db ≡ some t

pub open_store-Opens :
    (app : App) (db : Database) (row : Text × Text) (store : SessionStore) (t : Tables)
    → open_store app db row ≡ some (store, t)
    → Opens app db row.0 store t
unfolding open_store store_of_context store_and_tables
open_store-Opens app db row store t e = by_context (new_context row.0 app.database_url row.1) refl e
  where
    by_tables :
        (s : SessionStore) (o : Option Tables)
        → Dict.lookup s.schema db ≡ o
        → tenant_id s ≡ row.0
        → with_tables s o ≡ some (store, t)
        → Opens app db row.0 store t
    by_tables s none f own h = absurd (cc h)
    by_tables s (some u) f own h =
        let same : (s, u) ≡ (store, t) = ap (pair_or (s, u)) h in
        subst (λ p. Opens app db row.0 p.0 p.1) same (record { belongs = own; holds = f })

    by_store :
        (c : TenantContext) (o : Checked SessionStore)
        → new_store c ≡ o
        → c.tenant_id ≡ row.0
        → store_and_tables db o ≡ some (store, t)
        → Opens app db row.0 store t
    by_store c (error x) f own h = absurd (cc h)
    by_store c (ok s) f own h =
        by_tables s (Dict.lookup s.schema db) refl
          (ap (λ context. context.tenant_id) (new_store-ok c s f) ∙ own) h

    by_context :
        (m : Made TenantContext)
        → new_context row.0 app.database_url row.1 ≡ m
        → store_of_context db m ≡ some (store, t)
        → Opens app db row.0 store t
    by_context (refused x) f h = absurd (cc h)
    by_context (made c) f h =
        by_store c (new_store c) refl
          (ap (λ context. context.tenant_id) (new_context-made row.0 app.database_url row.1 c f)) h
