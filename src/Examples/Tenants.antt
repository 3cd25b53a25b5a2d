-- ===== src/Examples/Tenants.antt =====
-- The tenancy theorems with one tenant.
use lad_translate.Common.{◌≡◌, refl, true, none, some, List, [], ◌∷◌}
use lad_translate.Common.Text.{codes}
use lad_translate.Common.Dict
use lad_translate.Common.Dict.{Dict, text_key}
use lad_translate.Config.{TenantContext}
use lad_translate.Db.Tenancy.{ok, validate_schema, TenantRecord, TenantResolver, fetched, resolve}
use lad_translate.Db.Tenancy.Names.{IsAccepted, validate_schema-IsAccepted}
use lad_translate.Db.Tenancy.Cache.{Call, looks_up, calls, resolve-IsAccepted}

abbrev acme : TenantRecord
acme = record {
  tenant_id = codes "1";
  slug = codes "acme";
  schema = codes "lad_acme";
  is_active = true;
}

abbrev resolver : TenantResolver
resolver = record { control_schema = codes "lad"; ttl_s = 300; cache = [] }

acme_accepted : validate_schema (codes "lad_acme") ≡ ok (codes "lad_acme")
unfolding validate_schema
acme_accepted = refl

validate_schema-IsAccepted_example :
    (codes "lad_acme" ≡ codes "lad_acme") × IsAccepted (codes "lad_acme")
validate_schema-IsAccepted_example =
    validate_schema-IsAccepted (codes "lad_acme") (codes "lad_acme") acme_accepted

abbrev before : List Call
before = looks_up (codes "1") 10 (some acme) 11 ∷ []

abbrev context : TenantContext
context = record { tenant_id = codes "1"; database_url = codes "db"; schema = codes "lad_acme" }

context_resolved :
    (resolve (calls resolver before) (codes "1") (codes "db") 20 none 21).0 ≡ ok context
unfolding resolve Dict.lookup calls fetched validate_schema Dict.insert
context_resolved = refl

resolve-IsAccepted_example : IsAccepted context.schema
resolve-IsAccepted_example =
    resolve-IsAccepted resolver before (codes "1") (codes "db") 20 none 21 context refl
      context_resolved

abbrev filled : TenantResolver
filled = record resolver { cache = (codes "1", (11, acme)) ∷ [] }
