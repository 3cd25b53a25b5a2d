-- ===== src/Config/Contexts.antt =====
-- The check of `TenantContext` in config.py.
use lad_translate.Config.{
  Made, made, refused, no_tenant_id, no_database_url, no_schema, TenantContext, new_context,
}
use lad_translate.Common.Text.{Text}
use lad_translate.Common.{◌==◌, if◌then◌else◌, length, ◌≡◌, sym, ap, Bool, true, false}

abbrev context_or : TenantContext → Made TenantContext → TenantContext
context_or d (made c) = c
context_or d (refused e) = d

-- A context that passes holds what it was given.
pub new_context-made :
    (tenant_id url schema : Text) (c : TenantContext)
    → new_context tenant_id url schema ≡ made c
    → c ≡ record { tenant_id = tenant_id; database_url = url; schema = schema }
unfolding new_context
new_context-made tenant_id url schema c h =
    by_tests (length tenant_id == 0) (length url == 0) (length schema == 0) h
  where
    given : TenantContext
    given = record { tenant_id = tenant_id; database_url = url; schema = schema }

    by_tests :
        (a b d : Bool)
        → (if a
            then refused no_tenant_id
            else if b
            then refused no_database_url
            else if d
            then refused no_schema
            else made given)
          ≡ made c
        → c ≡ given
    by_tests true b d e = absurd (cc e)
    by_tests false true d e = absurd (cc e)
    by_tests false false true e = absurd (cc e)
    by_tests false false false e = sym (ap (context_or given) e)
