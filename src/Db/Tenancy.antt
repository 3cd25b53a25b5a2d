-- ===== src/Db/Tenancy.antt =====
-- db/tenancy.py: the check of schema names and `TenantResolver`. What the database answers to the
-- one query is an argument, and so are the readings of the clock.
pub mod Names
pub mod Cache
use lad_translate.Common.{
  ltb, leb, ◌==◌, if◌then◌else◌, length, ℕ, ◌-◌, Bool, true, false, not, ◌&&◌, ◌||◌, Option, none,
  some, List, [], ◌∷◌,
}
use lad_translate.Common.Text.{Text, codes, member, is_between}
use lad_translate.Config.{Made, made, refused, TenantContext, new_context}
use lad_translate.Common.Dict
use lad_translate.Common.Dict.{Dict, text_key}

pub data SchemaError : Type 0 where
  empty_name unsafe_name reserved_name unknown_tenant inactive_tenant invalid_context : SchemaError

pub data Checked {ℓ} (A : Type ℓ) : Type ℓ where
  ok : A → Checked A
  error : SchemaError → Checked A

abbrev pub is_letter : ℕ → Bool
is_letter c = is_between 97 122 c

abbrev pub is_name_char : ℕ → Bool
is_name_char c = is_letter c || is_between 48 57 c || c == 95

abbrev pub all_name_chars : Text → Bool
all_name_chars [] = true
all_name_chars (c ∷ s) = is_name_char c && all_name_chars s

-- `[a-z][a-z0-9_]{0,62}`
unfoldable pub matches_body : Text → Bool
matches_body [] = false
matches_body (c ∷ s) = is_letter c && (all_name_chars s && leb (length s) 62)

-- `$` matches at the end, and before a newline that ends the text.
unfoldable pub before_newline : Text → Text
before_newline [] = []
before_newline (c ∷ []) = if c == 10 then [] else c ∷ []
before_newline (c ∷ (d ∷ s)) = c ∷ before_newline (d ∷ s)

abbrev pub reserved_schemas : List Text
reserved_schemas =
    codes "public" ∷ codes "information_schema" ∷ codes "pg_catalog" ∷ codes "pg_toast" ∷ []

unfoldable pub validate_schema : Text → Checked Text
unfolding matches_body before_newline
validate_schema name =
    if length name == 0
    then error empty_name
    else if not (matches_body (before_newline name))
    then error unsafe_name
    else if member name reserved_schemas
    then error reserved_name
    else ok name

pub record TenantRecord : Type 0 where
  pub tenant_id : Text
  pub slug : Text
  pub schema : Text
  pub is_active : Bool

pub record TenantResolver : Type 0 where
  pub control_schema : Text
  pub ttl_s : ℕ
  pub cache : Dict Text (ℕ × TenantRecord)

unfoldable pub new_resolver : Text → ℕ → Checked TenantResolver
unfolding validate_schema
new_resolver control_schema ttl_s = elim (validate_schema control_schema) [
  | ok name ↦ ok (record { control_schema = name; ttl_s = ttl_s; cache = [] })
  | error e ↦ error e
]

-- What becomes of a row, by the check of its schema.
abbrev pub remember :
    TenantResolver → Text → TenantRecord → ℕ → Checked Text → Checked TenantRecord × TenantResolver
remember r tenant_id row later (error e) = (error e, r)
remember r tenant_id row later (ok name) =
    let found : TenantRecord = record row { schema = name } in
    (ok found, record r { cache = Dict.insert tenant_id (later, found) r.cache })

-- The row of `tenants`, if there is one. Its `schema` is not checked yet.
unfoldable pub fetched :
    TenantResolver → Text → Option TenantRecord → ℕ → Checked TenantRecord × TenantResolver
fetched r tenant_id none later = (error unknown_tenant, r)
fetched r tenant_id (some row) later = remember r tenant_id row later (validate_schema row.schema)

-- What `lookup` answers, by the entry of the cache.
abbrev pub answered :
    TenantResolver
    → Text
    → ℕ
    → Option TenantRecord
    → ℕ
    → Option (ℕ × TenantRecord)
    → Checked TenantRecord × TenantResolver
answered r tenant_id now row later none = fetched r tenant_id row later
answered r tenant_id now row later (some (stored, found)) =
    if ltb (now - stored) r.ttl_s then (ok found, r) else fetched r tenant_id row later

-- `now` is the clock before the query, and `later` the clock behind it.
unfoldable pub lookup :
    TenantResolver → Text → ℕ → Option TenantRecord → ℕ → Checked TenantRecord × TenantResolver
lookup r tenant_id now row later =
    answered r tenant_id now row later (Dict.lookup tenant_id r.cache)

-- The ValueError of the context's own check is an error like the others.
abbrev pub checked_context : Made TenantContext → Checked TenantContext
checked_context (made c) = ok c
checked_context (refused e) = error invalid_context

-- The context of a record that was found.
abbrev pub context_of : Text → Checked TenantRecord → Checked TenantContext
context_of database_url (error e) = error e
context_of database_url (ok t) =
    if t.is_active
    then checked_context (new_context t.tenant_id database_url t.schema)
    else error inactive_tenant

unfoldable pub resolve :
    TenantResolver
    → Text
    → Text
    → ℕ
    → Option TenantRecord
    → ℕ
    → Checked TenantContext × TenantResolver
unfolding lookup new_context
resolve r tenant_id database_url now row later =
    let found = lookup r tenant_id now row later in (context_of database_url found.0, found.1)

unfoldable pub invalidate : TenantResolver → Option Text → TenantResolver
invalidate r none = record r { cache = [] }
invalidate r (some tenant_id) = record r { cache = Dict.erase tenant_id r.cache }
