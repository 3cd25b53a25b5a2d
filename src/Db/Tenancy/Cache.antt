-- ===== src/Db/Tenancy/Cache.antt =====
-- What a resolver may answer: only records with an accepted schema, and none that has outlived its
-- time in the cache.
use lad_translate.Config.Contexts.{new_context-made}
use lad_translate.Common.{
  ltb, if◌then◌else◌, le→ltb-false, ℕ, ◌+◌, ◌-◌, ◌≤◌, ◌≡◌, refl, sym, ap, ◌∙◌, subst, Bool, true,
  false, Option, none, some, List, [], ◌∷◌, arith,
}
use lad_translate.Common.Text.{Text, text_eq}
use lad_translate.Common.Dict
use lad_translate.Common.Dict.{Dict, text_key}
use lad_translate.Config.{Made, made, refused, TenantContext, new_context}
use lad_translate.Db.Tenancy.{
  checked_context, context_of, TenantContext, Checked, ok, error, inactive_tenant, TenantRecord,
  TenantResolver, remember, fetched, answered, lookup, resolve, invalidate, validate_schema,
}
use lad_translate.Db.Tenancy.Names.{IsAccepted, validate_schema-IsAccepted}

-- Every record of the cache has a schema that was accepted.
pub record IsSafe (r : TenantResolver) : Type 0 where
  pub cached :
      (id : Text) (stored : ℕ) (t : TenantRecord)
      → Dict.lookup id r.cache ≡ some (stored, t)
      → IsAccepted t.schema

-- An answer is an error, or a record with an accepted schema.
abbrev pub IsSafeAnswer : Checked TenantRecord → Type 0
IsSafeAnswer (ok t) = IsAccepted t.schema
IsSafeAnswer (error e) = Unit

abbrev schema_or : Text → Option (ℕ × TenantRecord) → Text
schema_or other none = other
schema_or other (some (stored, t)) = t.schema

insert-IsSafe :
    (r : TenantResolver) (id : Text) (later : ℕ) (t : TenantRecord)
    → IsAccepted t.schema
    → IsSafe r
    → IsSafe (record r { cache = Dict.insert id (later, t) r.cache })
insert-IsSafe r id later t accepted safe = record {
  cached = λ other stored u e.
      by_test (text_eq id other) other stored u
        (sym (Dict.lookup-insert id other (later, t) r.cache) ∙ e);
}
  where
    by_test :
        (b : Bool) (other : Text) (stored : ℕ) (u : TenantRecord)
        → (if b then some (later, t) else Dict.lookup other r.cache) ≡ some (stored, u)
        → IsAccepted u.schema
    by_test true other stored u e = subst (λ name. IsAccepted name) (ap (schema_or []) e) accepted
    by_test false other stored u e = safe.cached other stored u e

-- An answer and what it leaves in the cache are safe.
abbrev BothSafe : Checked TenantRecord × TenantResolver → Type 0
BothSafe a = IsSafeAnswer a.0 × IsSafe a.1

remember-BothSafe :
    (r : TenantResolver) (id : Text) (row : TenantRecord) (later : ℕ) (o : Checked Text)
    → validate_schema row.schema ≡ o
    → IsSafe r
    → BothSafe (remember r id row later o)
remember-BothSafe r id row later (error e) checked safe = (tt, safe)
remember-BothSafe r id row later (ok name) checked safe =
    let (same, accepted) = validate_schema-IsAccepted row.schema name checked in
    let a : IsAccepted name = subst (λ n. IsAccepted n) (sym same) accepted in
    (a, insert-IsSafe r id later (record row { schema = name }) a safe)

fetched-BothSafe :
    (r : TenantResolver) (id : Text) (row : Option TenantRecord) (later : ℕ)
    → IsSafe r
    → BothSafe (fetched r id row later)
unfolding fetched
fetched-BothSafe r id none later safe = (tt, safe)
fetched-BothSafe r id (some row) later safe =
    remember-BothSafe r id row later (validate_schema row.schema) refl safe

lookup-BothSafe :
    (r : TenantResolver) (id : Text) (now : ℕ) (row : Option TenantRecord) (later : ℕ)
    → IsSafe r
    → BothSafe (lookup r id now row later)
unfolding lookup
lookup-BothSafe r id now row later safe = by_entry (Dict.lookup id r.cache) refl
  where
    by_fresh :
        (b : Bool) (stored : ℕ) (t : TenantRecord)
        → Dict.lookup id r.cache ≡ some (stored, t)
        → BothSafe (if b then (ok t, r) else fetched r id row later)
    by_fresh true stored t e = (safe.cached id stored t e, safe)
    by_fresh false stored t e = fetched-BothSafe r id row later safe

    by_entry :
        (o : Option (ℕ × TenantRecord))
        → Dict.lookup id r.cache ≡ o
        → BothSafe (answered r id now row later o)
    by_entry none e = fetched-BothSafe r id row later safe
    by_entry (some (stored, t)) e = by_fresh (ltb (now - stored) r.ttl_s) stored t e

invalidate-IsSafe : (r : TenantResolver) (id : Option Text) → IsSafe r → IsSafe (invalidate r id)
unfolding invalidate Dict.lookup
invalidate-IsSafe r none safe = record { cached = λ other stored t e. absurd (cc e) }
invalidate-IsSafe r (some id) safe = record {
  cached = λ other stored t e.
      by_test (text_eq id other) other stored t (sym (Dict.lookup-erase id other r.cache) ∙ e);
}
  where
    by_test :
        (b : Bool) (other : Text) (stored : ℕ) (t : TenantRecord)
        → (if b then none else Dict.lookup other r.cache) ≡ some (stored, t)
        → IsAccepted t.schema
    by_test true other stored t e = absurd (cc e)
    by_test false other stored t e = safe.cached other stored t e

-- The calls that change a resolver: a lookup, with the clock and the row, or an invalidation.
pub data Call : Type 0 where
  looks_up : Text → ℕ → Option TenantRecord → ℕ → Call
  invalidates : Option Text → Call

unfoldable pub calls : TenantResolver → List Call → TenantResolver
unfolding lookup invalidate
calls r [] = r
calls r (looks_up id now row later ∷ es) = calls (lookup r id now row later).1 es
calls r (invalidates id ∷ es) = calls (invalidate r id) es

calls-IsSafe : (es : List Call) (r : TenantResolver) → IsSafe r → IsSafe (calls r es)
unfolding calls
calls-IsSafe [] r safe = safe
calls-IsSafe (looks_up id now row later ∷ es) r safe =
    calls-IsSafe es (lookup r id now row later).1 (lookup-BothSafe r id now row later safe).1
calls-IsSafe (invalidates id ∷ es) r safe =
    calls-IsSafe es (invalidate r id) (invalidate-IsSafe r id safe)

empty-IsSafe : (r : TenantResolver) → r.cache ≡ [] → IsSafe r
unfolding Dict.lookup
empty-IsSafe r e = record {
  cached = λ id stored t h. absurd (cc (sym (ap (Dict.lookup id) e) ∙ h));
}

abbrev context_or : TenantContext → Checked TenantContext → TenantContext
context_or other (ok c) = c
context_or other (error e) = other

checked_context-made :
    (m : Made TenantContext) (c : TenantContext) → checked_context m ≡ ok c → m ≡ made c
checked_context-made (made d) c e = ap made (ap (context_or d) e)
checked_context-made (refused r) c e = absurd (cc e)

context_of-IsAccepted :
    (url : Text) (o : Checked TenantRecord) (c : TenantContext)
    → IsSafeAnswer o
    → context_of url o ≡ ok c
    → IsAccepted c.schema
context_of-IsAccepted url (error e) c safe h = absurd (cc h)
context_of-IsAccepted url (ok t) c safe h = by_active t.is_active h
  where
    by_active :
        (b : Bool)
        → (if b
            then checked_context (new_context t.tenant_id url t.schema)
            else error inactive_tenant)
          ≡ ok c
        → IsAccepted c.schema
    by_active true e =
        subst (λ name. IsAccepted name)
          (sym (
            ap (λ context. context.schema)
              (new_context-made t.tenant_id url t.schema c
                (checked_context-made (new_context t.tenant_id url t.schema) c e))))
          safe
    by_active false e = absurd (cc e)

-- For a resolver that started with an empty cache, whatever lookups and invalidations came before,
-- and whatever the database holds, a context that `resolve` returns has an accepted schema.
pub resolve-IsAccepted :
    (r : TenantResolver) (es : List Call) (id url : Text) (now : ℕ) (row : Option TenantRecord)
    (later : ℕ) (c : TenantContext)
    → r.cache ≡ []
    → (resolve (calls r es) id url now row later).0 ≡ ok c
    → IsAccepted c.schema
unfolding resolve
resolve-IsAccepted r es id url now row later c fresh h =
    context_of-IsAccepted url (lookup (calls r es) id now row later).0 c
      (lookup-BothSafe (calls r es) id now row later (calls-IsSafe es r (empty-IsSafe r fresh))).0 h

-- An entry that has been in the cache for its time to live is not used: the database is asked again.
pub lookup_stale :
    (r : TenantResolver) (id : Text) (stored now : ℕ) (t : TenantRecord) (row : Option TenantRecord)
    (later : ℕ)
    → Dict.lookup id r.cache ≡ some (stored, t)
    → stored + r.ttl_s ≤ now
    → lookup r id now row later ≡ fetched r id row later
unfolding lookup
lookup_stale r id stored now t row later e h =
    ap (λ o. answered r id now row later o) e
    ∙ rw (le→ltb-false (now - stored) r.ttl_s (omega (arith, h))) refl
