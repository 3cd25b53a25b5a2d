-- ===== src/Mt/Opus/Sharing.antt =====
-- Which targets of adapters/mt_opus.py have their model in the same directory.
use lad_translate.Common.{
  if◌then◌else◌, Bool-cases, ℕ, ◌+◌, ◌≡◌, refl, ap, ◌∙◌, inl, inr, Bool, true, false, ◌||◌, Option,
  none, some, List, [], ◌∷◌, arith,
}
use lad_translate.Common.Text.{Text, text_eq, text_eq_iff, text_eq_sym, member}
use lad_translate.Common.Dict
use lad_translate.Common.Dict.{Dict, text_key}
use lad_translate.Mt.Opus.{resolve, resolve_all, sharers_of, count_sharers}

pub resolve_all-HasUniqueKeys :
    (has_model : Text → Bool) (source : Text) (ts : List Text) (d : Dict Text (Text × Option Text))
    → Dict.HasUniqueKeys d
    → Dict.HasUniqueKeys (resolve_all has_model source ts d)
unfolding resolve_all
resolve_all-HasUniqueKeys has_model source [] d u = u
resolve_all-HasUniqueKeys has_model source (t ∷ ts) d u =
    resolve_all-HasUniqueKeys has_model source ts (Dict.insert t (resolve has_model source t) d)
      (Dict.insert-HasUniqueKeys t (resolve has_model source t) d u)

pub lookup-resolve_all :
    (has_model : Text → Bool) (source t : Text) (ts : List Text)
    (d : Dict Text (Text × Option Text))
    → Dict.lookup t (resolve_all has_model source ts d)
      ≡ (if member t ts then some (resolve has_model source t) else Dict.lookup t d)
unfolding resolve_all
lookup-resolve_all has_model source t [] d = refl
lookup-resolve_all has_model source t (s ∷ ts) d =
    lookup-resolve_all has_model source t ts (Dict.insert s (resolve has_model source s) d)
    ∙ asked (text_eq t s) refl
  where
    asked :
        (b : Bool)
        → text_eq t s ≡ b
        → (if member t ts
            then some (resolve has_model source t)
            else Dict.lookup t (Dict.insert s (resolve has_model source s) d))
          ≡ (if b || member t ts then some (resolve has_model source t) else Dict.lookup t d)
    asked true e = ground (
      arith,
      e,
      ap (resolve has_model source) ((text_eq_iff t s).0 e),
      Dict.lookup-insert s t (resolve has_model source s) d,
      text_eq_sym s t,
    )
    asked false e =
        ground (arith, e, Dict.lookup-insert s t (resolve has_model source s) d, text_eq_sym s t)

-- How many of some languages have their model in a directory, each counted where it first comes and
-- not among those that were seen before.
abbrev pub sharing : (Text → Text) → Text → List Text → List Text → ℕ
sharing directory path seen [] = 0
sharing directory path seen (t ∷ ts) =
    (if member t seen then 0 else (if text_eq (directory t) path then 1 else 0))
    + sharing directory path (t ∷ seen) ts

-- The entries of a table that lie in a directory.
abbrev entries_at : Text → Dict Text (Text × Option Text) → ℕ
entries_at path [] = 0
entries_at path ((t, (directory, token)) ∷ rest) =
    (if text_eq directory path then 1 else 0) + entries_at path rest

count_sharers-entries_at :
    (path : Text) (d : Dict Text (Text × Option Text)) (sharers : Dict Text ℕ)
    → sharers_of path (count_sharers d sharers) ≡ sharers_of path sharers + entries_at path d
unfolding count_sharers
count_sharers-entries_at path [] sharers = omega arith
count_sharers-entries_at path ((t, (directory, token)) ∷ rest) sharers =
    count_sharers-entries_at path rest
      (Dict.insert directory (sharers_of directory sharers + 1) sharers)
    ∙ elim (Bool-cases (text_eq directory path)) [
      | inl q ↦ ground (
        arith,
        q,
        Dict.lookup-insert directory path (sharers_of directory sharers + 1) sharers,
        ap (λ p. sharers_of p sharers) ((text_eq_iff directory path).0 q),
      )
      | inr q ↦
          ground
            (arith, q, Dict.lookup-insert directory path (sharers_of directory sharers + 1) sharers)
    ]

abbrev is_key : Text → Dict Text (Text × Option Text) → Bool
is_key t d = elim (Dict.lookup t d) [ none ↦ false | some r ↦ true ]

insert-entries_at :
    (path t : Text) (r : Text × Option Text) (d : Dict Text (Text × Option Text))
    → ((s : Text × Option Text) → Dict.lookup t d ≡ some s → s ≡ r)
    → entries_at path (Dict.insert t r d)
      ≡ entries_at path d + (if is_key t d then 0 else (if text_eq r.0 path then 1 else 0))
unfolding Dict.insert Dict.lookup
insert-entries_at path t r [] h = omega arith
insert-entries_at path t r ((k, s) ∷ d) h = elim (Bool-cases (text_eq k t)) [
  | inl q ↦
      rw q (ground (arith, ap (λ (x : Text × Option Text). text_eq x.0 path) (h s (rw q refl))))
  | inr q ↦ rw q (ground (arith, insert-entries_at path t r d (λ x e. h x (rw q e))))
]

module _ (has_model : Text → Bool) (source : Text) where
  abbrev pub directory_of : Text → Text
  directory_of t = (resolve has_model source t).0

  entries_at-sharing :
      (path : Text) (ts seen : List Text) (d : Dict Text (Text × Option Text))
      → ((t : Text) (s : Text × Option Text)
          → Dict.lookup t d ≡ some s
          → s ≡ resolve has_model source t)
      → ((t : Text) → is_key t d ≡ member t seen)
      → entries_at path (resolve_all has_model source ts d)
        ≡ entries_at path d + sharing directory_of path seen ts
  unfolding resolve_all
  entries_at-sharing path [] seen d h k = omega arith
  entries_at-sharing path (t ∷ ts) seen d h k =
      entries_at-sharing path ts (t ∷ seen) (Dict.insert t (resolve has_model source t) d)
        (λ u s e. elim (Bool-cases (text_eq t u)) [
          | inl q ↦ ground (
            arith,
            q,
            e,
            ap (resolve has_model source) ((text_eq_iff t u).0 q),
            Dict.lookup-insert t u (resolve has_model source t) d,
          )
          | inr q ↦
              h u s (ground (arith, q, e, Dict.lookup-insert t u (resolve has_model source t) d))
        ])
        (λ u.
          ground
            (arith, k u, text_eq_sym t u, Dict.lookup-insert t u (resolve has_model source t) d))
      ∙ ground (arith, insert-entries_at path t (resolve has_model source t) d (h t), k t)

  -- A model that is loaded for some targets counts those of its directory.
  pub sharers_of-sharing :
      (path : Text) (ts : List Text)
      → sharers_of path (count_sharers (resolve_all has_model source ts []) [])
        ≡ sharing directory_of path [] ts
  unfolding Dict.lookup
  sharers_of-sharing path ts = omega (
    arith,
    count_sharers-entries_at path (resolve_all has_model source ts []) [],
    entries_at-sharing path ts [] [] (λ t s e. absurd (cc e)) (λ t. refl),
  )
