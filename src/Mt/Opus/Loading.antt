-- ===== src/Mt/Opus/Loading.antt =====
-- What adapters/mt_opus.py has loaded once it is open.
use lad_translate.Common.{
  ◌==◌, if◌then◌else◌, Bool-cases, length, ℕ, ◌≡◌, refl, ap, ◌∙◌, subst, inl, inr, Bool, true, ◌&&◌,
  Option, none, some, List, [], ◌∷◌, arith,
}
use lad_translate.Common.Text.{Text, text_eq, text_eq_iff, member}
use lad_translate.Common.Dict
use lad_translate.Common.Dict.{Dict, text_key}
use lad_translate.Mt.Opus.Sharing.{
  resolve_all-HasUniqueKeys, lookup-resolve_all, sharing, directory_of, sharers_of-sharing,
}
use lad_translate.Mt.Opus.{
  Cases, Model, Pair, OpusMt, Opened, opened, failed, resolve, resolve_all, missing, sharers_of,
  count_sharers, model_for, load_pairs, load_resolved, load, new_opus, supports,
}

-- Nothing is missing when each directory holds a model.
missing-none :
    (has_model : Text → Bool) (t : Text) (d : Dict Text (Text × Option Text))
    (where_it_is : Text × Option Text)
    → missing has_model d ≡ []
    → Dict.lookup t d ≡ some where_it_is
    → has_model where_it_is.0 ≡ true
unfolding missing Dict.lookup
missing-none has_model t [] r m e = ground (arith, e)
missing-none has_model t ((s, (path, token)) ∷ rest) r m e = elim (Bool-cases (has_model path)) [
  | inl q ↦ elim (Bool-cases (text_eq s t)) [
    | inl p ↦ grind (arith, m, e, q, p)
    | inr p ↦ missing-none has_model t rest r (ground (arith, m, q)) (ground (arith, e, p))
  ]
  | inr q ↦ ground (arith, m, q)
]

-- The models that are loaded are those of their paths, with a worker for each sharer.
abbrev IsLoaded : (Text → ℕ → Model) → Dict Text ℕ → Dict Text Model → Type 0
IsLoaded load_model sharers models =
    (path : Text) (m : Model)
    → Dict.lookup path models ≡ some m
    → m ≡ load_model path (sharers_of path sharers)

model_for-loaded :
    (load_model : Text → ℕ → Model) (sharers : Dict Text ℕ) (path : Text) (models : Dict Text Model)
    → IsLoaded load_model sharers models
    → model_for load_model sharers path models ≡ load_model path (sharers_of path sharers)
unfolding model_for
model_for-loaded load_model sharers path models h = by_entry (Dict.lookup path models) refl
  where
    by_entry :
        (o : Option Model)
        → Dict.lookup path models ≡ o
        → elim o [ none ↦ load_model path (sharers_of path sharers) | some m ↦ m ]
          ≡ load_model path (sharers_of path sharers)
    by_entry none e = refl
    by_entry (some m) e = h path m e

insert-IsLoaded :
    (load_model : Text → ℕ → Model) (sharers : Dict Text ℕ) (path : Text) (models : Dict Text Model)
    → IsLoaded load_model sharers models
    → IsLoaded load_model sharers
        (Dict.insert path (load_model path (sharers_of path sharers)) models)
insert-IsLoaded load_model sharers path models h other m e =
    elim (Bool-cases (text_eq path other)) [
      | inl q ↦ ground (
        arith,
        e,
        q,
        ap (λ p. load_model p (sharers_of p sharers)) ((text_eq_iff path other).0 q),
        Dict.lookup-insert path other (load_model path (sharers_of path sharers)) models,
      )
      | inr q ↦ h other m (
          ground (
            arith,
            e,
            q,
            Dict.lookup-insert path other (load_model path (sharers_of path sharers)) models,
          ))
    ]

-- The pair of a target that is found at a directory, with a token.
abbrev pub pair_at : (Text → ℕ → Model) → Dict Text ℕ → Text → Text → Text × Option Text → Pair
pair_at load_model sharers source t (path, token) = record {
  source = source;
  target = t;
  model = load_model path (sharers_of path sharers);
  target_token = token;
}

lookup-load_pairs :
    (load_model : Text → ℕ → Model) (sharers : Dict Text ℕ) (source t : Text)
    (d : Dict Text (Text × Option Text)) (models : Dict Text Model) (pairs : Dict Text Pair)
    → Dict.HasUniqueKeys d
    → IsLoaded load_model sharers models
    → Dict.lookup t (load_pairs load_model sharers source d models pairs) ≡ elim (Dict.lookup t d) [
      | none ↦ Dict.lookup t pairs
      | some r ↦ some (pair_at load_model sharers source t r)
    ]
unfolding load_pairs Dict.lookup
lookup-load_pairs load_model sharers source t [] models pairs u h = refl
lookup-load_pairs load_model sharers source t ((s, (path, token)) ∷ rest) models pairs u h =
    rw (model_for-loaded load_model sharers path models h) (
      lookup-load_pairs load_model sharers source t rest
        (Dict.insert path (load_model path (sharers_of path sharers)) models)
        (Dict.insert s (pair_at load_model sharers source s (path, token)) pairs) u.1
        (insert-IsLoaded load_model sharers path models h)
      ∙ elim (Bool-cases (text_eq s t)) [
        | inl q ↦ ground (
          arith,
          q,
          subst (λ k. Dict.lookup k rest ≡ none) ((text_eq_iff s t).0 q) u.0,
          ap (λ k. pair_at load_model sharers source k (path, token)) ((text_eq_iff s t).0 q),
          Dict.lookup-insert s t (pair_at load_model sharers source s (path, token)) pairs,
        )
        | inr q ↦ ground (
          arith,
          q,
          Dict.lookup-insert s t (pair_at load_model sharers source s (path, token)) pairs,
        )
      ])

-- The pair of a language, with the model of its directory, which is loaded for as many workers as
-- there are different targets with that directory.
abbrev pub expected_pair : (Text → Bool) → (Text → ℕ → Model) → Text → List Text → Text → Pair
expected_pair has_model load_model source targets t = record {
  source = source;
  target = t;
  model =
      load_model (directory_of has_model source t)
        (sharing (directory_of has_model source) (directory_of has_model source t) [] targets);
  target_token = (resolve has_model source t).1;
}

-- What an adapter holds for a language: a pair for each target and for no other language, with the
-- directory and the token that `resolve` gives, and the one model of that directory, which is there.
pub record HasTarget (has_model : Text → Bool) (load_model : Text → ℕ → Model) (source : Text)
    (targets : List Text) (o : OpusMt) (t : Text) : Type 0 where
  pub holds : Dict.lookup t o.pairs ≡ (
      if member t targets then some (expected_pair has_model load_model source targets t) else none)
  pub is_there : member t targets ≡ true → has_model (directory_of has_model source t) ≡ true
  pub supported : (s : Text) → supports o s t ≡ (text_eq s source && member t targets)

module _ (has_model : Text → Bool) (load_model : Text → ℕ → Model) (o : OpusMt)
    (targets : List Text) where
  abbrev resolved : Dict Text (Text × Option Text)
  resolved = resolve_all has_model o.source_language targets []

  abbrev loaded : OpusMt
  loaded = record o {
    pairs = load_pairs load_model (count_sharers resolved []) o.source_language resolved [] [];
  }

  loaded-holds :
      (t : Text)
      → Dict.lookup t loaded.pairs ≡ (
          if member t targets
          then some (
              pair_at load_model
                (count_sharers resolved [])
                o.source_language
                t
                (resolve has_model o.source_language t))
          else none)
  unfolding Dict.lookup
  loaded-holds t =
      lookup-load_pairs load_model (count_sharers resolved []) o.source_language t resolved [] []
        (resolve_all-HasUniqueKeys has_model o.source_language targets [] tt)
        (λ path m e. ground (arith, e))
      ∙ rw (lookup-resolve_all has_model o.source_language t targets [])
          (elim (Bool-cases (member t targets)) [ inl q ↦ rw q refl | inr q ↦ rw q refl ])

  loaded-HasTarget :
      (t : Text)
      → missing has_model resolved ≡ []
      → HasTarget has_model load_model o.source_language targets loaded t
  unfolding supports
  loaded-HasTarget t m = record {
    holds =
        loaded-holds t
        ∙ rw
            (sharers_of-sharing has_model o.source_language
              (directory_of has_model o.source_language t) targets)
            refl;
    is_there = λ q.
        missing-none has_model t resolved (resolve has_model o.source_language t) m
          (lookup-resolve_all has_model o.source_language t targets [] ∙ rw q refl);
    supported = λ s.
        rw (loaded-holds t)
          (elim (Bool-cases (member t targets)) [ inl q ↦ rw q refl | inr q ↦ rw q refl ]);
  }

abbrev pub adapter_or : OpusMt → Opened → OpusMt
adapter_or d (opened o) = o
adapter_or d (failed e) = d

load-HasTarget :
    (has_model : Text → Bool) (load_model : Text → ℕ → Model) (targets : List Text) (o p : OpusMt)
    (t : Text)
    → load has_model load_model targets o ≡ opened p
    → HasTarget has_model load_model o.source_language targets p t
unfolding load
load-HasTarget has_model load_model targets o p t e =
    by_missing (missing has_model (resolved has_model load_model o targets)) refl e
  where
    by_missing :
        (ms : List Text)
        → missing has_model (resolved has_model load_model o targets) ≡ ms
        → load_resolved load_model o (resolved has_model load_model o targets) ms ≡ opened p
        → HasTarget has_model load_model o.source_language targets p t
    by_missing [] m q =
        subst (λ a. HasTarget has_model load_model o.source_language targets a t)
          (ap (adapter_or o) q) (loaded-HasTarget has_model load_model o targets t m)
    by_missing (x ∷ ms) m q = ground (arith, q)

-- An adapter that is open supports its source language with exactly the targets that it was given.
-- Each of them has a pair with the token and the directory that it resolves to, that directory holds
-- a model, and languages of one directory have the same model, which is loaded for as many as there are
-- different targets with that directory.
pub new_opus-HasTarget :
    (has_model : Text → Bool) (load_model : Text → ℕ → Model) (cases : Cases) (source t : Text)
    (targets : List Text) (beam_size max_output_ratio : ℕ) (o : OpusMt)
    → new_opus has_model load_model cases source targets beam_size max_output_ratio ≡ opened o
    → HasTarget has_model load_model source targets o t
unfolding new_opus
new_opus-HasTarget has_model load_model cases source t targets beam_size max_output_ratio o e =
    elim (Bool-cases (length targets == 0)) [
      | inl q ↦ ground (arith, e, q)
      | inr q ↦
          load-HasTarget has_model load_model targets
            (record {
              source_language = source;
              cases = cases;
              beam_size = beam_size;
              max_output_ratio = max_output_ratio;
              pairs = [];
            })
            o t (ground (arith, e, q))
    ]
