-- ===== src/Api/Rooms/Published.antt =====
-- Which languages the inspector of api/rooms.py finds in a room.
use lad_translate.Api.Rooms.{
  track_prefix, source_track_name, starts_with, add_code, add_track, add_tracks, add_participants,
  published_languages,
}
use lad_translate.Common.Text.{Text, text_eq, member, text_eq_iff, text_eq_sym}
use lad_translate.Common.{
  ◌==◌, if◌then◌else◌, Bool-cases, length, drop, ◌≡◌, refl, sym, ap, ◌∙◌, subst, inl, inr, Bool,
  true, false, ◌&&◌, ◌||◌, Option, none, some, List, [], ◌∷◌, ◌++◌, arith,
}

-- A track of this name carries the language: the one named after it, and for the name of the source
-- track that track itself.
unfoldable pub carries : Text → Text → Bool
carries l name =
    text_eq (track_prefix ++ l) name
    || (text_eq l source_track_name && text_eq name source_track_name)

unfoldable pub some_carries : Text → List Text → Bool
unfolding carries
some_carries l [] = false
some_carries l (name ∷ names) = carries l name || some_carries l names

-- Some participant publishes a track that carries the language.
unfoldable pub is_published : Text → List (List Text) → Bool
unfolding carries
is_published l [] = false
is_published l (tracks ∷ rest) = some_carries l tracks || is_published l rest

or_assoc : (a b c : Bool) → ((a || b) || c) ≡ (a || (b || c))
or_assoc true b c = refl
or_assoc false b c = refl

or_comm : (a b : Bool) → (a || b) ≡ (b || a)
or_comm true true = refl
or_comm true false = refl
or_comm false true = refl
or_comm false false = refl

member-add_code :
    (l code : Text) (published : List Text)
    → member l (add_code code published) ≡ (text_eq l code || member l published)
member-add_code l code published = elim (Bool-cases (member code published)) [
  | inr e ↦ rw e refl
  | inl e ↦ elim (Bool-cases (text_eq l code)) [
    | inr f ↦ rw (e, f) refl
    | inl f ↦ rw (e, f) (ap (λ x. member x published) ((text_eq_iff l code).0 f) ∙ e)
  ]
]

-- What is behind a prefix is compared.
prefixed :
    (l prefix name : Text)
    → (if starts_with prefix name then text_eq l (drop (length prefix) name) else false)
      ≡ text_eq (prefix ++ l) name
prefixed l [] name = refl
prefixed l (c ∷ prefix) [] = refl
prefixed l (c ∷ prefix) (d ∷ name) = elim (Bool-cases (c == d)) [
  | inl e ↦ rw e (prefixed l prefix name)
  | inr e ↦ rw e refl
]

not_source :
    (name : Text) → starts_with track_prefix name ≡ true → text_eq name source_track_name ≡ false
not_source name e = elim (Bool-cases (text_eq name source_track_name)) [
  | inr f ↦ f
  | inl f ↦
      absurd (
        cc
          (sym e ∙ ap (λ x. starts_with track_prefix x) ((text_eq_iff name source_track_name).0 f)))
]

swapped : (a b m : Bool) → (a || (b || m)) ≡ ((b || a) || m)
swapped a b m = ground arith

one : (a b s m : Bool) → a ≡ b → (a || m) ≡ ((b || (s && false)) || m)
one a b s m e = ground (arith, e)

two : (s m : Bool) → (s || m) ≡ ((false || (s && true)) || m)
two s m = ground arith

three : (s m : Bool) → m ≡ ((false || (s && false)) || m)
three s m = ground arith

module _ (l : Text) where
  member-add_track :
      (name : Text) (published : List Text)
      → member l (add_track name published) ≡ (carries l name || member l published)
  unfolding add_track carries
  member-add_track name published = elim (Bool-cases (starts_with track_prefix name)) [
    | inl e ↦
        let same : text_eq l (drop (length track_prefix) name) ≡ text_eq (track_prefix ++ l) name =
          subst
            (λ b.
              (if b then text_eq l (drop (length track_prefix) name) else false)
              ≡ text_eq (track_prefix ++ l) name)
            e (prefixed l track_prefix name) in
        rw (e, not_source name e)
          (member-add_code l (drop (length track_prefix) name) published
            ∙ one _ _ (text_eq l source_track_name) (member l published) same)
    | inr e ↦
        let other : false ≡ text_eq (track_prefix ++ l) name =
          subst
            (λ b.
              (if b then text_eq l (drop (length track_prefix) name) else false)
              ≡ text_eq (track_prefix ++ l) name)
            e (prefixed l track_prefix name) in
        elim (Bool-cases (text_eq name source_track_name)) [
          | inl f ↦
              rw (e, sym other, f)
                (member-add_code l source_track_name published
                  ∙ two (text_eq l source_track_name) (member l published))
          | inr f ↦ rw (e, sym other, f) (three (text_eq l source_track_name) (member l published))
        ]
  ]

  member-add_tracks :
      (names published : List Text)
      → member l (add_tracks names published) ≡ (some_carries l names || member l published)
  unfolding add_tracks some_carries
  member-add_tracks [] published = refl
  member-add_tracks (name ∷ names) published =
      member-add_tracks names (add_track name published)
      ∙ rw (member-add_track name published)
          (swapped (some_carries l names) (carries l name) (member l published))

  member-add_participants :
      (participants : List (List Text)) (published : List Text)
      → member l (add_participants participants published)
        ≡ (is_published l participants || member l published)
  unfolding add_participants is_published
  member-add_participants [] published = refl
  member-add_participants (tracks ∷ rest) published =
      member-add_participants rest (add_tracks tracks published)
      ∙ rw (member-add_tracks tracks published)
          (swapped (is_published l rest) (some_carries l tracks) (member l published))

-- The inspector reports a language exactly when some participant publishes a track that carries it,
-- and nothing when the room cannot be read.
pub member-published_languages :
    (l : Text) (answer : Option (List (List Text)))
    → member l (published_languages answer)
      ≡ is_published l (elim answer [ none ↦ [] | some participants ↦ participants ])
unfolding published_languages is_published
member-published_languages l none = refl
member-published_languages l (some participants) =
    member-add_participants l participants [] ∙ or_comm _ false

-- Some participant publishes a track of this name.
abbrev pub has_track : Text → List (List Text) → Bool
has_track name [] = false
has_track name (tracks ∷ rest) = member name tracks || has_track name rest

none_left : (s : Bool) → false ≡ (false || (s && false))
none_left s = ground arith

regroup : (a s b c d : Bool) → ((a || (s && b)) || (c || (s && d))) ≡ ((a || c) || (s && (b || d)))
regroup a s b c d = ground arith

some_carries-tracks :
    (l : Text) (names : List Text)
    → some_carries l names ≡ (
        member (track_prefix ++ l) names
        || (text_eq l source_track_name && member source_track_name names))
unfolding some_carries carries
some_carries-tracks l [] = none_left (text_eq l source_track_name)
some_carries-tracks l (name ∷ names) =
    rw (some_carries-tracks l names, text_eq_sym name source_track_name)
      (regroup (text_eq (track_prefix ++ l) name) (text_eq l source_track_name)
        (text_eq source_track_name name) (member (track_prefix ++ l) names)
        (member source_track_name names))

-- A language is published under its own track, and the name of the source track also by that track.
pub is_published-tracks :
    (l : Text) (participants : List (List Text))
    → is_published l participants ≡ (
        has_track (track_prefix ++ l) participants
        || (text_eq l source_track_name && has_track source_track_name participants))
unfolding is_published
is_published-tracks l [] = none_left (text_eq l source_track_name)
is_published-tracks l (tracks ∷ rest) =
    rw (some_carries-tracks l tracks, is_published-tracks l rest)
      (regroup (member (track_prefix ++ l) tracks) (text_eq l source_track_name)
        (member source_track_name tracks) (has_track (track_prefix ++ l) rest)
        (has_track source_track_name rest))
