-- ===== src/Session/Room/Tracks.antt =====
-- What a room publishes, seen by the inspector of the join service, and its queues.
use lad_translate.Session.Room.{
  LanguageTrack, TranslationRoom, new_track, publish_languages, names_of, keys_of,
}
use lad_translate.Api.Rooms.{source_track_name, published_languages}
use lad_translate.Api.Rooms.Published.{
  is_published, some_carries, carries, member-published_languages,
}
use lad_translate.Common.Dict
use lad_translate.Common.Dict.{Dict, text_key}
use lad_translate.Common.Text.{Text, codes, text_eq, text_eq_iff, member}
use lad_translate.Common.{
  Bool-cases, ◌≡◌, refl, sym, ap, ◌∙◌, subst, inl, inr, Bool, true, false, ◌&&◌, ◌||◌, some, List,
  [], ◌∷◌, ◌++◌, arith,
}

-- Every track stands under its language and is named after it.
abbrev IsNamed : Dict Text LanguageTrack → Type 0
IsNamed [] = Unit
IsNamed ((language, entry) ∷ rest) = (entry.track_name ≡ codes "lang-" ++ language) × IsNamed rest

insert-IsNamed :
    (l : Text) (d : Dict Text LanguageTrack) → IsNamed d → IsNamed (Dict.insert l (new_track l) d)
unfolding Dict.insert new_track
insert-IsNamed l [] h = (refl, tt)
insert-IsNamed l ((m, e) ∷ d) h = elim (Bool-cases (text_eq m l)) [
  | inl f ↦ rw f (ap (λ x. codes "lang-" ++ x) (sym ((text_eq_iff m l).0 f)), h.1)
  | inr f ↦ rw f (h.0, insert-IsNamed l d h.1)
]

publish-IsNamed :
    (ls : List Text) (r : TranslationRoom)
    → IsNamed r.tracks
    → IsNamed (publish_languages ls r).tracks
unfolding publish_languages
publish-IsNamed [] r h = h
publish-IsNamed (l ∷ ls) r h =
    publish-IsNamed ls (record r { tracks = Dict.insert l (new_track l) r.tracks })
      (insert-IsNamed l r.tracks h)

same_key :
    (l n m : Text) (b : Bool) → n ≡ m → (text_eq l n || b) ≡ (text_eq l m || (text_eq l n || b))
same_key l n m b e =
    subst (λ k. (text_eq l n || b) ≡ (text_eq l k || (text_eq l n || b))) e (twice (text_eq l n) b)
  where
    twice : (a b : Bool) → (a || b) ≡ (a || (a || b))
    twice true b = refl
    twice false b = refl

swapped : (a b c : Bool) → (a || (b || c)) ≡ (b || (a || c))
swapped true true c = refl
swapped true false c = refl
swapped false b c = refl

member-insert :
    (l m : Text) (d : Dict Text LanguageTrack)
    → member l (keys_of (Dict.insert m (new_track m) d)) ≡ (text_eq l m || member l (keys_of d))
unfolding Dict.insert
member-insert l m [] = refl
member-insert l m ((n, e) ∷ d) = elim (Bool-cases (text_eq n m)) [
  | inl f ↦ rw f (same_key l n m (member l (keys_of d)) ((text_eq_iff n m).0 f))
  | inr f ↦ rw (f, member-insert l m d) (swapped (text_eq l n) (text_eq l m) (member l (keys_of d)))
]

member-publish :
    (l : Text) (ls : List Text) (r : TranslationRoom)
    → member l (keys_of (publish_languages ls r).tracks)
      ≡ (member l ls || member l (keys_of r.tracks))
unfolding publish_languages
member-publish l [] r = refl
member-publish l (m ∷ ls) r =
    member-publish l ls (record r { tracks = Dict.insert m (new_track m) r.tracks })
    ∙ ap (λ b. member l ls || b) (member-insert l m r.tracks)
    ∙ regroup (member l ls) (text_eq l m) (member l (keys_of r.tracks))
  where
    regroup : (a b c : Bool) → (a || (b || c)) ≡ ((b || a) || c)
    regroup true true c = refl
    regroup true false c = refl
    regroup false b c = ground arith

carry : (a s c : Bool) → ((a || (s && false)) || c) ≡ (a || c)
carry a s c = ground arith

-- The track of a language carries that language and no other one.
named_carries :
    (l : Text) (d : Dict Text LanguageTrack)
    → IsNamed d
    → some_carries l (names_of d) ≡ member l (keys_of d)
unfolding some_carries carries
named_carries l [] h = refl
named_carries l ((m, e) ∷ d) h =
    rw (h.0, named_carries l d h.1)
      (carry (text_eq l m) (text_eq l source_track_name) (member l (keys_of d)))

-- In a room that holds no track yet, the inspector of the join service reads back exactly the
-- languages that were published.
pub publish_languages-inspected :
    (ls : List Text) (r : TranslationRoom) (l : Text)
    → r.tracks ≡ []
    → member l (published_languages (some (names_of (publish_languages ls r).tracks ∷ [])))
      ≡ member l ls
unfolding is_published
publish_languages-inspected ls r l empty =
    let tracks = (publish_languages ls r).tracks in
    member-published_languages l (some (names_of tracks ∷ []))
    ∙ or_false (some_carries l (names_of tracks))
    ∙ named_carries l tracks (publish-IsNamed ls r (subst (λ d. IsNamed d) (sym empty) tt))
    ∙ member-publish l ls r
    ∙ ap (λ d. member l ls || member l (keys_of d)) empty
    ∙ or_false (member l ls)
  where
    or_false : (b : Bool) → (b || false) ≡ b
    or_false true = refl
    or_false false = refl
