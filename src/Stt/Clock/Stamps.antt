-- ===== src/Stt/Clock/Stamps.antt =====
-- The timings of `WordClock` against the transcripts that it was given.
use lad_translate.Common.{
  ltb, if◌then◌else◌, lt→ltb, le→ltb-false, Bool-cases, length, length-append, get_or, take, drop,
  replicate, length-take, length-replicate, All, ℕ, zero, suc, ◌+◌, ◌-◌, ◌≤◌, ◌<◌, ◌≡◌, refl, sym,
  ap, ◌∙◌, inl, inr, List, [], ◌∷◌, ◌++◌, map, arith,
}
use lad_translate.Common.Text.{text_eq_iff, text_eq, Text, split}
use lad_translate.Adapters.Events.{WordTiming}
use lad_translate.Stt.Clock.{WordClock, shared, timings_of, restamp, stamp}

-- The words and their stamps stand side by side, and the stamps rise, up to `now`.
abbrev pub Rising : ℕ → List ℕ → ℕ → Type 0
Rising low [] now = low ≤ now
Rising low (x ∷ xs) now = (low ≤ x) × Rising x xs now

pub record IsStamped (c : WordClock) (now : ℕ) : Type 0 where
  pub aligned : length c.words ≡ length c.ends
  pub rising : Rising 0 c.ends now

take-shared : (xs ys : List Text) → take (shared xs ys) xs ≡ take (shared xs ys) ys
unfolding shared
take-shared [] ys = refl
take-shared (x ∷ xs) [] = refl
take-shared (x ∷ xs) (y ∷ ys) = elim (Bool-cases (text_eq x y)) [
  | inl q ↦ rw (q, shared) (ground (arith, (text_eq_iff x y).0 q, take-shared xs ys))
  | inr q ↦ rw (q, shared) refl
]

shared-le : (xs ys : List Text) → (shared xs ys ≤ length xs) × (shared xs ys ≤ length ys)
unfolding shared
shared-le [] ys = (omega arith, omega arith)
shared-le (x ∷ xs) [] = (omega arith, omega arith)
shared-le (x ∷ xs) (y ∷ ys) = ground (arith, shared-le xs ys)

take-drop : (n : ℕ) (xs : List Text) → take n xs ++ drop n xs ≡ xs
take-drop zero xs = refl
take-drop (suc n) [] = refl
take-drop (suc n) (x ∷ xs) = ap (λ ys. x ∷ ys) (take-drop n xs)

-- After a transcript the clock holds its words.
restamp-words : (c : WordClock) (words : List Text) (t : ℕ) → (restamp c words t).words ≡ words
unfolding restamp
restamp-words c words t =
    ap (λ xs. xs ++ drop (shared c.words words) words) (take-shared c.words words)
    ∙ take-drop (shared c.words words) words

restamp-aligned :
    (c : WordClock) (words : List Text) (t : ℕ)
    → length c.words ≡ length c.ends
    → length words ≡ length (restamp c words t).ends
unfolding restamp
restamp-aligned c words t h = omega (
  arith,
  h,
  shared-le c.words words,
  length-append (take (shared c.words words) c.ends)
      (replicate (length words - shared c.words words) t),
  length-take (shared c.words words) c.ends,
  length-replicate (length words - shared c.words words) t,
)

Rising-replicate : (low n t : ℕ) → low ≤ t → Rising low (replicate n t) t
Rising-replicate low zero t h = h
Rising-replicate low (suc n) t h = (h, Rising-replicate t n t (omega arith))

Rising-bound : (low : ℕ) (xs : List ℕ) (now : ℕ) → Rising low xs now → low ≤ now
Rising-bound low [] now h = h
Rising-bound low (x ∷ xs) now h = omega (arith, h.0, Rising-bound x xs now h.1)

Rising-restamp :
    (low k n : ℕ) (xs : List ℕ) (now t : ℕ)
    → Rising low xs now
    → now ≤ t
    → Rising low (take k xs ++ replicate n t) t
Rising-restamp low zero n xs now t h l =
    Rising-replicate low n t (omega (arith, Rising-bound low xs now h))
Rising-restamp low (suc k) n [] now t h l = Rising-replicate low n t (omega (arith, h))
Rising-restamp low (suc k) n (x ∷ xs) now t h l = (h.0, Rising-restamp x k n xs now t h.1 l)

restamp-Rising :
    (c : WordClock) (words : List Text) (now t : ℕ)
    → IsStamped c now
    → now ≤ t
    → Rising 0 (restamp c words t).ends t
unfolding restamp
restamp-Rising c words now t h l =
    Rising-restamp 0 (shared c.words words) (length words - shared c.words words) c.ends now t
      h.rising l

restamp-IsStamped :
    (c : WordClock) (words : List Text) (now t : ℕ)
    → IsStamped c now
    → now ≤ t
    → IsStamped (restamp c words t) t
restamp-IsStamped c words now t h l = record {
  aligned = ap length (restamp-words c words t) ∙ restamp-aligned c words t h.aligned;
  rising = restamp-Rising c words now t h l;
}

abbrev pub spoken_words : List WordTiming → List Text
spoken_words ts = map (λ w. w.word) ts

timings-words :
    (previous : ℕ) (words : List Text) (ends : List ℕ)
    → length words ≡ length ends
    → spoken_words (timings_of previous words ends) ≡ words
unfolding timings_of
timings-words previous [] ends h = refl
timings-words previous (w ∷ words) [] h = absurd (omega (arith, h))
timings-words previous (w ∷ words) (x ∷ ends) h =
    ap (λ ws. w ∷ ws) (timings-words x words ends (omega (arith, h)))

timings-forward :
    (previous : ℕ) (words : List Text) (ends : List ℕ) (now : ℕ)
    → Rising previous ends now
    → All
        (λ w. (w.t_audio_start ≤ w.t_audio_end) × (w.t_audio_end ≤ now))
        (timings_of previous words ends)
unfolding timings_of
timings-forward previous [] ends now h = tt
timings-forward previous (w ∷ words) [] now h = tt
timings-forward previous (w ∷ words) (x ∷ ends) now h =
    ((h.0, Rising-bound x ends now h.1), timings-forward x words ends now h.1)

-- With a well formed clock, the timings of a transcript that came no earlier than the last one
-- spell its words in order, run forward and end by its time; the clock stays well formed.
pub stamp-timings :
    (c : WordClock) (text : Text) (now t : ℕ)
    → IsStamped c now
    → now ≤ t
    → (spoken_words (stamp c text t).0 ≡ split text)
      × All (λ w. (w.t_audio_start ≤ w.t_audio_end) × (w.t_audio_end ≤ t)) (stamp c text t).0
      × IsStamped (stamp c text t).1 t
unfolding stamp
stamp-timings c text now t h l =
    let c' = restamp c (split text) t in
    let k : IsStamped c' t = restamp-IsStamped c (split text) now t h l in
    (
      timings-words 0 c'.words c'.ends k.aligned ∙ restamp-words c (split text) t,
      timings-forward 0 c'.words c'.ends t k.rising,
      k,
    )

get_or-replicate : (n t i : ℕ) → i < n → get_or (replicate n t) i 0 ≡ t
get_or-replicate zero t i h = elim h [ ]
get_or-replicate (suc n) t zero h = refl
get_or-replicate (suc n) t (suc i) h = get_or-replicate n t i (omega arith)

get_or-restamped :
    (k n t i : ℕ) (xs : List ℕ)
    → k ≤ length xs
    → i < k + n
    → get_or (take k xs ++ replicate n t) i 0 ≡ (if ltb i k then get_or xs i 0 else t)
get_or-restamped zero n t i xs h l =
    get_or-replicate n t i (omega (arith, l)) ∙ sym (rw (le→ltb-false i 0 (omega arith)) refl)
get_or-restamped (suc k) n t i [] h l = elim h [ ]
get_or-restamped (suc k) n t zero (x ∷ xs) h l = rw (lt→ltb 0 (suc k) (omega arith)) refl
get_or-restamped (suc k) n t (suc i) (x ∷ xs) h l =
    get_or-restamped k n t i xs (omega arith) (omega (arith, l)) ∙ ground arith

-- With a clock that has a stamp for each word, a word of the prefix that two transcripts share
-- keeps its stamp, and each word after it is stamped with the time of the new transcript.
pub stamp-ends :
    (c : WordClock) (text : Text) (t i : ℕ)
    → length c.words ≡ length c.ends
    → i < length (split text)
    → get_or (stamp c text t).1.ends i 0
      ≡ (if ltb i (shared c.words (split text)) then get_or c.ends i 0 else t)
unfolding stamp restamp
stamp-ends c text t i h l =
    get_or-restamped (shared c.words (split text))
      (length (split text) - shared c.words (split text)) t i c.ends
      (omega (arith, h, shared-le c.words (split text))) (omega (arith, l))
