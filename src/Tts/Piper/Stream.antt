-- ===== src/Tts/Piper/Stream.antt =====
-- What adapters/tts_piper.py hands on of a phrase.
use lad_translate.Common.{
  ◌==◌, if◌then◌else◌, ==_iff, Bool-cases, length, All, ℕ, ◌+◌, ◌≡◌, refl, sym, ap, ◌∙◌, subst, ◌⊎◌,
  inl, inr, Bool, true, false, Option, none, some, List, [], ◌∷◌, map, arith,
}
use lad_translate.Common.Text.{Text, strip, text_eq}
use lad_translate.Common.Dict
use lad_translate.Common.Dict.{Dict, text_key}
use lad_translate.Tts.Piper.{
  VoiceSpec, SpeechChunk, PiperVoice, PiperTts, Loaded, loaded, failed, with_rate, load_name,
  load_one, load, new_piper, Ending, finished, raised, waiting, yield_all, from_queue, produce,
  length_scale, await_future, synthesise, default_voices, mixed_rates,
}

-- True for the last of some pieces and for no other one.
abbrev pub last_flags : List (List ℕ) → List Bool
last_flags [] = []
last_flags (x ∷ []) = true ∷ []
last_flags (x ∷ (y ∷ ys)) = false ∷ last_flags (y ∷ ys)

-- The chunks of some pieces: all of them in order, the last one marked, at one rate.
pub record IsStream (pieces : List (List ℕ)) (rate : ℕ) (chunks : List SpeechChunk) : Type 0 where
  pub in_order : map (λ c. SpeechChunk.pcm c) chunks ≡ pieces
  pub marked : map (λ c. SpeechChunk.is_last c) chunks ≡ last_flags pieces
  pub same_rate : All (λ c. SpeechChunk.sample_rate c ≡ rate) chunks

-- Each voice has the common rate.
abbrev pub IsUniform : PiperTts → Type 0
IsUniform p =
    (l : Text) (v : PiperVoice)
    → Dict.lookup l p.voices ≡ some v
    → p.common_rate ≡ some v.sample_rate

yield_all-pieces :
    (rate : ℕ) (language : Text) (chunk_id : ℕ) (clock : ℕ → ℕ) (i : ℕ) (piece : List ℕ)
    (pieces : List (List ℕ))
    → let out = yield_all (some rate) language chunk_id clock i (some piece) (produce pieces) in
      IsStream (piece ∷ pieces) rate out.0 × (out.1 ≡ finished)
unfolding yield_all produce
yield_all-pieces rate language chunk_id clock i piece [] =
    (record { in_order = refl; marked = refl; same_rate = (refl, tt) }, refl)
yield_all-pieces rate language chunk_id clock i piece (next ∷ pieces) =
    let rest = yield_all-pieces rate language chunk_id clock (i + 1) next pieces in
    (
      record {
        in_order = ap (λ xs. piece ∷ xs) rest.0.in_order;
        marked = ap (λ xs. false ∷ xs) rest.0.marked;
        same_rate = (refl, rest.0.same_rate);
      },
      rest.1,
    )

from_queue-pieces :
    (rate : ℕ) (language : Text) (chunk_id : ℕ) (clock : ℕ → ℕ) (pieces : List (List ℕ))
    → let out = from_queue (some rate) language chunk_id clock (produce pieces) in
      IsStream pieces rate out.0 × (out.1 ≡ finished)
unfolding produce yield_all
from_queue-pieces rate language chunk_id clock [] =
    (record { in_order = refl; marked = refl; same_rate = tt }, refl)
from_queue-pieces rate language chunk_id clock (piece ∷ pieces) =
    yield_all-pieces rate language chunk_id clock 0 piece pieces

await_future-IsStream :
    (pieces : List (List ℕ)) (rate : ℕ) (fails : Bool) (out : List SpeechChunk × Ending)
    → IsStream pieces rate out.0
    → out.1 ≡ finished
    → IsStream pieces rate (await_future fails out).0
      × ((await_future fails out).1 ≡ (if fails then raised else finished))
await_future-IsStream pieces rate fails (chunks, finished) s e = (s, refl)
await_future-IsStream pieces rate fails (chunks, raised) s e = ground (arith, e)
await_future-IsStream pieces rate fails (chunks, waiting) s e = ground (arith, e)

abbrev pub piper_or : PiperTts → Loaded → PiperTts
piper_or d (loaded p) = p
piper_or d (failed e) = d

inserted :
    (d : Dict Text PiperVoice) (l language : Text) (w v : PiperVoice)
    → Dict.lookup l (Dict.insert language w d) ≡ some v
    → (w ≡ v) ⊎ (Dict.lookup l d ≡ some v)
inserted d l language w v h = elim (Bool-cases (text_eq language l)) [
  | inl q ↦ inl (ground (arith, q, h, Dict.lookup-insert language l w d))
  | inr q ↦ inr (ground (arith, q, h, Dict.lookup-insert language l w d))
]

with_rate-IsUniform :
    (p q : PiperTts) (language : Text) (w : PiperVoice) (o : Option ℕ)
    → p.common_rate ≡ o
    → IsUniform p
    → with_rate (record p { voices = Dict.insert language w p.voices }) w.sample_rate o ≡ loaded q
    → IsUniform q
with_rate-IsUniform p q language w none c u e = subst IsUniform (ap (piper_or p) e) (λ l v h.
    elim (inserted p.voices l language w v h) [
      | inl s ↦ ap (λ (x : PiperVoice). some x.sample_rate) s
      | inr k ↦ ground (arith, c, u l v k)
    ])
with_rate-IsUniform p q language w (some common) c u e = by_rate (w.sample_rate == common) refl e
  where
    by_rate :
        (b : Bool)
        → (w.sample_rate == common) ≡ b
        → (if b
            then loaded (record p { voices = Dict.insert language w p.voices })
            else failed mixed_rates)
          ≡ loaded q
        → IsUniform q
    by_rate false r f = ground (arith, f)
    by_rate true r f = subst IsUniform (ap (piper_or p) f) (λ l v h.
        elim (inserted p.voices l language w v h) [
          | inl s ↦
              c
              ∙ ap (λ n. some n) (sym ((==_iff w.sample_rate common).0 r))
              ∙ ap (λ (x : PiperVoice). some x.sample_rate) s
          | inr k ↦ u l v k
        ])

load_one-IsUniform :
    (has_file : Text → Bool) (load_voice : Text → PiperVoice) (language : Text) (p q : PiperTts)
    → IsUniform p
    → load_one has_file load_voice language p ≡ loaded q
    → IsUniform q
unfolding load_one
load_one-IsUniform has_file load_voice language p q u e = by_name (Dict.lookup language p.names) e
  where
    by_name :
        (o : Option Text) → load_name has_file load_voice language p o ≡ loaded q → IsUniform q
    by_name none f = ground (arith, f)
    by_name (some name) f = elim (Bool-cases (has_file name)) [
      | inl b ↦
          with_rate-IsUniform p q language (load_voice name) p.common_rate refl u
            (ground (arith, f, b))
      | inr b ↦ ground (arith, f, b)
    ]

load-IsUniform :
    (has_file : Text → Bool) (load_voice : Text → PiperVoice) (languages : List Text)
    (p q : PiperTts)
    → IsUniform p
    → load has_file load_voice languages p ≡ loaded q
    → IsUniform q
unfolding load
load-IsUniform has_file load_voice [] p q u e = subst IsUniform (ap (piper_or p) e) u
load-IsUniform has_file load_voice (language ∷ languages) p q u e =
    by_voice (load_one has_file load_voice language p) refl e
      (λ r. load-IsUniform has_file load_voice languages r q)
  where
    by_voice :
        (o : Loaded)
        → load_one has_file load_voice language p ≡ o
        → elim o [ loaded r ↦ load has_file load_voice languages r | failed x ↦ failed x ]
          ≡ loaded q
        → ((r : PiperTts)
            → IsUniform r
            → load has_file load_voice languages r ≡ loaded q
            → IsUniform q)
        → IsUniform q
    by_voice (loaded r) s f next =
        next r (load_one-IsUniform has_file load_voice language p r u s) f
    by_voice (failed x) s f next = ground (arith, f)

-- An adapter that is loaded hands on, for a phrase that is not blank in a language that it has a voice
-- for, every piece of audio that the voice makes, in order, at the rate of that voice, with the last
-- one marked; the stream never waits for ever, and it raises exactly when the synthesis does.
pub synthesise-IsStream :
    (has_file : Text → Bool) (load_voice : Text → PiperVoice) (languages : List Text)
    (names : Dict Text Text) (p : PiperTts) (text : Text) (voice : VoiceSpec) (chunk_id : ℕ)
    (clock : ℕ → ℕ) (v : PiperVoice)
    → new_piper has_file load_voice languages names ≡ loaded p
    → Dict.lookup voice.language p.voices ≡ some v
    → (length (strip text) == 0) ≡ false
    → let made = v.synthesize text (length_scale voice.speed) in
      let out = synthesise p text voice chunk_id clock in
      IsStream made.0 v.sample_rate out.0 × (out.1 ≡ (if made.1 then raised else finished))
unfolding synthesise new_piper Dict.lookup
synthesise-IsStream has_file load_voice languages names p text voice chunk_id clock v e h b =
    rw (h, b, uniform voice.language v h)
      (let made = v.synthesize text (length_scale voice.speed) in
        let out = from_queue-pieces v.sample_rate voice.language chunk_id clock made.0 in
        await_future-IsStream made.0 v.sample_rate made.1
          (from_queue (some v.sample_rate) voice.language chunk_id clock (produce made.0)) out.0
          out.1)
  where
    uniform : IsUniform p
    uniform =
        load-IsUniform has_file load_voice languages
          (record { names = Dict.update default_voices names; voices = []; common_rate = none }) p
          (λ l w k. ground (arith, k)) e
