-- ===== src/Chunker/Phrases/Calls.antt =====
-- The calls `feed`, `tick` and `flush`, by what they test.
use lad_translate.Common.{
  ltb, if◌then◌else◌, ℕ, ◌+◌, ◌≡◌, refl, ap, Bool, Option, none, some, List, [],
}
use lad_translate.Adapters.Events.{Hypothesis}
use lad_translate.Chunker.Types.{PhraseChunk, final, silence}
use lad_translate.Chunker.Words.{Unicode}
use lad_translate.Chunker.Phrases.{PhraseChunker, emit_all, observe, try_emit, feed, tick, flush}

-- `feed` by whether the hypothesis is a final.
pub feed-of :
    (u : Unicode) (c : PhraseChunker) (hyp : Hypothesis) (b : Bool)
    → hyp.is_final ≡ b
    → feed u c hyp ≡ (
        if b
        then emit_all (observe u c hyp) hyp final none
        else some (try_emit u (observe u c hyp) hyp))
unfolding feed
feed-of u c hyp b e =
    ap
      (λ (b : Bool).
        if b
        then emit_all (observe u c hyp) hyp final none
        else some (try_emit u (observe u c hyp) hyp))
      e

-- `flush` and `tick` by what the chunker has heard.
pub flush-of :
    (c : PhraseChunker) (o : Option Hypothesis)
    → c.last_hyp ≡ o
    → flush c ≡ elim o [ none ↦ some (c, []) | some hyp ↦ emit_all c hyp final none ]
unfolding flush
flush-of c o e =
    ap
      (λ (o : Option Hypothesis).
        let r : Option (PhraseChunker × List PhraseChunk) = elim o [
          | none ↦ some (c, [])
          | some hyp ↦ emit_all c hyp final none
        ] in
        r)
      e

abbrev pub tick_on :
    PhraseChunker → ℕ → Option ℕ → Option Hypothesis → Option (PhraseChunker × List PhraseChunk)
tick_on c now none o = some (c, [])
tick_on c now (some wall) none = some (c, [])
tick_on c now (some wall) (some hyp) =
    if ltb now (wall + c.config.silence_commit_s)
    then some (c, [])
    else emit_all c hyp silence (some now)

tick-of :
    (c : PhraseChunker) (now : ℕ) (w : Option ℕ) (o : Option Hypothesis)
    → elim w [
      | none ↦ some (c, [])
      | some wall ↦ elim o [
        | none ↦ some (c, [])
        | some hyp ↦
            if ltb now (wall + c.config.silence_commit_s)
            then some (c, [])
            else emit_all c hyp silence (some now)
      ]
    ]
      ≡ tick_on c now w o
tick-of c now none o = refl
tick-of c now (some wall) none = refl
tick-of c now (some wall) (some hyp) = refl

pub tick_lem : (c : PhraseChunker) (now : ℕ) → tick c now ≡ tick_on c now c.last_hyp_wall c.last_hyp
unfolding tick
tick_lem c now = tick-of c now c.last_hyp_wall c.last_hyp
