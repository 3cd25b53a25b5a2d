-- ===== src/Chunker/Phrases/Runs.antt =====
-- Runs of phrases that follow one another without a gap, and what one commit adds to a run.
use lad_translate.Common.{
  length, take, drop, ℕ, zero, suc, ◌+◌, ◌≤◌, ◌≡◌, refl, ap, Option, List, [], ◌∷◌, arith,
}
use lad_translate.Common.Text.{Text, join}
use lad_translate.Adapters.Events.{Hypothesis}
use lad_translate.Chunker.Types.{CommitReason, PhraseChunk}
use lad_translate.Chunker.Stability.{StabilityTracker, StablePrefix}
use lad_translate.Chunker.Stability.Prefix.{outstanding, stable_end, length-outstanding}
use lad_translate.Chunker.Phrases.{PhraseChunker, commit_phrase}

-- The phrases that are emitted from a state with `id` as its next id, `cursor` as its audio position
-- and `done` words of `surface` committed, and that lead to the state `c'`.
abbrev pub Continues : ℕ → ℕ → ℕ → List Text → List PhraseChunk → PhraseChunker → Type 0
Continues id cursor done surface [] c' =
    (c'.next_id ≡ id) × (c'.audio_cursor ≡ cursor) × (c'.tracker.committed ≡ done)
Continues id cursor done surface (k ∷ ks) c' =
    (k.chunk_id ≡ id)
    × (k.t_audio_start ≡ cursor)
    × (k.text ≡ join (take k.word_count (drop done surface)))
    × (1 ≤ k.word_count)
    × (done + k.word_count ≤ length surface)
    × Continues (id + 1) k.t_audio_end (done + k.word_count) surface ks c'

-- The ids count on from the last one, each phrase starts in the audio where the one before ended,
-- and the texts are the words of the latest hypothesis behind the committed ones, in order.
abbrev pub IsRun : PhraseChunker → List PhraseChunk → PhraseChunker → Type 0
IsRun c ks c' =
    Continues c.next_id c.audio_cursor c.tracker.committed c.tracker.latest_surface ks c'

take-drop-take :
    (count done end : ℕ) (xs : List Text)
    → done + count ≤ end
    → take count (drop done (take end xs)) ≡ take count (drop done xs)
take-drop-take zero done end xs l = refl
take-drop-take (suc count) zero zero xs l = absurd (omega arith)
take-drop-take (suc count) zero (suc end) [] l = refl
take-drop-take (suc count) zero (suc end) (x ∷ xs) l =
    ap (λ s. x ∷ s) (take-drop-take count zero end xs (omega arith))
take-drop-take (suc count) (suc done) zero xs l = absurd (omega arith)
take-drop-take (suc count) (suc done) (suc end) [] l = refl
take-drop-take (suc count) (suc done) (suc end) (x ∷ xs) l =
    take-drop-take (suc count) done end xs (omega arith)

-- The words of `outstanding` are those of the latest hypothesis behind the committed ones.
pub take-outstanding :
    (t : StabilityTracker) (count : ℕ)
    → count ≤ length (outstanding t)
    → 1 ≤ count
    → take count (outstanding t) ≡ take count (drop t.committed t.latest_surface)
unfolding outstanding
take-outstanding t count l p =
    take-drop-take count t.committed (stable_end t) t.latest_surface
      (omega (arith, length-outstanding t))

pub fits-outstanding :
    (t : StabilityTracker) (count : ℕ)
    → count ≤ length (outstanding t)
    → 1 ≤ count
    → t.committed + count ≤ length t.latest_surface
unfolding stable_end
fits-outstanding t count l p = omega (arith, length-outstanding t)

module _ (c : PhraseChunker) (hyp : Hypothesis) (prefix : StablePrefix) (count : ℕ)
    (reason : CommitReason) (now : Option ℕ) (same : prefix.tokens ≡ outstanding c.tracker)
    (some_words : 1 ≤ count) (fits : count ≤ length (outstanding c.tracker)) where
  -- A commit puts its phrase in front of any run from the state that it leaves.
  pub commit_phrase-run :
      (ks : List PhraseChunk) (c' : PhraseChunker)
      → IsRun (commit_phrase c hyp prefix count reason now).0 ks c'
      → IsRun c ((commit_phrase c hyp prefix count reason now).1 ∷ ks) c'
  unfolding commit_phrase
  commit_phrase-run ks c' run = (
    refl,
    refl,
    ap join (rw same (take-outstanding c.tracker count fits some_words)),
    some_words,
    fits-outstanding c.tracker count fits some_words,
    run,
  )
