-- ===== src/Chunker/Phrases/Drain.antt =====
-- `_emit_all` ends, and hands on every agreed word.
use lad_translate.Common.{
  leb, leb-false→lt, Bool-cases, length, All, ℕ, zero, suc, ◌+◌, ◌-◌, ◌≤◌, ◌<◌, min, max, ◌≡◌, refl,
  ap, ◌∙◌, inl, inr, true, false, Option, some, List, [], ◌∷◌, ◌++◌, append_assoc, append-nil,
  arith,
}
use lad_translate.Adapters.Events.{Hypothesis}
use lad_translate.Chunker.Types.{CommitReason, PhraseChunk}
use lad_translate.Chunker.Stability.{agreed_length}
use lad_translate.Chunker.Stability.Prefix.{
  outstanding, stable_end, length-outstanding, stable_prefix-none, stable_prefix-some, prefix_of,
}
use lad_translate.Chunker.Phrases.{emit_all, PhraseChunker, commit_phrase, emit_loop}
use lad_translate.Chunker.Phrases.Runs.{IsRun, commit_phrase-run}

-- What a drain from `c` with its phrases `ks` leaves behind.
pub record Drained (c : PhraseChunker) (reason : CommitReason) (ks : List PhraseChunk)
    (c' : PhraseChunker) : Type 0 where
  pub run : IsRun c ks c'
  pub committed : c'.tracker.committed ≡ max c.tracker.committed (stable_end c.tracker)
  pub reasons : All (λ k. (k.reason ≡ reason) × (k.word_count ≤ c.config.max_words)) ks
  pub config : c'.config ≡ c.config
  pub window : c'.tracker.window ≡ c.tracker.window
  pub asked : c'.tracker.n ≡ c.tracker.n
  pub surface : c'.tracker.latest_surface ≡ c.tracker.latest_surface
  pub hyp : (c'.last_hyp ≡ c.last_hyp) × (c'.last_hyp_wall ≡ c.last_hyp_wall)

module _ (hyp : Hypothesis) (reason : CommitReason) (now : Option ℕ) where
  -- One round of the loop, by what is left to commit.
  round_done :
      (fuel : ℕ) (c : PhraseChunker) (chunks : List PhraseChunk)
      → leb (stable_end c.tracker) c.tracker.committed ≡ true
      → emit_loop (suc fuel) c hyp reason now chunks ≡ some (c, chunks)
  unfolding emit_loop
  round_done fuel c chunks e = rw (stable_prefix-none c.tracker e, emit_loop)

  abbrev pub next : PhraseChunker → PhraseChunker × PhraseChunk
  next c =
      commit_phrase c hyp (prefix_of c.tracker)
        (min (length (outstanding c.tracker)) c.config.max_words) reason now

  round_commits :
      (fuel : ℕ) (c : PhraseChunker) (chunks : List PhraseChunk)
      → leb (stable_end c.tracker) c.tracker.committed ≡ false
      → emit_loop (suc fuel) c hyp reason now chunks
        ≡ emit_loop fuel (next c).0 hyp reason now (chunks ++ (next c).1 ∷ [])
  unfolding emit_loop
  round_commits fuel c chunks e = rw (stable_prefix-some c.tracker e, emit_loop)

  -- A round leaves the agreed words as they are.
  pub stable_end-next : (c : PhraseChunker) → stable_end (next c).0.tracker ≡ stable_end c.tracker
  unfolding stable_end agreed_length commit_phrase
  stable_end-next c = refl

  pub committed-next :
      (c : PhraseChunker)
      → (next c).0.tracker.committed
        ≡ c.tracker.committed + min (length (outstanding c.tracker)) c.config.max_words
  unfolding commit_phrase
  committed-next c = refl

  Drained-next :
      (c : PhraseChunker) (ks : List PhraseChunk) (c' : PhraseChunker)
      → 1 ≤ c.config.max_words
      → c.tracker.committed < stable_end c.tracker
      → Drained (next c).0 reason ks c'
      → Drained c reason ((next c).1 ∷ ks) c'
  unfolding commit_phrase
  Drained-next c ks c' pos more d = record {
    run =
        commit_phrase-run c hyp (prefix_of c.tracker)
          (min (length (outstanding c.tracker)) c.config.max_words) reason now refl
          (omega (arith, length-outstanding c.tracker)) (omega arith) ks c' d.run;
    committed =
        omega
          (arith, d.committed, stable_end-next c, committed-next c, length-outstanding c.tracker);
    reasons = ((refl, omega arith), d.reasons);
    config = d.config;
    window = d.window;
    asked = d.asked;
    surface = d.surface;
    hyp = d.hyp;
  }

  -- With a positive `max_words` and fuel for each outstanding word the loop ends, drained.
  emit_loop-Drained :
      (fuel : ℕ) (c : PhraseChunker) (chunks : List PhraseChunk)
      → 1 ≤ c.config.max_words
      → stable_end c.tracker - c.tracker.committed < fuel
      → (c' : PhraseChunker) × (ks : List PhraseChunk) × (emit_loop fuel c hyp reason now chunks
          ≡ some (c', chunks ++ ks))
        × Drained c reason ks c'
  emit_loop-Drained zero c chunks pos enough = (c, [], absurd (omega arith), absurd (omega arith))
  emit_loop-Drained (suc fuel) c chunks pos enough =
      elim (Bool-cases (leb (stable_end c.tracker) c.tracker.committed)) [
        | inl none_left ↦ (
          c,
          [],
          rw (append-nil chunks) (round_done fuel c chunks none_left),
          record {
            run = (refl, refl, refl);
            committed = ground arith;
            reasons = tt;
            config = refl;
            window = refl;
            asked = refl;
            surface = refl;
            hyp = (refl, refl);
          },
        )
        | inr more ↦
            let (c', ks, ends, drained) =
              emit_loop-Drained fuel (next c).0 (chunks ++ (next c).1 ∷ [])
                (unfold commit_phrase in pos)
                (omega (
                  arith,
                  stable_end-next c,
                  committed-next c,
                  length-outstanding c.tracker,
                  leb-false→lt _ _ more,
                )) in
            (
              c',
              (next c).1 ∷ ks,
              round_commits fuel c chunks more
                  ∙ ends
                  ∙ ap (λ s. some (c', s)) (append_assoc chunks ((next c).1 ∷ []) ks),
              Drained-next c ks c' pos (leb-false→lt _ _ more) drained,
            )
      ]

  -- With a positive `max_words` the drain ends, and it commits every agreed word, in phrases of at
  -- most `max_words` that run on from the committed words.
  pub emit_all-Drained :
      (c : PhraseChunker)
      → 1 ≤ c.config.max_words
      → (c' : PhraseChunker) × (ks : List PhraseChunk) × (emit_all c hyp reason now ≡ some (c', ks))
        × Drained c reason ks c'
  unfolding emit_all stable_end
  emit_all-Drained c pos =
      emit_loop-Drained (suc (length c.tracker.latest_surface)) c [] pos (omega arith)
