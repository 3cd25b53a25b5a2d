-- ===== src/Chunker/Phrases/Settle.antt =====
-- What finals, silence and the end of the session leave behind: which words are handed on, which
-- are not, and the setting under which the drain does not end.
use lad_translate.Common.{
  lt→ltb, lt→leb-false, le→ltb-false, length, drop, All, ℕ, zero, suc, ◌+◌, ◌≤◌, ◌<◌, min, max, ◌≡◌,
  refl, sym, ap, ◌∙◌, ◌≢◌, true, Option, none, some, List, [], ◌∷◌, ◌++◌, arith,
}
use lad_translate.Common.Text.{Text}
use lad_translate.Adapters.Events.{Hypothesis}
use lad_translate.Chunker.Types.{CommitReason, PhraseChunk, final, silence}
use lad_translate.Chunker.Words.{Unicode, tokenise}
use lad_translate.Chunker.Stability.{agreed_length, pending_after_commit}
use lad_translate.Chunker.Stability.Finals.{IsValid, agreed_length-final, surface-add}
use lad_translate.Chunker.Stability.Prefix.{stable_end, stable_prefix-some, prefix_of, outstanding}
use lad_translate.Chunker.Phrases.{
  PhraseChunker, commit_phrase, emit_loop, observe, feed, tick, flush,
}
use lad_translate.Chunker.Phrases.Runs.{IsRun}
use lad_translate.Chunker.Phrases.Drain.{stable_end-next, committed-next, Drained, emit_all-Drained}
use lad_translate.Chunker.Phrases.Calls.{feed-of, flush-of, tick_lem, tick_on}

drop-all : (n : ℕ) (xs : List Text) → length xs ≤ n → drop n xs ≡ []
drop-all zero [] h = refl
drop-all zero (x ∷ xs) h = elim h [ ]
drop-all (suc n) [] h = refl
drop-all (suc n) (x ∷ xs) h = drop-all n xs (omega arith)

pending-Drained :
    (c : PhraseChunker) (reason : CommitReason) (ks : List PhraseChunk) (c' : PhraseChunker)
    → Drained c reason ks c'
    → pending_after_commit c'.tracker
      ≡ drop (max c.tracker.committed (stable_end c.tracker)) c.tracker.latest_surface
unfolding pending_after_commit
pending-Drained c reason ks c' d =
    ap (λ (n : ℕ). drop n c'.tracker.latest_surface) d.committed
    ∙ ap (λ (s : List Text). drop (max c.tracker.committed (stable_end c.tracker)) s) d.surface

module _ (u : Unicode) (c : PhraseChunker) (hyp : Hypothesis) where
  pub final_end :
      IsValid c.tracker
      → hyp.is_final ≡ true
      → stable_end (observe u c hyp).tracker ≡ length (observe u c hyp).tracker.latest_surface
  unfolding observe stable_end agreed_length tokenise
  final_end v e = omega (
    arith,
    agreed_length-final u c.tracker hyp v e,
    ap (λ (s : List Text). length s) (surface-add u c.tracker hyp),
  )

  pub final_Drained :
      1 ≤ c.config.max_words
      → hyp.is_final ≡ true
      → (c' : PhraseChunker) × (ks : List PhraseChunk) × (feed u c hyp ≡ some (c', ks))
        × Drained (observe u c hyp) final ks c'
  unfolding observe
  final_Drained pos e =
      let (c', ks, ends, d) = emit_all-Drained hyp final none (observe u c hyp) pos in
      (c', ks, feed-of u c hyp true e ∙ ends, d)

  -- A final hypothesis is handed on to the last word: the phrases run on from the committed words,
  -- none is longer than `max_words`, and no word of the hypothesis is left pending.
  pub feed-final :
      IsValid c.tracker
      → 1 ≤ c.config.max_words
      → hyp.is_final ≡ true
      → (c' : PhraseChunker) × (ks : List PhraseChunk) × (feed u c hyp ≡ some (c', ks))
        × IsRun (observe u c hyp) ks c'
        × All (λ k. (k.reason ≡ final) × (k.word_count ≤ c.config.max_words)) ks
        × (pending_after_commit c'.tracker ≡ [])
  unfolding observe
  feed-final v pos e =
      let (c', ks, ends, d) = final_Drained pos e in
      (
        c',
        ks,
        ends,
        d.run,
        d.reasons,
        pending-Drained (observe u c hyp) final ks c' d
            ∙ drop-all
                (max (observe u c hyp).tracker.committed (stable_end (observe u c hyp).tracker))
                (observe u c hyp).tracker.latest_surface (omega (arith, final_end v e)),
      )

-- With a positive `max_words` the end of the session hands on the agreed words and nothing else:
-- what is left pending are the words of the last hypothesis behind the agreed and the committed
-- ones.
pub flush-pending :
    (c : PhraseChunker) (hyp : Hypothesis)
    → 1 ≤ c.config.max_words
    → c.last_hyp ≡ some hyp
    → (c' : PhraseChunker) × (ks : List PhraseChunk) × (flush c ≡ some (c', ks))
      × IsRun c ks c'
      × (pending_after_commit c'.tracker
          ≡ drop (max c.tracker.committed (stable_end c.tracker)) c.tracker.latest_surface)
flush-pending c hyp pos e =
    let (c', ks, ends, d) = emit_all-Drained hyp final none c pos in
    (c', ks, flush-of c (some hyp) e ∙ ends, d.run, pending-Drained c final ks c' d)

drop-ne : (n : ℕ) (xs : List Text) → n < length xs → drop n xs ≢ []
drop-ne n [] h = elim h [ ]
drop-ne zero (x ∷ xs) h = λ e. cc e
drop-ne (suc n) (x ∷ xs) h = drop-ne n xs (omega arith)

-- With a positive `max_words`, when the last hypothesis has words behind the agreed and the
-- committed ones, `flush` loses them: it returns and leaves words pending.
pub flush_loses :
    (c : PhraseChunker) (hyp : Hypothesis)
    → 1 ≤ c.config.max_words
    → c.last_hyp ≡ some hyp
    → stable_end c.tracker < length c.tracker.latest_surface
    → c.tracker.committed < length c.tracker.latest_surface
    → (c' : PhraseChunker) × (ks : List PhraseChunk) × (flush c ≡ some (c', ks))
      × (pending_after_commit c'.tracker ≢ [])
flush_loses c hyp pos e tail done =
    let (c', ks, ends, _, pending) = flush-pending c hyp pos e in
    (
      c',
      ks,
      ends,
      λ none_left.
          drop-ne (max c.tracker.committed (stable_end c.tracker)) c.tracker.latest_surface
            (omega arith) (sym pending ∙ none_left),
    )

tick-cases :
    (c : PhraseChunker) (hyp : Hypothesis) (wall now : ℕ)
    → 1 ≤ c.config.max_words
    → c.last_hyp ≡ some hyp
    → c.last_hyp_wall ≡ some wall
    → (now < wall + c.config.silence_commit_s → tick c now ≡ some (c, []))
      × (wall + c.config.silence_commit_s ≤ now
          → (c' : PhraseChunker) × (ks : List PhraseChunk) × (tick c now ≡ some (c', ks))
            × Drained c silence ks c')
tick-cases c hyp wall now pos e f =
    let by_case : tick c now ≡ tick_on c now (some wall) (some hyp) =
      tick_lem c now
      ∙ ap (λ (w : Option ℕ). tick_on c now w c.last_hyp) f
      ∙ ap (λ (o : Option Hypothesis). tick_on c now (some wall) o) e in
    (
      λ early. by_case ∙ rw (lt→ltb _ _ early) refl,
      λ late.
          let (c', ks, ends, d) = emit_all-Drained hyp silence (some now) c pos in
          (c', ks, by_case ∙ rw (le→ltb-false _ _ late) ends, d),
    )

-- With a positive `max_words`, once `silence_commit_s` has passed since the last hypothesis a tick
-- returns and hands on every agreed word, in phrases of at most `max_words`.
pub tick-silence :
    (c : PhraseChunker) (hyp : Hypothesis) (wall now : ℕ)
    → 1 ≤ c.config.max_words
    → c.last_hyp ≡ some hyp
    → c.last_hyp_wall ≡ some wall
    → wall + c.config.silence_commit_s ≤ now
    → (c' : PhraseChunker) × (ks : List PhraseChunk) × (tick c now ≡ some (c', ks))
      × Drained c silence ks c'
tick-silence c hyp wall now pos e f late = (tick-cases c hyp wall now pos e f).1 late

module _ (hyp : Hypothesis) (reason : CommitReason) (now : Option ℕ) where
  -- With `max_words` 0 and an agreed word outstanding the drain never ends: no fuel is enough.
  pub emit_loop_diverges :
      (fuel : ℕ) (c : PhraseChunker) (chunks : List PhraseChunk)
      → c.config.max_words ≡ 0
      → c.tracker.committed < stable_end c.tracker
      → emit_loop fuel c hyp reason now chunks ≡ none
  unfolding emit_loop
  emit_loop_diverges zero c chunks zero_words more = refl
  emit_loop_diverges (suc fuel) c chunks zero_words more =
      rw (stable_prefix-some c.tracker (lt→leb-false _ _ more), emit_loop)
        (emit_loop_diverges fuel
          (commit_phrase c hyp (prefix_of c.tracker)
            (min (length (outstanding c.tracker)) c.config.max_words) reason now).0
          (chunks
            ++ (commit_phrase c hyp (prefix_of c.tracker)
                (min (length (outstanding c.tracker)) c.config.max_words) reason now).1
              ∷ [])
          (unfold commit_phrase in zero_words)
          (omega (arith, stable_end-next hyp reason now c, committed-next hyp reason now c)))
