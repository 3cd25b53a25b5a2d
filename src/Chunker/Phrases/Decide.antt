-- ===== src/Chunker/Phrases/Decide.antt =====
-- What `_try_emit` commits on an interim hypothesis, and why.
use lad_translate.Common.{
  ltb, leb, ltb→lt, leb→le, leb-false→lt, lt→leb-false, ltb-false→le, Bool-cases, length, All, ℕ,
  ◌+◌, ◌≤◌, ◌<◌, ◌≡◌, refl, sym, ap, ◌∙◌, ◌⊎◌, inl, inr, true, false, ◌&&◌, none, List, [], arith,
}
use lad_translate.Adapters.Events.{Hypothesis}
use lad_translate.Chunker.Types.{CommitReason, clause, max_words}
use lad_translate.Chunker.Words.{Unicode}
use lad_translate.Chunker.Clause.Cuts.{find_boundary-le, le-find_boundary}
use lad_translate.Chunker.Clause.{find_boundary}
use lad_translate.Chunker.Stability.Prefix.{
  length-outstanding, outstanding, stable_end, prefix_of, stable_prefix-none, stable_prefix-some,
}
use lad_translate.Chunker.Phrases.Runs.{IsRun, commit_phrase-run}
use lad_translate.Chunker.Phrases.{
  stability_timeout, commit_phrase, one, decide_commit, PhraseChunk, PhraseChunker, try_emit,
  allow_weak,
}

module _ (u : Unicode) (c : PhraseChunker) (hyp : Hypothesis) where
  -- With nothing outstanding nothing happens.
  try_emit_idle : leb (stable_end c.tracker) c.tracker.committed ≡ true → try_emit u c hyp ≡ (c, [])
  unfolding try_emit
  try_emit_idle e = rw (stable_prefix-none c.tracker e, try_emit)

  try_emit_decides :
      leb (stable_end c.tracker) c.tracker.committed ≡ false
      → try_emit u c hyp ≡ decide_commit u c hyp (prefix_of c.tracker)
  unfolding try_emit
  try_emit_decides e = rw (stable_prefix-some c.tracker e, try_emit)

  -- The length of a phrase, by why it was committed.
  abbrev pub HasSize : PhraseChunk → Type 0
  HasSize k =
      (k.word_count ≤ c.config.max_words)
      × ((k.reason ≡ max_words) ⊎ (c.config.min_words ≤ k.word_count))

  -- What `decide_commit` returns: nothing, or one commit of `count` words.
  data Decision : PhraseChunker × List PhraseChunk → Type 0 where
    held :
        length (outstanding c.tracker) < c.config.max_words
        → (c.config.min_words ≤ length (outstanding c.tracker)
            → hyp.t_wall < (prefix_of c.tracker).first_seen_wall + c.config.max_wait_s)
        → Decision (c, [])
    commits :
        (count : ℕ) (reason : CommitReason)
        → 1 ≤ count
        → count ≤ length (outstanding c.tracker)
        → count ≤ c.config.max_words
        → (reason ≡ max_words) ⊎ (c.config.min_words ≤ count)
        → {r : PhraseChunker × List PhraseChunk}
        → r ≡ one (commit_phrase c hyp (prefix_of c.tracker) count reason none)
        → Decision r

  decide_commit-Decision :
      1 ≤ c.config.max_words
      → 1 ≤ length (outstanding c.tracker)
      → Decision (decide_commit u c hyp (prefix_of c.tracker))
  unfolding decide_commit
  decide_commit-Decision pos more =
      let len = length (outstanding c.tracker) in
      let weak_allowed = allow_weak u c.config len in
      let end : ℕ = (find_boundary u (outstanding c.tracker) c.config.min_words weak_allowed).0 in
      elim (Bool-cases (leb c.config.max_words len)) [
        | inl full ↦ rw full (
            commits c.config.max_words max_words pos (leb→le _ _ full) (omega arith) (inl refl)
              refl)
        | inr short ↦ rw short (elim (Bool-cases (ltb 0 end)) [
          | inl cut ↦ rw cut (
              commits end clause (ltb→lt _ _ cut)
                (find_boundary-le u (outstanding c.tracker) c.config.min_words weak_allowed)
                (omega (
                  arith,
                  leb-false→lt _ _ short,
                  find_boundary-le u (outstanding c.tracker) c.config.min_words weak_allowed,
                ))
                (inr (
                  le-find_boundary u (outstanding c.tracker) c.config.min_words weak_allowed
                    (ltb→lt _ _ cut)))
                refl)
          | inr no_cut ↦
              rw no_cut
                (elim (Bool-cases (
                  leb ((prefix_of c.tracker).first_seen_wall + c.config.max_wait_s) hyp.t_wall
                  && leb c.config.min_words len)) [
                    | inl late ↦ rw late (
                        commits len stability_timeout more (omega arith)
                          (omega (arith, leb-false→lt _ _ short)) (inr (ground arith)) refl)
                    | inr early ↦ rw early (held (leb-false→lt _ _ short) (λ l. ground arith))
                  ])
        ])
      ]

  -- What an interim hypothesis leaves as it was.
  pub record Kept (c' : PhraseChunker) : Type 0 where
    pub config : c'.config ≡ c.config
    pub window : c'.tracker.window ≡ c.tracker.window
    pub asked : c'.tracker.n ≡ c.tracker.n
    pub surface : c'.tracker.latest_surface ≡ c.tracker.latest_surface

  Decision-run :
      (r : PhraseChunker × List PhraseChunk)
      → Decision r
      → IsRun c r.1 r.0 × All HasSize r.1 × Kept r.0
  unfolding commit_phrase
  Decision-run r (held _ _) = (
    (refl, refl, refl),
    tt,
    record { config = refl; window = refl; asked = refl; surface = refl },
  )
  Decision-run r (commits count reason pos fits small size e) = rw e (
    commit_phrase-run c hyp (prefix_of c.tracker) count reason none refl pos fits []
        (commit_phrase c hyp (prefix_of c.tracker) count reason none).0 (refl, refl, refl),
    ((small, size), tt),
    record { config = refl; window = refl; asked = refl; surface = refl },
  )

  outstanding_some :
      leb (stable_end c.tracker) c.tracker.committed ≡ false → 1 ≤ length (outstanding c.tracker)
  outstanding_some more = omega (arith, length-outstanding c.tracker, leb-false→lt _ _ more)

  -- With a positive `max_words`, on an interim hypothesis the chunker emits a run of phrases behind
  -- the committed words, each within `max_words`, and each at least `min_words` long unless it was
  -- forced out at `max_words`; the configuration, the window and the latest words stay as they
  -- were.
  pub try_emit-run :
      1 ≤ c.config.max_words
      → IsRun c (try_emit u c hyp).1 (try_emit u c hyp).0
        × All HasSize (try_emit u c hyp).1
        × Kept (try_emit u c hyp).0
  try_emit-run pos = elim (Bool-cases (leb (stable_end c.tracker) c.tracker.committed)) [
    | inl idle ↦ rw (try_emit_idle idle) (
      (refl, refl, refl),
      tt,
      record { config = refl; window = refl; asked = refl; surface = refl },
    )
    | inr more ↦ rw (try_emit_decides more) (
        Decision-run (decide_commit u c hyp (prefix_of c.tracker))
          (decide_commit-Decision pos (outstanding_some more)))
  ]

  Decision-held :
      (r : PhraseChunker × List PhraseChunk)
      → Decision r
      → r.1 ≡ []
      → (length (outstanding c.tracker) < c.config.max_words)
        × (c.config.min_words ≤ length (outstanding c.tracker)
            → hyp.t_wall < (prefix_of c.tracker).first_seen_wall + c.config.max_wait_s)
  Decision-held r (held short early) e = (short, early)
  Decision-held r (commits count reason pos fits small size same) e = absurd (cc (same, e))

  pub held_back :
      1 ≤ c.config.max_words
      → c.tracker.committed < stable_end c.tracker
      → (try_emit u c hyp).1 ≡ []
      → (length (outstanding c.tracker) < c.config.max_words)
        × (c.config.min_words ≤ length (outstanding c.tracker)
            → hyp.t_wall < (prefix_of c.tracker).first_seen_wall + c.config.max_wait_s)
  held_back pos more e =
      let open_words = lt→leb-false (stable_end c.tracker) c.tracker.committed more in
      Decision-held (decide_commit u c hyp (prefix_of c.tracker))
        (decide_commit-Decision pos (outstanding_some open_words))
        (ap (λ (r : PhraseChunker × List PhraseChunk). r.1) (sym (try_emit_decides open_words)) ∙ e)

  -- With a positive `max_words`, agreed words are held back only while they are fewer than
  -- `max_words`, and while they are fewer than `min_words` or were first agreed on less than
  -- `max_wait_s` before this hypothesis.
  pub try_emit-held :
      1 ≤ c.config.max_words
      → c.tracker.committed < stable_end c.tracker
      → (try_emit u c hyp).1 ≡ []
      → (length (outstanding c.tracker) < c.config.max_words)
        × ((length (outstanding c.tracker) < c.config.min_words)
            ⊎ (hyp.t_wall < (prefix_of c.tracker).first_seen_wall + c.config.max_wait_s))
  try_emit-held pos more nothing =
      let (below, waits) = held_back pos more nothing in
      (
        below,
        elim (Bool-cases (ltb (length (outstanding c.tracker)) c.config.min_words)) [
          | inl e ↦ inl (ltb→lt _ _ e)
          | inr e ↦ inr (waits (ltb-false→le _ _ e))
        ],
      )
