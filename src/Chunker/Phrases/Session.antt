-- ===== src/Chunker/Phrases/Session.antt =====
-- A whole session of the chunker: any sequence of hypotheses, ticks and flushes.
use lad_translate.Common.{
  ltb, Bool-cases, Option-cases, ℕ, ◌+◌, ◌≤◌, ◌≡◌, refl, sym, ◌∙◌, subst, inl, inr, true, false,
  Option, none, some, List, [], ◌∷◌, ◌++◌,
}
use lad_translate.Common.Text.{Text}
use lad_translate.Adapters.Events.{Hypothesis}
use lad_translate.Chunker.Types.{CommitReason, PhraseChunk}
use lad_translate.Chunker.Words.{Unicode}
use lad_translate.Chunker.Phrases.Calls.{feed-of, flush-of, tick_on, tick_lem}
use lad_translate.Chunker.Phrases.Decide.{try_emit-run}
use lad_translate.Chunker.Stability.{add}
use lad_translate.Chunker.Phrases.{
  try_emit, silence, add, final, observe, PhraseChunker, emit_all, feed, tick, flush,
}
use lad_translate.Chunker.Phrases.Runs.{IsRun, Continues}
use lad_translate.Chunker.Phrases.Drain.{emit_all-Drained}

-- The calls that the pipeline makes.
pub data Call : Type 0 where
  heard : Hypothesis → Call
  ticked : ℕ → Call
  ended : Call

unfoldable pub call : Unicode → PhraseChunker → Call → Option (PhraseChunker × List PhraseChunk)
call u c (heard hyp) = feed u c hyp
call u c (ticked now) = tick c now
call u c ended = flush c

abbrev pub behind :
    List PhraseChunk
    → Option (PhraseChunker × List PhraseChunk)
    → Option (PhraseChunker × List PhraseChunk)
behind ks none = none
behind ks (some (c, ls)) = some (c, ks ++ ls)

-- The phrases of all calls in order, and the state after them.
unfoldable pub calls :
    Unicode → PhraseChunker → List Call → Option (PhraseChunker × List PhraseChunk)
unfolding call
calls u c [] = some (c, [])
calls u c (e ∷ es) = elim (call u c e) [ none ↦ none | some (c', ks) ↦ behind ks (calls u c' es) ]

-- Phrases whose ids count on from `id`, each with a word at least, each starting in the audio where
-- the one before ended, and whose words add up to what `c'` has committed beyond `done`.
abbrev pub Follows : ℕ → ℕ → ℕ → List PhraseChunk → PhraseChunker → Type 0
Follows id cursor done [] c' =
    (c'.next_id ≡ id) × (c'.audio_cursor ≡ cursor) × (c'.tracker.committed ≡ done)
Follows id cursor done (k ∷ ks) c' =
    (k.chunk_id ≡ id)
    × (k.t_audio_start ≡ cursor)
    × (1 ≤ k.word_count)
    × Follows (id + 1) k.t_audio_end (done + k.word_count) ks c'

abbrev pub IsSequence : PhraseChunker → List PhraseChunk → PhraseChunker → Type 0
IsSequence c ks c' = Follows c.next_id c.audio_cursor c.tracker.committed ks c'

Continues-Follows :
    (ks : List PhraseChunk) (id cursor done : ℕ) (surface : List Text) (c' : PhraseChunker)
    → Continues id cursor done surface ks c'
    → Follows id cursor done ks c'
Continues-Follows [] id cursor done surface c' h = h
Continues-Follows (k ∷ ks) id cursor done surface c' (a, b, _, p, _, rest) =
    (a, b, p, Continues-Follows ks (id + 1) k.t_audio_end (done + k.word_count) surface c' rest)

Follows-append :
    (ks ls : List PhraseChunk) (id cursor done : ℕ) (c' c'' : PhraseChunker)
    → Follows id cursor done ks c'
    → IsSequence c' ls c''
    → Follows id cursor done (ks ++ ls) c''
Follows-append [] ls id cursor done c' c'' (a, b, d) h =
    subst (λ n. Follows n cursor done ls c'') a
      (subst (λ n. Follows c'.next_id n done ls c'') b
        (subst (λ n. Follows c'.next_id c'.audio_cursor n ls c'') d h))
Follows-append (k ∷ ks) ls id cursor done c' c'' (a, b, p, rest) h =
    (a, b, p, Follows-append ks ls (id + 1) k.t_audio_end (done + k.word_count) c' c'' rest h)

run-IsSequence :
    (c : PhraseChunker) (ks : List PhraseChunk) (c' : PhraseChunker)
    → IsRun c ks c'
    → IsSequence c ks c'
run-IsSequence c ks c' =
    Continues-Follows ks c.next_id c.audio_cursor c.tracker.committed c.tracker.latest_surface c'

-- What one call does to a chunker whose `max_words` is positive.
record Served (c : PhraseChunker) (r : Option (PhraseChunker × List PhraseChunk)) : Type 0 where
  state : PhraseChunker
  phrases : List PhraseChunk
  returns : r ≡ some (state, phrases)
  sequence : IsSequence c phrases state
  config : state.config ≡ c.config

Drained-Served :
    (c : PhraseChunker) (hyp : Hypothesis) (reason : CommitReason) (now : Option ℕ)
    → 1 ≤ c.config.max_words
    → Served c (emit_all c hyp reason now)
Drained-Served c hyp reason now pos =
    let (c', ks, e, d) = emit_all-Drained hyp reason now c pos in
    record {
      state = c';
      phrases = ks;
      returns = e;
      sequence = run-IsSequence c ks c' d.run;
      config = d.config;
    }

idle-Served : (c : PhraseChunker) → Served c (some (c, []))
idle-Served c = record {
  state = c;
  phrases = [];
  returns = refl;
  sequence = (refl, refl, refl);
  config = refl;
}

feed-Served :
    (u : Unicode) (c : PhraseChunker) (hyp : Hypothesis)
    → 1 ≤ c.config.max_words
    → Served c (feed u c hyp)
unfolding observe add
feed-Served u c hyp pos = elim (Bool-cases hyp.is_final) [
  | inl e ↦
      let s = Drained-Served (observe u c hyp) hyp final none pos in
      record {
        state = s.state;
        phrases = s.phrases;
        returns = feed-of u c hyp true e ∙ s.returns;
        sequence = s.sequence;
        config = s.config;
      }
  | inr e ↦
      let c' = observe u c hyp in
      let (run, _, kept) = try_emit-run u c' hyp pos in
      record {
        state = (try_emit u c' hyp).0;
        phrases = (try_emit u c' hyp).1;
        returns = feed-of u c hyp false e;
        sequence = run-IsSequence c' (try_emit u c' hyp).1 (try_emit u c' hyp).0 run;
        config = kept.config;
      }
]

tick_on-Served :
    (c : PhraseChunker) (now : ℕ) (w : Option ℕ) (o : Option Hypothesis)
    → 1 ≤ c.config.max_words
    → Served c (tick_on c now w o)
tick_on-Served c now none o pos = idle-Served c
tick_on-Served c now (some wall) none pos = idle-Served c
tick_on-Served c now (some wall) (some hyp) pos =
    elim (Bool-cases (ltb now (wall + c.config.silence_commit_s))) [
      | inl e ↦ rw e (idle-Served c)
      | inr e ↦ rw e (Drained-Served c hyp silence (some now) pos)
    ]

tick-Served : (c : PhraseChunker) (now : ℕ) → 1 ≤ c.config.max_words → Served c (tick c now)
tick-Served c now pos =
    subst (Served c) (sym (tick_lem c now)) (tick_on-Served c now c.last_hyp_wall c.last_hyp pos)

flush-Served : (c : PhraseChunker) → 1 ≤ c.config.max_words → Served c (flush c)
flush-Served c pos = elim (Option-cases c.last_hyp) [
  | inl e ↦ subst (Served c) (sym (flush-of c none e)) (idle-Served c)
  | inr (hyp, e) ↦
      subst (Served c) (sym (flush-of c (some hyp) e)) (Drained-Served c hyp final none pos)
]

call-Served :
    (u : Unicode) (c : PhraseChunker) (e : Call) → 1 ≤ c.config.max_words → Served c (call u c e)
unfolding call
call-Served u c (heard hyp) pos = feed-Served u c hyp pos
call-Served u c (ticked now) pos = tick-Served c now pos
call-Served u c ended pos = flush-Served c pos

-- With a positive `max_words` any sequence of calls returns, and its phrases are numbered without a
-- gap, cover the audio without a gap, have a word at least each, and hold as many words as have
-- been committed.
pub calls-IsSequence :
    (u : Unicode) (c : PhraseChunker) (es : List Call)
    → 1 ≤ c.config.max_words
    → (c' : PhraseChunker) × (ks : List PhraseChunk) × (calls u c es ≡ some (c', ks))
      × IsSequence c ks c'
unfolding calls
calls-IsSequence u c [] pos = (c, [], refl, (refl, refl, refl))
calls-IsSequence u c (e ∷ es) pos =
    let s = call-Served u c e pos in
    let (c', ls, returns, rest) = calls-IsSequence u s.state es (rw s.config pos) in
    (
      c',
      s.phrases ++ ls,
      rw (s.returns, calls, returns),
      Follows-append s.phrases ls c.next_id c.audio_cursor c.tracker.committed s.state c' s.sequence
          rest,
    )
