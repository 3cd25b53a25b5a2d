-- ===== src/Chunker/Phrases/Spoken.antt =====
-- The words that a run of phrases hands on: each word of the hypothesis once, in order.
use lad_translate.Common.{
  length, take, drop, length-take, length-drop, All, All-drop, All-take, ℕ, zero, suc, ◌+◌, ◌-◌,
  ◌≤◌, ◌≡◌, refl, sym, ap, ◌∙◌, true, some, List, [], ◌∷◌, ◌++◌, arith,
}
use lad_translate.Common.Text.{Text, join}
use lad_translate.Common.Text.Words.{IsWord, split-IsWord, split-join}
use lad_translate.Adapters.Events.{Hypothesis}
use lad_translate.Chunker.Types.{PhraseChunk}
use lad_translate.Chunker.Words.{Unicode, tokenise}
use lad_translate.Chunker.Stability.Finals.{IsValid}
use lad_translate.Chunker.Phrases.{PhraseChunker, feed, observe}
use lad_translate.Chunker.Stability.{add}
use lad_translate.Chunker.Phrases.Settle.{final_Drained, final_end}
use lad_translate.Chunker.Phrases.Runs.{Continues}

-- The words of all phrases, in order.
abbrev pub spoken : List PhraseChunk → List Text
spoken [] = []
spoken (k ∷ ks) = tokenise k.text ++ spoken ks

-- `word_count` is the number of words of the text.
abbrev pub IsCounted : PhraseChunk → Type 0
IsCounted k = length (tokenise k.text) ≡ k.word_count

text_words : (ws : List Text) → All IsWord ws → tokenise (join ws) ≡ ws
unfolding tokenise
text_words = split-join

take-add : (m n : ℕ) (xs : List Text) → take (m + n) xs ≡ take m xs ++ take n (drop m xs)
take-add zero n xs = let e : 0 + n ≡ n = omega arith in rw e
take-add (suc m) zero [] = let e : suc m + 0 ≡ suc m = omega arith in rw e
take-add (suc m) (suc n) [] = let e : suc m + suc n ≡ suc (m + suc n) = omega arith in rw e
take-add (suc m) n (x ∷ xs) =
    let e : suc m + n ≡ suc (m + n) = omega arith in rw e (ap (λ s. x ∷ s) (take-add m n xs))

drop-add : (m n : ℕ) (xs : List Text) → drop n (drop m xs) ≡ drop (m + n) xs
drop-add zero n xs = let e : 0 + n ≡ n = omega arith in rw e
drop-add (suc m) zero [] = let e : suc m + 0 ≡ suc m = omega arith in rw e
drop-add (suc m) (suc n) [] = let e : suc m + suc n ≡ suc (m + suc n) = omega arith in rw e
drop-add (suc m) n (x ∷ xs) =
    let e : suc m + n ≡ suc (m + n) = omega arith in rw e (drop-add m n xs)

-- A run hands on the words between what was committed before it and what is committed after it.
Continues-spoken :
    (ks : List PhraseChunk) (id cursor done : ℕ) (surface : List Text) (c' : PhraseChunker)
    → All IsWord surface
    → Continues id cursor done surface ks c'
    → All IsCounted ks
      × (done ≤ c'.tracker.committed)
      × (spoken ks ≡ take (c'.tracker.committed - done) (drop done surface))
Continues-spoken [] id cursor done surface c' h (_, _, e) =
    let none_more : c'.tracker.committed - done ≡ 0 = omega arith in (tt, omega arith, rw none_more)
Continues-spoken (k ∷ ks) id cursor done surface c' h (_, _, text, pos, fits, rest) =
    let n : ℕ = k.word_count in
    let words : List Text = take n (drop done surface) in
    let same : tokenise k.text ≡ words =
      ap tokenise text
      ∙ text_words words (All-take IsWord n (drop done surface) (All-drop IsWord done surface h)) in
    let (counted, le, said) =
      Continues-spoken ks (id + 1) k.t_audio_end (done + n) surface c' h rest in
    let size : length words ≡ n =
      omega (arith, length-take {0} n (drop done surface), length-drop {0} done surface) in
    let parts : n + (c'.tracker.committed - (done + n)) ≡ c'.tracker.committed - done =
      omega arith in
    (
      (ap (λ (s : List Text). length s) same ∙ size, counted),
      omega arith,
      ap (λ (s : List Text). s ++ spoken ks) same
          ∙ ap (λ (s : List Text). words ++ s) said
          ∙ ap (λ (s : List Text). words ++ take (c'.tracker.committed - (done + n)) s)
              (sym (drop-add done n surface))
          ∙ sym (take-add n (c'.tracker.committed - (done + n)) (drop done surface))
          ∙ ap (λ (m : ℕ). take m (drop done surface)) parts,
    )

take-long : (n : ℕ) (xs : List Text) → length xs ≤ n → take n xs ≡ xs
take-long zero [] h = refl
take-long zero (x ∷ xs) h = elim h [ ]
take-long (suc n) [] h = refl
take-long (suc n) (x ∷ xs) h = ap (λ s. x ∷ s) (take-long n xs (omega arith))

module _ (u : Unicode) (c : PhraseChunker) (hyp : Hypothesis) where
  -- With a valid tracker and a positive `max_words`, when a final hypothesis arrives, `feed`
  -- returns, the texts of the phrases are, split into words, exactly the words of the hypothesis
  -- that were not committed before, each once and in order, and every `word_count` is right.
  pub feed-final_spoken :
      IsValid c.tracker
      → 1 ≤ c.config.max_words
      → hyp.is_final ≡ true
      → (c' : PhraseChunker) × (ks : List PhraseChunk) × (feed u c hyp ≡ some (c', ks))
        × (spoken ks ≡ drop c.tracker.committed (tokenise hyp.text))
        × All IsCounted ks
  unfolding observe add
  feed-final_spoken v pos e =
      let (c', ks, ends, d) = final_Drained u c hyp pos e in
      let (counted, le, said) =
        Continues-spoken ks c.next_id c.audio_cursor c.tracker.committed (tokenise hyp.text) c'
          (unfold tokenise in split-IsWord hyp.text) d.run in
      (
        c',
        ks,
        ends,
        said
            ∙ take-long (c'.tracker.committed - c.tracker.committed)
                (drop c.tracker.committed (tokenise hyp.text))
                (omega (
                  arith,
                  d.committed,
                  final_end u c hyp v e,
                  length-drop {0} c.tracker.committed (tokenise hyp.text),
                )),
        counted,
      )
