-- ===== src/Stt/Frames/Windows.antt =====
-- A `FeatureBuffer` against the stream of all the frames that it has been given.
use lad_translate.Common.{
  le→ltb-false, length, length-append, take, drop, drop-nil, drop-append, drop-drop, ℕ, ◌+◌, ◌-◌,
  ◌≤◌, ◌<◌, ◌≡◌, refl, sym, ap, ◌∙◌, subst, Option, none, some, List, [], ◌++◌, arith,
}
use lad_translate.Stt.Frames.{
  FrameWindow, FeatureBuffer, new_buffer, append, slice, local, extend, discard_before, drop_before,
}

local-inside :
    (w : FrameWindow) (start end : ℕ)
    → w.origin ≤ start
    → end ≤ w.total
    → local w start end ≡ some (start - w.origin, end - w.origin)
unfolding local
local-inside w start end h k = rw (le→ltb-false _ _ h, le→ltb-false _ _ k, local) refl

module _ {ℓ} {A : Type ℓ} where
  abbrev pub IsEmpty : Option (List A) → ℕ → Type 0
  IsEmpty none total = total ≡ 0
  IsEmpty (some fs) total = Unit

  abbrev pub content_of : Option (List A) → List A
  content_of none = []
  content_of (some fs) = fs

  abbrev pub content : FeatureBuffer A → List A
  content b = content_of b.frames

  -- The buffer holds the stream from its origin on, and has a tensor once a frame has come.
  pub record IsWindow (stream : List A) (b : FeatureBuffer A) : Type ℓ where
    pub all : b.window.total ≡ length stream
    pub inside : b.window.origin ≤ b.window.total
    pub holds : content b ≡ drop b.window.origin stream
    pub tensor : IsEmpty b.frames b.window.total

  pub new_buffer-IsWindow : IsWindow [] new_buffer
  new_buffer-IsWindow = record { all = refl; inside = omega arith; holds = refl; tensor = refl }

  join_frames :
      (o : Option (List A)) (features : List A)
      → (elim o [ none ↦ features | some old ↦ old ++ features ]) ≡ content_of o ++ features
  join_frames none features = refl
  join_frames (some old) features = refl

  content-append :
      (stream features : List A) (b : FeatureBuffer A)
      → IsWindow stream b
      → content (append b features) ≡ drop b.window.origin (stream ++ features)
  unfolding append extend
  content-append stream features b w =
      join_frames b.frames features
      ∙ ap (λ (xs : List A). xs ++ features) w.holds
      ∙ sym (drop-append b.window.origin stream features (omega (arith, w.all, w.inside)))

  cut_frames :
      (o : Option (List A)) (n : ℕ)
      → content_of (elim o [ none ↦ none | some old ↦ some (drop n old) ]) ≡ drop n (content_of o)
  cut_frames none n = sym (drop-nil n)
  cut_frames (some old) n = refl

  cut_tensor :
      (o : Option (List A)) (n total : ℕ)
      → IsEmpty o total
      → IsEmpty (elim o [ none ↦ none | some old ↦ some (drop n old) ]) total
  cut_tensor none n total h = h
  cut_tensor (some old) n total h = tt

  pub append-IsWindow :
      (stream features : List A) (b : FeatureBuffer A)
      → IsWindow stream b
      → IsWindow (stream ++ features) (append b features)
  unfolding append extend
  append-IsWindow stream features b w = record {
    all = omega (arith, w.all, length-append stream features);
    inside = omega (arith, w.inside);
    holds = content-append stream features b w;
    tensor = tt;
  }

  content-discard_before :
      (stream : List A) (absolute : ℕ) (b : FeatureBuffer A)
      → IsWindow stream b
      → content (discard_before b absolute) ≡ drop (drop_before b.window absolute).1.origin stream
  unfolding discard_before drop_before
  content-discard_before stream absolute b w =
      let n : ℕ = (drop_before b.window absolute).0 in
      cut_frames b.frames n
      ∙ ap (λ (xs : List A). drop n xs) w.holds
      ∙ drop-drop n b.window.origin stream
      ∙ ap (λ (k : ℕ). drop k stream) (omega (arith, w.inside))

  pub discard_before-IsWindow :
      (stream : List A) (absolute : ℕ) (b : FeatureBuffer A)
      → IsWindow stream b
      → IsWindow stream (discard_before b absolute)
  unfolding discard_before drop_before
  discard_before-IsWindow stream absolute b w = record {
    all = w.all;
    inside = omega (arith, w.inside);
    holds = content-discard_before stream absolute b w;
    tensor = cut_tensor b.frames (drop_before b.window absolute).0 b.window.total w.tensor;
  }

  slice-some :
      (b : FeatureBuffer A) (fs : List A) (start end : ℕ)
      → b.frames ≡ some fs
      → b.window.origin ≤ start
      → end ≤ b.window.total
      → slice b start end
        ≡ some (
            take
              (end - b.window.origin - (start - b.window.origin))
              (drop (start - b.window.origin) fs))
  unfolding slice
  slice-some b fs start end e h k = rw (local-inside b.window start end h k, slice) (rw e refl)

  -- When the buffer holds a stream from its origin on, a slice with a positive end, between the
  -- origin and the frames received, is that range of the whole stream.
  pub slice-range :
      (stream : List A) (b : FeatureBuffer A) (start end : ℕ)
      → IsWindow stream b
      → b.window.origin ≤ start
      → end ≤ b.window.total
      → 0 < end
      → slice b start end ≡ some (take (end - start) (drop start stream))
  slice-range stream b start end w h k p = by_frames b.frames refl
    where
      origin : ℕ
      origin = b.window.origin

      range :
          (fs : List A)
          → fs ≡ drop origin stream
          → take (end - origin - (start - origin)) (drop (start - origin) fs)
            ≡ take (end - start) (drop start stream)
      range fs e =
          ap (λ (xs : List A). take (end - origin - (start - origin)) (drop (start - origin) xs)) e
          ∙ ap (λ (xs : List A). take (end - origin - (start - origin)) xs)
              (drop-drop (start - origin) origin stream)
          ∙ ap (λ (n : ℕ). take n (drop (origin + (start - origin)) stream)) (omega (arith, h))
          ∙ ap (λ (n : ℕ). take (end - start) (drop n stream)) (omega (arith, h))

      by_frames :
          (o : Option (List A))
          → b.frames ≡ o
          → slice b start end ≡ some (take (end - start) (drop start stream))
      by_frames none e =
          absurd (omega (arith, k, p, subst (λ o. IsEmpty o b.window.total) e w.tensor))
      by_frames (some fs) e =
          slice-some b fs start end e h k ∙ ap some (range fs (ap content_of (sym e) ∙ w.holds))
