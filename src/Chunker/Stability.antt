-- ===== src/Chunker/Stability.antt =====
-- chunker/stability.py: `StabilityTracker`, a rolling LocalAgreement-n over hypotheses.
pub mod Agreement
pub mod Finals
pub mod Prefix
pub mod Window
use lad_translate.Common.{
  ltb, leb, ◌==◌, if◌then◌else◌, length, get_or, take, drop, ℕ, zero, suc, ◌+◌, ◌-◌, min, Bool,
  true, false, not, ◌&&◌, Option, none, some, List, [], ◌∷◌, ◌++◌, map,
}
use lad_translate.Common.Text.{Text, text_eq}
use lad_translate.Common.Dict
use lad_translate.Common.Dict.{Dict, nat_key}
use lad_translate.Adapters.Events.{Hypothesis}
use lad_translate.Chunker.Words.{Unicode, tokenise, normalise_token}

-- `first_seen_wall` is `time.monotonic()` when this length was first agreed on.
pub record StablePrefix : Type 0 where
  pub tokens : List Text
  pub first_seen_wall : ℕ

-- The window holds the oldest hypothesis first; its `maxlen` is `n`.
pub record StabilityTracker : Type 0 where
  pub n : ℕ
  pub window : List (List Text)
  pub latest_surface : List Text
  pub prefix_first_seen : Dict ℕ ℕ
  pub committed : ℕ
  pub contradicted : Bool

-- `none` is the ValueError of the constructor.
unfoldable pub new_tracker : ℕ → Option StabilityTracker
new_tracker n =
    if ltb n 1
    then none
    else some (record {
      n = n;
      window = [];
      latest_surface = [];
      prefix_first_seen = [];
      committed = 0;
      contradicted = false;
    })

unfoldable pub reset_contradiction : StabilityTracker → StabilityTracker × Bool
reset_contradiction t = (record t { contradicted = false }, t.contradicted)

-- `append` on a deque with `maxlen = n`.
unfoldable pub append_bounded : ℕ → List (List Text) → List Text → List (List Text)
append_bounded n w h = drop (length w + 1 - n) (w ++ h ∷ [])

-- `for _ in range(k): self._window.append(h)`
unfoldable pub append_times : ℕ → ℕ → List (List Text) → List Text → List (List Text)
unfolding append_bounded
append_times n zero w h = w
append_times n (suc k) w h = append_times n k (append_bounded n w h) h

-- `list(self._window[-1]) if self._window else []`
unfoldable pub last_hypothesis : List (List Text) → List Text
last_hypothesis [] = []
last_hypothesis (h ∷ []) = h
last_hypothesis (g ∷ (h ∷ w)) = last_hypothesis (h ∷ w)

-- `a == b` on lists of words.
unfoldable pub words_eq : List Text → List Text → Bool
words_eq [] [] = true
words_eq [] (_ ∷ _) = false
words_eq (_ ∷ _) [] = false
words_eq (a ∷ s) (b ∷ t) = text_eq a b && words_eq s t

unfoldable pub detect_contradiction : StabilityTracker → List Text → Bool
unfolding last_hypothesis words_eq
detect_contradiction t normalised =
    let previous = last_hypothesis t.window in
    if t.committed == 0
    then t.contradicted
    else if ltb (length normalised) t.committed
    then true
    else if ltb (length previous) t.committed
    then t.contradicted
    else if not (words_eq (take t.committed normalised) (take t.committed previous))
    then true
    else t.contradicted

-- `min(len(h) for h in self._window)`
unfoldable pub shortest : List (List Text) → ℕ
shortest [] = 0
shortest (h ∷ []) = length h
shortest (g ∷ (h ∷ w)) = min (length g) (shortest (h ∷ w))

-- `all(h[i] == token for h in self._window)`, where `i` is below every length.
unfoldable pub all_at : Text → ℕ → List (List Text) → Bool
all_at token i [] = true
all_at token i (h ∷ w) = text_eq (get_or h i []) token && all_at token i w

-- `self._window[0][i]`
unfoldable pub token_at : List (List Text) → ℕ → Text
token_at [] i = []
token_at (h ∷ w) i = get_or h i []

-- The loop over `range(shortest)` from `i` with `k` rounds left.
unfoldable pub agreed_loop : List (List Text) → ℕ → ℕ → ℕ → ℕ
unfolding all_at token_at
agreed_loop w zero i agreed = agreed
agreed_loop w (suc k) i agreed =
    let next = agreed_loop w k (i + 1) (i + 1) in if all_at (token_at w i) i w then next else agreed

unfoldable pub agreed_length : StabilityTracker → ℕ
unfolding shortest agreed_loop
agreed_length t =
    if ltb (length t.window) t.n then 0 else agreed_loop t.window (shortest t.window) 0 0

unfoldable pub record_first_seen : StabilityTracker → ℕ → StabilityTracker
unfolding agreed_length
record_first_seen t t_wall = record t {
  prefix_first_seen = Dict.set_default (agreed_length t) t_wall t.prefix_first_seen;
}

module _ (u : Unicode) where
  unfoldable pub add : StabilityTracker → Hypothesis → StabilityTracker
  unfolding record_first_seen append_times append_bounded detect_contradiction
  add t hyp =
      let surface = tokenise hyp.text in
      let normalised = map (normalise_token u) surface in
      let seen =
        if hyp.is_final
        then append_times t.n t.n t.window normalised
        else append_bounded t.n t.window normalised in
      record_first_seen
        (record t {
          contradicted = detect_contradiction t normalised;
          latest_surface = surface;
          window = seen;
        })
        hyp.t_wall

unfoldable pub first_seen : StabilityTracker → ℕ → ℕ
first_seen t agreed = elim (Dict.lookup agreed t.prefix_first_seen) [ none ↦ 0 | some w ↦ w ]

-- The agreed words that have not been committed; `none` when there is nothing new.
unfoldable pub stable_prefix : StabilityTracker → Option StablePrefix
unfolding agreed_length first_seen
stable_prefix t =
    let agreed = agreed_length t in
    let end = min agreed (length t.latest_surface) in
    let tokens = drop t.committed (take end t.latest_surface) in
    if leb agreed t.committed
    then none
    else if leb end t.committed
    then none
    else if length tokens == 0
    then none
    else some (record { tokens = tokens; first_seen_wall = first_seen t agreed })

unfoldable pub commit : StabilityTracker → ℕ → StabilityTracker
commit t token_count = record t { committed = t.committed + token_count }

unfoldable pub pending_after_commit : StabilityTracker → List Text
pending_after_commit t = drop t.committed t.latest_surface
