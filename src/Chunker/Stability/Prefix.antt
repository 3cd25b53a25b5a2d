-- ===== src/Chunker/Stability/Prefix.antt =====
-- `stable_prefix` returns exactly the agreed words that have not been committed.
use lad_translate.Common.{
  leb, if◌then◌else◌, length, take, drop, length-take, length-drop, ℕ, ◌-◌, min, ◌≡◌, refl, true,
  false, none, some, List, arith,
}
use lad_translate.Chunker.Stability.{
  StablePrefix, StabilityTracker, agreed_length, stable_prefix, first_seen,
}
use lad_translate.Common.Text.{Text}

-- How many words of the latest hypothesis are agreed on.
unfoldable pub stable_end : StabilityTracker → ℕ
stable_end t = min (agreed_length t) (length t.latest_surface)

-- The agreed words that are still to be committed.
unfoldable pub outstanding : StabilityTracker → List Text
unfolding stable_end
outstanding t = drop t.committed (take (stable_end t) t.latest_surface)

pub length-outstanding :
    (t : StabilityTracker) → length (outstanding t) ≡ stable_end t - t.committed
unfolding outstanding
length-outstanding t = omega (
  arith,
  length-drop {0} t.committed (take (stable_end t) t.latest_surface),
  length-take {0} (stable_end t) t.latest_surface,
)

-- There is a prefix if and only if some agreed word is not committed, and it holds those words.
pub stable_prefix-outstanding :
    (t : StabilityTracker)
    → stable_prefix t ≡ (
        if leb (stable_end t) t.committed
        then none
        else some
            (record { tokens = outstanding t; first_seen_wall = first_seen t (agreed_length t) }))
unfolding stable_prefix outstanding
stable_prefix-outstanding t = ground (arith, length-outstanding t)

-- The prefix that `stable_prefix` returns where there is one.
abbrev pub prefix_of : StabilityTracker → StablePrefix
prefix_of t = record { tokens = outstanding t; first_seen_wall = first_seen t (agreed_length t) }

module _ (t : StabilityTracker) where
  pub stable_prefix-none : leb (stable_end t) t.committed ≡ true → stable_prefix t ≡ none
  stable_prefix-none e = rw (stable_prefix-outstanding t, e) refl

  pub stable_prefix-some :
      leb (stable_end t) t.committed ≡ false → stable_prefix t ≡ some (prefix_of t)
  stable_prefix-some e = rw (stable_prefix-outstanding t, e) refl
