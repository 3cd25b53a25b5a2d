-- ===== src/Obs/Stats.antt =====
-- obs/latency.py: what `LatencyRecorder` reports. The three decimals that `summary` rounds to are left
-- out, and a mean is rounded down.
pub mod Figures
use lad_translate.Common.{if◌then◌else◌, length, ℕ, ◌/◌, Bool, List, [], ◌∷◌}
use lad_translate.Common.Int.{ℤ, pos, negsuc, ltb_ℤ, ◌+ℤ◌}
use lad_translate.Common.Text.{Text}
use lad_translate.Common.Dict
use lad_translate.Common.Dict.{Dict, text_key}
use lad_translate.Obs.Trace.{Label}
use lad_translate.Obs.Percentile.{percentile}
use lad_translate.Obs.Latency.{LatencyRecorder, samples_of, stages_of}

pub record LanguageStats : Type 0 where
  pub language : Text
  pub count : ℕ
  pub p50 : ℤ
  pub p95 : ℤ
  pub p99 : ℤ
  pub worst : ℤ
  pub stage_means : Dict Label ℤ

unfoldable pub breached : LanguageStats → ℤ → Bool
breached s slo_seconds = ltb_ℤ slo_seconds s.p95

-- `max`, which keeps the first of the greatest.
unfoldable pub greatest : ℤ → List ℤ → ℤ
greatest x [] = x
greatest x (y ∷ ys) = greatest (if ltb_ℤ x y then y else x) ys

unfoldable pub worst_of : List ℤ → ℤ
unfolding greatest
worst_of [] = pos 0
worst_of (x ∷ xs) = greatest x xs

abbrev pub total : List ℤ → ℤ
total [] = pos 0
total (x ∷ xs) = x +ℤ total xs

abbrev pub divided : ℤ → ℕ → ℤ
divided (pos a) n = pos (a / n)
divided (negsuc a) n = negsuc (a / n)

-- `statistics.fmean(samples)`
unfoldable pub fmean : List ℤ → ℤ
fmean samples = divided (total samples) (length samples)

-- Only stages that have samples.
unfoldable pub means : Dict Label (List ℤ) → Dict Label ℤ
unfolding fmean
means [] = []
means ((label, []) ∷ rest) = means rest
means ((label, x ∷ xs) ∷ rest) = (label, fmean (x ∷ xs)) ∷ means rest

-- Looking a language up in a defaultdict leaves an empty entry there.
unfoldable pub touch : Text → LatencyRecorder → LatencyRecorder
unfolding Dict.set_default
touch language r = record r {
  g2g = Dict.set_default language [] r.g2g;
  stages = Dict.set_default language [] r.stages;
}

unfoldable pub stats_of : LatencyRecorder → Text → LanguageStats
unfolding worst_of means Dict.lookup
stats_of r language =
    let values : List ℤ = samples_of language r.g2g in
    record {
      language = language;
      count = length values;
      p50 = percentile values 50;
      p95 = percentile values 95;
      p99 = percentile values 99;
      worst = worst_of values;
      stage_means = means (stages_of language r.stages);
    }

unfoldable pub stats : LatencyRecorder → Text → LanguageStats × LatencyRecorder
unfolding stats_of touch
stats r language = (stats_of r language, touch language r)

-- `{lang: self.stats(lang) for lang in self._g2g}`
unfoldable pub stats_all :
    Dict Text (List ℤ) → LatencyRecorder → Dict Text LanguageStats × LatencyRecorder
unfolding stats
stats_all [] r = ([], r)
stats_all ((language, values) ∷ rest) r =
    let s = stats r language in
    let others = stats_all rest s.1 in ((language, s.0) ∷ others.0, others.1)

pub record LanguageReport : Type 0 where
  pub figures : LanguageStats
  pub is_breached : Bool

unfoldable pub report_all : ℤ → Dict Text LanguageStats → Dict Text LanguageReport
unfolding breached
report_all slo_seconds [] = []
report_all slo_seconds ((language, s) ∷ rest) =
    (language, record { figures = s; is_breached = breached s slo_seconds })
    ∷ report_all slo_seconds rest

pub record Summary : Type 0 where
  pub slo_seconds : ℤ
  pub slo_breaches : ℕ
  pub revisions_after_commit : ℕ
  pub unfinished_chunks : ℕ
  pub languages : Dict Text LanguageReport

unfoldable pub summary : LatencyRecorder → Summary × LatencyRecorder
unfolding stats_all report_all
summary r =
    let per_language = stats_all r.g2g r in
    (
      record {
        slo_seconds = r.slo_seconds;
        slo_breaches = r.breaches;
        revisions_after_commit = r.revisions;
        unfinished_chunks = length r.open_chunks;
        languages = report_all r.slo_seconds per_language.0;
      },
      per_language.1,
    )
