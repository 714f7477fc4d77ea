-- ===== src/Probe/Analysis.antt =====
-- The analysis of the intervals in probe/trefi_probe.cpp: the harmonic bands, the histogram, the range
-- of the latencies and the verdict; and the run of the whole probe. The constants of `Doubles` are
-- hundredths: `constant 85` is 0.85.
use mathlib.Core.Bool.{◌&&◌, ◌||◌, not}
use tailslayer_win.Common.{
  ℕ, suc, ◌+◌, Bool, true, false, if◌then◌else◌, ltb, List, [], ◌∷◌, Option, none, some, length,
  map, get_or, set, tabulate, max64,
}
use tailslayer_win.Probe.{Spike, intervals}

-- `truncated` is a conversion to `int`; `none` is a negative result.
pub record Doubles : Type 1 where
  pub Double : Type 0
  pub of_word : ℕ → Double
  pub constant : ℕ → Double
  pub times : Double → Double → Double
  pub over : Double → Double → Double
  pub minus : Double → Double → Double
  pub at_most : Double → Double → Bool
  pub below : Double → Double → Bool
  pub truncated : Double → Option ℕ

abbrev pub to_int : Bool → ℕ
to_int true = 1
to_int false = 0

pub record Harmonics : Type 0 where
  pub count_1T : ℕ
  pub count_2T : ℕ
  pub count_3T : ℕ
  pub count_other : ℕ

abbrev pub no_intervals : Harmonics
no_intervals = record { count_1T = 0; count_2T = 0; count_3T = 0; count_other = 0 }

-- `INSUFFICIENT DATA`, `PERIODIC`, `WEAK SIGNAL`, `NO PERIODIC SIGNAL`.
pub data Verdict : Type 0 where
  insufficient : Verdict
  periodic : Verdict
  weak : Verdict
  no_signal : Verdict

module _ (f : Doubles) where
  open f use {Double, of_word, constant, times, over, minus, at_most, below, truncated}

  -- `interval >= T * low && interval <= T * high`.
  unfoldable pub in_band : Double → ℕ → ℕ → Double → Bool
  in_band T low high interval =
      at_most (times T (constant low)) interval && at_most interval (times T (constant high))

  -- One interval.
  unfoldable pub count_harmonic : Double → Double → Harmonics → Harmonics
  unfolding in_band
  count_harmonic T interval h =
      let first = in_band T 85 115 interval in
      let second = in_band T 185 215 interval in
      let third = in_band T 285 315 interval in
      record {
        count_1T = h.count_1T + to_int first;
        count_2T = h.count_2T + to_int second;
        count_3T = h.count_3T + to_int third;
        count_other = h.count_other + to_int (not (first || second || third));
      }

  unfoldable pub count_harmonics : Double → List Double → Harmonics → Harmonics
  count_harmonics T [] h = h
  count_harmonics T (interval ∷ rest) h = count_harmonics T rest (count_harmonic T interval h)

  -- One interval of the histogram: its bin, and the total.
  abbrev pub into_bin : Option ℕ → ℕ → List ℕ → ℕ → List ℕ × ℕ
  into_bin none hist_bins hist hist_total = (hist, hist_total)
  into_bin (some bin) hist_bins hist hist_total =
      if ltb bin hist_bins
      then (set hist bin (get_or hist bin 0 + 1), hist_total + 1)
      else (hist, hist_total)

  unfoldable pub add_to_histogram : Double → Double → Double → ℕ → Double → List ℕ × ℕ → List ℕ × ℕ
  add_to_histogram bin_lo bin_hi bin_width hist_bins iv (hist, hist_total) =
      if at_most bin_lo iv && below iv bin_hi
      then into_bin (truncated (over (minus iv bin_lo) bin_width)) hist_bins hist hist_total
      else (hist, hist_total)

  unfoldable pub fill_histogram :
      Double → Double → Double → ℕ → List Double → List ℕ × ℕ → List ℕ × ℕ
  fill_histogram bin_lo bin_hi bin_width hist_bins [] h = h
  fill_histogram bin_lo bin_hi bin_width hist_bins (iv ∷ rest) h =
      fill_histogram bin_lo bin_hi bin_width hist_bins rest
        (add_to_histogram bin_lo bin_hi bin_width hist_bins iv h)

  unfoldable pub histogram : Double → ℕ → List Double → List ℕ × ℕ
  histogram T hist_bins ivs =
      let bin_lo = times T (constant 50) in
      let bin_hi = times T (constant 150) in
      let bin_width = over (minus bin_hi bin_lo) (of_word hist_bins) in
      fill_histogram bin_lo bin_hi bin_width hist_bins ivs (tabulate hist_bins 0 (λ _. 0), 0)

  unfoldable pub verdict_of : Harmonics → ℕ → Verdict
  verdict_of h n_intervals =
      let frac_harmonic =
        over (of_word (h.count_1T + h.count_2T + h.count_3T)) (of_word n_intervals) in
      if below (constant 30) frac_harmonic
      then periodic
      else if below (constant 15) frac_harmonic
      then weak
      else no_signal

-- The highest bin: the first of those with the highest count, which is more than 0 where one is.
unfoldable pub peak_loop : List ℕ → ℕ → ℕ → ℕ → ℕ × ℕ
peak_loop [] b peak_bin peak_count = (peak_bin, peak_count)
peak_loop (h ∷ hist) b peak_bin peak_count =
    let higher = ltb peak_count h in
    peak_loop hist (suc b) (if higher then b else peak_bin) (if higher then h else peak_count)

unfoldable pub find_peak : List ℕ → ℕ × ℕ
find_peak hist = peak_loop hist 0 0 0

-- The least and the greatest latency.
unfoldable pub latency_range : List Spike → ℕ → ℕ → ℕ × ℕ
latency_range [] lat_min lat_max = (lat_min, lat_max)
latency_range (s ∷ spikes) lat_min lat_max =
    latency_range spikes (if ltb s.latency lat_min then s.latency else lat_min)
      (if ltb lat_max s.latency then s.latency else lat_max)

-- What the program reports.
pub record Report : Type 0 where
  pub n_spikes : ℕ
  pub harmonics : Harmonics
  pub peak : ℕ × ℕ
  pub latencies : ℕ × ℕ
  pub verdict : Verdict

-- From the spikes to the verdict; with fewer than ten there is no analysis.
unfoldable pub analyse : (f : Doubles) → Doubles.Double f → List Spike → Report
analyse f T spikes =
    let words = intervals spikes in
    let ivs = map f.of_word words in
    let harmonics = count_harmonics f T ivs no_intervals in
    if ltb (length spikes) 10
    then record {
      n_spikes = length spikes;
      harmonics = no_intervals;
      peak = (0, 0);
      latencies = (0, 0);
      verdict = insufficient;
    }
    else record {
      n_spikes = length spikes;
      harmonics = harmonics;
      peak = find_peak (histogram f T 200 ivs).0;
      latencies = latency_range spikes max64 0;
      verdict = verdict_of f harmonics (length words);
    }
