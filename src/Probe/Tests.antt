-- ===== src/Probe/Tests.antt =====
-- The probe with whole numbers for `double`, at a period of 100 cycles.
use tailslayer_win.Common.{
  ℕ, ◌+◌, ◌-◌, ◌*◌, ◌/◌, ◌^◌, ◌≤◌, ◌<◌, ◌≡◌, ◌⊎◌, map, refl, arith, true, false, ltb, leb, leb→le,
  le→leb, List, [], ◌∷◌, none, some, length, length-tabulate, tabulate, take, count,
}
use tailslayer_win.Platform.Allocation.{
  TokenAnswers, round_up, free_large_page, set_lock_memory_privilege,
}
use tailslayer_win.Platform.LargePages.{allocate_exactly, allocate_large_page}
use tailslayer_win.Probe.{
  Spike, max_spikes, insert_sorted, qsort, percentiles, intervals, calibration_probes, count_above,
  probe_loop,
}
use tailslayer_win.Probe.Spikes.{spikes_of, probe_loop-eq_take}
use tailslayer_win.Probe.Calibration.{IsSorted, count_above-percentiles}
use tailslayer_win.Probe.Analysis.{
  Doubles, no_intervals, in_band, count_harmonic, count_harmonics, add_to_histogram, fill_histogram,
  histogram, peak_loop, find_peak, analyse, insufficient, periodic, verdict_of,
}
use tailslayer_win.Probe.Bands.{IsApart, count_harmonics-partition}
use tailslayer_win.Probe.Report.{IsReport, analyse_lem}
use tailslayer_win.Probe.Program.{Setting, clean_up, with_page, run_probe, IsExit, run_probe-live}

-- In hundredths.
abbrev whole : Doubles
whole = record {
  Double = ℕ;
  of_word = λ n. 100 * n;
  constant = λ c. c;
  times = λ a b. a * b / 100;
  over = λ a b. 100 * a / b;
  minus = λ a b. a - b;
  at_most = leb;
  below = ltb;
  truncated = λ a. some (a / 100);
}

abbrev period : ℕ
period = 10000

whole-IsApart : IsApart whole period
whole-IsApart = record {
  trans = λ x y z a b. le→leb x z (omega (arith, leb→le x y a, leb→le y z b));
  first_second = refl;
  first_third = refl;
  second_third = refl;
}

abbrev four : List ℕ
four = 10100 ∷ 20000 ∷ 9900 ∷ 25000 ∷ []

harmonics_of_four :
    count_harmonics whole period four no_intervals
    ≡ record { count_1T = 2; count_2T = 1; count_3T = 0; count_other = 1 }
unfolding count_harmonics count_harmonic in_band
harmonics_of_four = refl

peak_of_four : find_peak (histogram whole period 4 four).0 ≡ (1, 1)
unfolding find_peak peak_loop histogram fill_histogram add_to_histogram
peak_of_four = refl

abbrev three_probes : List (ℕ × ℕ)
three_probes = (10, 500) ∷ (600, 650) ∷ (700, 1300) ∷ []

two_slow :
    probe_loop 200 three_probes 0 []
    ≡ record { tsc = 10; latency = 490 } ∷ record { tsc = 700; latency = 600 } ∷ []
unfolding probe_loop
two_slow = refl

probe_loop-eq_take_example :
    probe_loop 200 three_probes 0 [] ≡ take max_spikes (spikes_of 200 three_probes)
probe_loop-eq_take_example = probe_loop-eq_take 200 three_probes

sorted_three : qsort (3 ∷ 1 ∷ 2 ∷ []) ≡ 1 ∷ 2 ∷ 3 ∷ []
unfolding qsort insert_sorted
sorted_three = refl

flat : List ℕ
flat = tabulate calibration_probes 0 (λ i. i)

flat_full : length flat ≡ calibration_probes
unfolding flat
flat_full = length-tabulate calibration_probes 0 (λ i. i)

count_above-percentiles_example :
    let calib = qsort flat in
    ((percentiles calib).p90 ≤ 450000 → count_above 450000 calib < 50000)
    × ((percentiles calib).p99 ≤ 450000 → count_above 450000 calib < 5000)
    × (450000 < (percentiles calib).p90 → 50000 ≤ count_above 450000 calib)
    × (450000 < (percentiles calib).p99 → 5000 ≤ count_above 450000 calib)
    × IsSorted calib
    × ((i : ℕ) → count i calib ≡ count i flat)
count_above-percentiles_example = count_above-percentiles 450000 flat flat_full

abbrev willing : TokenAnswers
willing = record { opened = true; looked_up = true; adjusted = true; not_all_assigned = false }

abbrev setting : Setting whole
setting = record {
  os = record {
    large_page = 2 ^ 21;
    available = λ _. 2 ^ 30;
    four_fifths = λ n. n * 4 / 5;
    virtual_alloc2 = λ size. none;
    virtual_alloc = λ mul size. some 4096;
  };
  acquired = willing;
  removed = willing;
  virtual_free = true;
  manual_threshold = 200;
  scale = λ n. 2 * n;
  calibration = [];
  readings = three_probes;
}

run_probe-live_example : IsExit whole setting false [] (run_probe whole period setting false [])
run_probe-live_example = run_probe-live whole period setting false []

-- The privilege is not given back, and neither is the page.
abbrev stubborn : Setting whole
stubborn = record setting {
  removed = record willing { not_all_assigned = true };
  virtual_free = false;
}

stubborn_exit :
    let e = run_probe whole period stubborn false [] in (e.status ≡ 1) × (e.live ≡ 4096 ∷ [])
unfolding run_probe with_page clean_up allocate_large_page allocate_exactly round_up free_large_page
    set_lock_memory_privilege
stubborn_exit = (refl, refl)

abbrev ten : List Spike
ten = tabulate 10 0 (λ i. record { tsc = 100 * i; latency = 300 + i })

analyse_lem_example :
    ((length ten < 10) × ((analyse whole period ten).verdict ≡ insufficient))
    ⊎ ((10 ≤ length ten)
        × IsReport whole period ten (map whole.of_word (intervals ten)) (analyse whole period ten))
analyse_lem_example = analyse_lem whole period ten

ten_periodic : (analyse whole period ten).verdict ≡ periodic
unfolding analyse intervals count_harmonics count_harmonic in_band verdict_of
ten_periodic = refl

count_harmonics-partition_example :
    let h = count_harmonics whole period four no_intervals in
    h.count_1T + h.count_2T + h.count_3T + h.count_other ≡ length four
count_harmonics-partition_example = count_harmonics-partition whole period four whole-IsApart
