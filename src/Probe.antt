-- ===== src/Probe.antt =====
-- probe/trefi_probe.cpp and probe/trefi_probe.hpp: a probe that times one address again and again, and
-- looks for the period of the DRAM refresh in the spikes. The readings of the time stamp counter are
-- lists, one pair for each probe. `double` is a parameter, `Doubles`, with the operations that the
-- source uses; a constant of it is given in hundredths.
pub mod Analysis
pub mod Calibration
pub mod Spikes
pub mod Tally
pub mod Bands
pub mod Peak
pub mod Latencies
pub mod Report
pub mod Program
mod Tests
use mathlib.Core.Bool.{◌&&◌, ◌||◌, not}
use tailslayer_win.Common.{
  ℕ, zero, suc, ◌+◌, ◌-◌, ◌*◌, ◌/◌, ◌%◌, ◌^◌, Bool, true, false, if◌then◌else◌, ltb, leb, ◌==◌,
  List, [], ◌∷◌, ◌++◌, Option, none, some, length, get_or, sub64,
}

abbrev pub max_spikes : ℕ
max_spikes = 2000000

abbrev pub calibration_probes : ℕ
calibration_probes = 500000

pub record Spike : Type 0 where
  pub tsc : ℕ
  pub latency : ℕ

-- `timed_probe`, from the two readings.
unfoldable pub timed_probe : ℕ × ℕ → ℕ
timed_probe (t0, t1) = sub64 t1 t0

-- `cmp_u64`, as the 32-bit word of its result.
unfoldable pub cmp_u64 : ℕ → ℕ → ℕ
cmp_u64 va vb =
    let greater = if ltb vb va then 1 else 0 in
    let less = if ltb va vb then 1 else 0 in (greater + 2 ^ 32 - less) % 2 ^ 32

-- `qsort` with that order. A result from 2^31 on is negative.
unfoldable pub insert_sorted : ℕ → List ℕ → List ℕ
unfolding cmp_u64
insert_sorted x [] = x ∷ []
insert_sorted x (y ∷ ys) =
    let rest = insert_sorted x ys in if cmp_u64 y x == 1 then x ∷ y ∷ ys else y ∷ rest

unfoldable pub qsort : List ℕ → List ℕ
qsort [] = []
qsort (x ∷ xs) = insert_sorted x (qsort xs)

-- The percentiles: positions in the sorted list.
pub record Percentiles : Type 0 where
  pub median : ℕ
  pub p90 : ℕ
  pub p99 : ℕ
  pub p999 : ℕ
  pub p9999 : ℕ

unfoldable pub percentiles : List ℕ → Percentiles
percentiles calib = record {
  median = get_or calib (calibration_probes / 2) 0;
  p90 = get_or calib 450000 0;
  p99 = get_or calib 495000 0;
  p999 = get_or calib 499500 0;
  p9999 = get_or calib 499950 0;
}

-- `scale` is the product with `thresh_mult`, cut to a `uint64_t`.
unfoldable pub spike_threshold : (ℕ → ℕ) → ℕ → ℕ → ℕ
spike_threshold scale manual_threshold median =
    if ltb 0 manual_threshold then manual_threshold else scale median

unfoldable pub count_above : ℕ → List ℕ → ℕ
count_above threshold [] = 0
count_above threshold (elem ∷ calib) =
    (if ltb threshold elem then 1 else 0) + count_above threshold calib

-- The main loop: the spikes found so far, and how many they are.
unfoldable pub probe_loop : ℕ → List (ℕ × ℕ) → ℕ → List Spike → List Spike
probe_loop threshold [] n_spikes spikes = spikes
probe_loop threshold ((t0, t1) ∷ readings) n_spikes spikes =
    let latency = sub64 t1 t0 in
    let found = spikes ++ record { tsc = t0; latency = latency } ∷ [] in
    let kept = probe_loop threshold readings (n_spikes + 1) found in
    let rest = probe_loop threshold readings n_spikes spikes in
    if ltb threshold latency && ltb n_spikes max_spikes then kept else rest

-- The time from each spike to the next.
unfoldable pub intervals : List Spike → List ℕ
intervals [] = []
intervals (s ∷ []) = []
intervals (s ∷ t ∷ spikes) = sub64 t.tsc s.tsc ∷ intervals (t ∷ spikes)
