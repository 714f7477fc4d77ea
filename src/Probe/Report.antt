-- ===== src/Probe/Report.antt =====
-- The report of trefi_probe.cpp as a whole.
use native.Mathlib.Decide.{dec_lt}
use tailslayer_win.Common.{
  ℕ, zero, suc, ◌+◌, ◌-◌, ◌%◌, ◌^◌, some, get_elem?, clash, ap₂, some_injective, ◌≤◌, ◌<◌, ◌≡◌, ◌⊎◌,
  inl, inr, refl, sym, ap, ◌∙◌, arith, true, false, Bool-cases, lt→ltb, le→ltb, List, [], ◌∷◌, map,
  length, get_or, In, max64, subst,
}
use tailslayer_win.Probe.{Spike, intervals}
use tailslayer_win.Probe.Analysis.{
  Doubles, Harmonics, no_intervals, count_harmonics, histogram, find_peak, Verdict, insufficient,
  periodic, weak, no_signal, verdict_of, Report, analyse,
}
use tailslayer_win.Probe.Tally.{
  tally, between, elsewhere, in_bin, count_harmonics-Tallied, histogram-tally,
}
use tailslayer_win.Probe.Bands.{histogram_lem}
use tailslayer_win.Probe.Peak.{histogram-peak}
use tailslayer_win.Probe.Latencies.{latency_range-Covers, latency_range-Reached}

length-map : (f : Doubles) (words : List ℕ) → length (map f.of_word words) ≡ length words
length-map f [] = refl
length-map f (w ∷ words) = ap suc (length-map f words)

length-intervals :
    (s : Spike) (spikes : List Spike) → length (intervals (s ∷ spikes)) ≡ length spikes
unfolding intervals
length-intervals s [] = refl
length-intervals s (t ∷ spikes) = ap suc (length-intervals t spikes)

intervals-spaced :
    (f : Doubles) (spikes : List Spike) (i : ℕ) (s t : Spike)
    → get_elem? spikes i ≡ some s
    → get_elem? spikes (suc i) ≡ some t
    → get_elem? (map f.of_word (intervals spikes)) i
      ≡ some (f.of_word ((t.tsc + 2 ^ 64 - s.tsc) % 2 ^ 64))
unfolding intervals
intervals-spaced f [] i s t here next = absurd (clash refl here)
intervals-spaced f (a ∷ []) i s t here next = absurd (clash refl next)
intervals-spaced f (a ∷ b ∷ spikes) zero s t here next =
    ap₂ (λ (x y : Spike). some (f.of_word ((y.tsc + 2 ^ 64 - x.tsc) % 2 ^ 64)))
      (some_injective here) (some_injective next)
intervals-spaced f (a ∷ b ∷ spikes) (suc i) s t here next =
    intervals-spaced f (b ∷ spikes) i s t here next

-- The verdict for a share of the intervals near a harmonic: above 0.30, from there down to above 0.15,
-- and below.
abbrev pub IsVerdict : (f : Doubles) → f.Double → Verdict → Type 0
IsVerdict f share v =
    ((v ≡ periodic) × (f.below (f.constant 30) share ≡ true))
    ⊎ ((v ≡ weak)
        × (f.below (f.constant 30) share ≡ false)
        × (f.below (f.constant 15) share ≡ true))
    ⊎ ((v ≡ no_signal)
        × (f.below (f.constant 30) share ≡ false)
        × (f.below (f.constant 15) share ≡ false))

verdict_of-IsVerdict :
    (f : Doubles) (h : Harmonics) (n : ℕ)
    → IsVerdict f
        (f.over (f.of_word (h.count_1T + h.count_2T + h.count_3T)) (f.of_word n))
        (verdict_of f h n)
unfolding verdict_of
verdict_of-IsVerdict f h n =
    let share = f.over (f.of_word (h.count_1T + h.count_2T + h.count_3T)) (f.of_word n) in
    elim (Bool-cases (f.below (f.constant 30) share)) [
      | inl high ↦ rw high (inl (refl, refl))
      | inr not_high ↦ elim (Bool-cases (f.below (f.constant 15) share)) [
        | inl middle ↦ rw (not_high, middle) (inr (inl (refl, refl, refl)))
        | inr low ↦ rw (not_high, low) (inr (inr (refl, refl, refl)))
      ]
    ]

get_or-past : (hist : List ℕ) (i : ℕ) → length hist ≤ i → get_or hist i 0 ≡ 0
get_or-past [] i le = refl
get_or-past (h ∷ hist) zero le = absurd (omega arith)
get_or-past (h ∷ hist) (suc i) le = get_or-past hist i (omega arith)

peak-inside :
    (hist : List ℕ) (bin height : ℕ)
    → 0 < length hist
    → get_or hist bin 0 ≡ height
    → ((j : ℕ) → j < bin → get_or hist j 0 < height)
    → bin < length hist
peak-inside hist bin height some_bin here earlier = elim (dec_lt bin (length hist)) [
  | yes inside ↦ inside
  | no past ↦
      let higher = earlier 0 (omega arith) in
      absurd (omega (arith, get_or-past hist bin (omega arith), here, higher))
]

-- What the report is to be, for the intervals of the spikes.
pub record IsReport (f : Doubles) (T : f.Double) (spikes : List Spike) (ivs : List f.Double)
    (r : Report) : Type 0 where
  -- One interval from each spike to the next, modulo 2^64.
  pub n_intervals : length ivs + 1 ≡ length spikes
  pub spaced :
      (i : ℕ) (s t : Spike)
      → get_elem? spikes i ≡ some s
      → get_elem? spikes (suc i) ≡ some t
      → get_elem? ivs i ≡ some (f.of_word ((t.tsc + 2 ^ 64 - s.tsc) % 2 ^ 64))
  -- The counts are those of the intervals near one period, two and three, and of the others.
  pub first : r.harmonics.count_1T ≡ tally (between f T 85 115) ivs
  pub second : r.harmonics.count_2T ≡ tally (between f T 185 215) ivs
  pub third : r.harmonics.count_3T ≡ tally (between f T 285 315) ivs
  pub other : r.harmonics.count_other ≡ tally (elsewhere f T) ivs
  -- The peak is the first of the 200 bins with the most intervals, and their number.
  pub peak_bin : r.peak.0 < 200
  pub peak_count : r.peak.1 ≡ tally (in_bin f T 200 r.peak.0) ivs
  pub peak_most : (j : ℕ) → j < 200 → tally (in_bin f T 200 j) ivs ≤ r.peak.1
  pub peak_first : (j : ℕ) → j < r.peak.0 → tally (in_bin f T 200 j) ivs < r.peak.1
  -- The range is that of the latencies.
  pub covered :
      (s : Spike) → In s spikes → (r.latencies.0 ≤ s.latency) × (s.latency ≤ r.latencies.1)
  pub least : (r.latencies.0 ≡ max64) ⊎ ((s : Spike) × In s spikes × (s.latency ≡ r.latencies.0))
  pub greatest : (r.latencies.1 ≡ 0) ⊎ ((s : Spike) × In s spikes × (s.latency ≡ r.latencies.1))
  pub verdict :
      IsVerdict f
        (f.over
          (f.of_word (r.harmonics.count_1T + r.harmonics.count_2T + r.harmonics.count_3T))
          (f.of_word (length ivs)))
        r.verdict

analyse-few :
    (f : Doubles) (T : f.Double) (spikes : List Spike)
    → length spikes < 10
    → (analyse f T spikes).verdict ≡ insufficient
unfolding analyse
analyse-few f T spikes few = rw (lt→ltb (length spikes) 10 few) refl

analyse-many :
    (f : Doubles) (T : f.Double) (s : Spike) (spikes : List Spike)
    → 10 ≤ length (s ∷ spikes)
    → IsReport f T (s ∷ spikes) (map f.of_word (intervals (s ∷ spikes))) (analyse f T (s ∷ spikes))
unfolding analyse
analyse-many f T s spikes many =
    let ivs = map f.of_word (intervals (s ∷ spikes)) in
    let counts = count_harmonics-Tallied f T ivs no_intervals in
    let hist = (histogram f T 200 ivs).0 in
    let (sized, _, _) = histogram_lem f T 200 ivs in
    let (_, _, all, here, earlier, _) = histogram-peak f T 200 ivs in
    let inside : (find_peak hist).0 < 200 = omega (
      arith,
      sized,
      peak-inside hist (find_peak hist).0 (find_peak hist).1 (omega (arith, sized)) here earlier,
    ) in
    let (_, _, within) = latency_range-Covers (s ∷ spikes) max64 0 in
    let (low, high) = latency_range-Reached (s ∷ spikes) max64 0 in
    let n = length-map f (intervals (s ∷ spikes)) in
    let c = count_harmonics f T ivs no_intervals in
    rw (le→ltb (length (s ∷ spikes)) 10 many) (record {
      n_intervals = omega (arith, n, length-intervals s spikes);
      spaced = intervals-spaced f (s ∷ spikes);
      first = omega (arith, counts.first);
      second = omega (arith, counts.second);
      third = omega (arith, counts.third);
      other = omega (arith, counts.other);
      peak_bin = inside;
      peak_count = sym here ∙ histogram-tally f T 200 (find_peak hist).0 inside ivs;
      peak_most = λ j lt. omega (arith, all j, histogram-tally f T 200 j lt ivs);
      peak_first = λ j lt.
          let lt' : j < 200 = omega arith in
          omega (arith, earlier j lt, histogram-tally f T 200 j lt' ivs);
      covered = within;
      least = low;
      greatest = high;
      verdict =
          subst
            (λ k.
              IsVerdict f (f.over (f.of_word (c.count_1T + c.count_2T + c.count_3T)) (f.of_word k))
                (verdict_of f c (length (intervals (s ∷ spikes)))))
            (sym n) (verdict_of-IsVerdict f c (length (intervals (s ∷ spikes))));
    })

-- With fewer than ten spikes the verdict is that the data do not suffice. With ten or more: there is an
-- interval from each spike to the next; the four counts are the numbers of the intervals within 15 hundredths of one, two and three periods, and of
-- the others; the peak is the first of the 200 bins from T / 2 to 3 T / 2 that the most intervals fall
-- in, with their number; the range has the latencies of all spikes, and its ends are latencies of
-- spikes, or the 2^64 - 1 and the 0 it starts with; and the verdict is PERIODIC, WEAK SIGNAL or NO
-- PERIODIC SIGNAL by whether the share of the intervals near a harmonic is above 0.30, above 0.15 or
-- neither.
pub analyse_lem :
    (f : Doubles) (T : f.Double) (spikes : List Spike)
    → ((length spikes < 10) × ((analyse f T spikes).verdict ≡ insufficient))
      ⊎ ((10 ≤ length spikes)
          × IsReport f T spikes (map f.of_word (intervals spikes)) (analyse f T spikes))
analyse_lem f T spikes = elim (dec_lt (length spikes) 10) [
  | yes few ↦ inl (few, analyse-few f T spikes few)
  | no many ↦ inr (omega arith, long spikes (omega arith))
]
  where
    long :
        (spikes : List Spike)
        → 10 ≤ length spikes
        → IsReport f T spikes (map f.of_word (intervals spikes)) (analyse f T spikes)
    long [] many = absurd (omega arith)
    long (s ∷ spikes) many = analyse-many f T s spikes many
