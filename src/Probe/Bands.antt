-- ===== src/Probe/Bands.antt =====
-- The harmonic bands and the histogram of trefi_probe.cpp: each interval is counted once.
use mathlib.Core.Bool.{◌&&◌, ◌||◌, not}
use tailslayer_win.Common.{
  ℕ, zero, suc, ◌+◌, ◌≤◌, ◌<◌, ◌≡◌, refl, ◌∙◌, arith, Bool, true, false, ltb, ltb→lt, Bool-cases,
  differ, inl, inr, List, [], ◌∷◌, Option, none, some, length, length-set, length-tabulate, get_or,
  set, tabulate, subst,
}
use tailslayer_win.Probe.Spikes.{sum}
use tailslayer_win.Probe.Analysis.{
  Doubles, Harmonics, no_intervals, to_int, in_band, count_harmonic, count_harmonics, into_bin,
  add_to_histogram, fill_histogram, histogram,
}

-- What is relied on of `double`: `<=` is transitive, and for this period the bands lie apart.
pub record IsApart (f : Doubles) (T : f.Double) : Type 0 where
  pub trans :
      (x y z : f.Double) → f.at_most x y ≡ true → f.at_most y z ≡ true → f.at_most x z ≡ true
  pub first_second : f.at_most (f.times T (f.constant 185)) (f.times T (f.constant 115)) ≡ false
  pub first_third : f.at_most (f.times T (f.constant 285)) (f.times T (f.constant 115)) ≡ false
  pub second_third : f.at_most (f.times T (f.constant 285)) (f.times T (f.constant 215)) ≡ false

pub counted : Harmonics → ℕ
counted h = h.count_1T + h.count_2T + h.count_3T + h.count_other

-- Of three tests that exclude one another, and their complement, one holds.
exactly_one :
    (a b c : Bool)
    → (a ≡ true → b ≡ true → ⊥)
    → (a ≡ true → c ≡ true → ⊥)
    → (b ≡ true → c ≡ true → ⊥)
    → to_int a + to_int b + to_int c + to_int (not (a || b || c)) ≡ 1
exactly_one true true c ab ac bc = absurd (ab refl refl)
exactly_one true false true ab ac bc = absurd (ac refl refl)
exactly_one true false false ab ac bc = refl
exactly_one false true true ab ac bc = absurd (bc refl refl)
exactly_one false true false ab ac bc = refl
exactly_one false false true ab ac bc = refl
exactly_one false false false ab ac bc = refl

both : (a b : Bool) → (a && b) ≡ true → (a ≡ true) × (b ≡ true)
both true true e = (refl, refl)
both true false e = absurd (cc)
both false b e = absurd (cc)

module _ (f : Doubles) (T : f.Double) (apart : IsApart f T) where
  bands-exclude :
      (low high low' high' : ℕ) (interval : f.Double)
      → f.at_most (f.times T (f.constant low')) (f.times T (f.constant high)) ≡ false
      → in_band f T low high interval ≡ true
      → in_band f T low' high' interval ≡ true
      → ⊥
  unfolding in_band
  bands-exclude low high low' high' interval gap h h' =
      let (_, under) = both _ _ h in
      let (over, _) = both _ _ h' in
      differ gap (
        apart.trans (f.times T (f.constant low')) interval (f.times T (f.constant high)) over under)

  count_harmonic-counted :
      (interval : f.Double) (h : Harmonics)
      → counted (count_harmonic f T interval h) ≡ counted h + 1
  unfolding counted count_harmonic
  count_harmonic-counted interval h = omega (
    arith,
    exactly_one (in_band f T 85 115 interval) (in_band f T 185 215 interval)
        (in_band f T 285 315 interval) (bands-exclude 85 115 185 215 interval apart.first_second)
        (bands-exclude 85 115 285 315 interval apart.first_third)
        (bands-exclude 185 215 285 315 interval apart.second_third),
  )

  count_harmonics-counted :
      (ivs : List f.Double) (h : Harmonics)
      → counted (count_harmonics f T ivs h) ≡ counted h + length ivs
  unfolding count_harmonics
  count_harmonics-counted [] h = omega arith
  count_harmonics-counted (interval ∷ rest) h = omega (
    arith,
    count_harmonics-counted rest (count_harmonic f T interval h),
    count_harmonic-counted interval h,
  )

-- With `<=` transitive and the three bands apart, each interval is counted once: near one period,
-- near two, near three, or as another.
pub count_harmonics-partition :
    (f : Doubles) (T : f.Double) (ivs : List f.Double)
    → IsApart f T
    → let h = count_harmonics f T ivs no_intervals in
      h.count_1T + h.count_2T + h.count_3T + h.count_other ≡ length ivs
unfolding counted
count_harmonics-partition f T ivs apart =
    omega (arith, count_harmonics-counted f T apart ivs no_intervals)

sum-set :
    (hist : List ℕ) (i : ℕ)
    → i < length hist
    → sum (set hist i (get_or hist i 0 + 1)) ≡ sum hist + 1
sum-set [] i lt = absurd (omega arith)
sum-set (h ∷ hist) zero lt = omega arith
sum-set (h ∷ hist) (suc i) lt = omega (arith, sum-set hist i (omega arith))

-- The total is that of the bins, and counts an interval once at most.
abbrev IsHistogram : ℕ → ℕ → List ℕ × ℕ → Type 0
IsHistogram hist_bins most (hist, hist_total) =
    (length hist ≡ hist_bins) × (sum hist ≡ hist_total) × (hist_total ≤ most)

into_bin-IsHistogram :
    (f : Doubles) (o : Option ℕ) (hist_bins most : ℕ) (hist : List ℕ) (hist_total : ℕ)
    → IsHistogram hist_bins most (hist, hist_total)
    → IsHistogram hist_bins (suc most) (into_bin f o hist_bins hist hist_total)
into_bin-IsHistogram f none hist_bins most hist hist_total (a, b, c) = (a, b, omega arith)
into_bin-IsHistogram f (some bin) hist_bins most hist hist_total (a, b, c) =
    elim (Bool-cases (ltb bin hist_bins)) [
      | inl inside ↦ rw inside (
        length-set hist bin (get_or hist bin 0 + 1) ∙ a,
        omega (arith, sum-set hist bin (omega (arith, ltb→lt bin hist_bins inside))),
        omega arith,
      )
      | inr outside ↦ rw outside (a, b, omega arith)
    ]

module _ (f : Doubles) (bin_lo bin_hi bin_width : f.Double) (hist_bins : ℕ) where
  add_to_histogram-IsHistogram :
      (iv : f.Double) (most : ℕ) (h : List ℕ × ℕ)
      → IsHistogram hist_bins most h
      → IsHistogram hist_bins (suc most) (add_to_histogram f bin_lo bin_hi bin_width hist_bins iv h)
  unfolding add_to_histogram
  add_to_histogram-IsHistogram iv most (hist, hist_total) (a, b, c) =
      elim (Bool-cases (f.at_most bin_lo iv && f.below iv bin_hi)) [
        | inl inside ↦ rw inside (
            into_bin-IsHistogram f (f.truncated (f.over (f.minus iv bin_lo) bin_width)) hist_bins
              most hist hist_total (a, b, c))
        | inr outside ↦ rw outside (a, b, omega arith)
      ]

  fill_histogram-IsHistogram :
      (ivs : List f.Double) (most : ℕ) (h : List ℕ × ℕ)
      → IsHistogram hist_bins most h
      → IsHistogram hist_bins
          (most + length ivs)
          (fill_histogram f bin_lo bin_hi bin_width hist_bins ivs h)
  unfolding fill_histogram
  fill_histogram-IsHistogram [] most h ok = subst (λ m. IsHistogram hist_bins m h) (omega arith) ok
  fill_histogram-IsHistogram (iv ∷ rest) most h ok =
      let next : suc most + length rest ≡ most + length (iv ∷ rest) = omega arith in
      subst
        (λ m. IsHistogram hist_bins m (
          fill_histogram f bin_lo bin_hi bin_width hist_bins rest
            (add_to_histogram f bin_lo bin_hi bin_width hist_bins iv h)))
        next
        (fill_histogram-IsHistogram rest (suc most)
          (add_to_histogram f bin_lo bin_hi bin_width hist_bins iv h)
          (add_to_histogram-IsHistogram iv most h ok))

sum-zeros : (n i : ℕ) → sum (tabulate n i (λ _. 0)) ≡ 0
sum-zeros zero i = refl
sum-zeros (suc n) i = omega (arith, sum-zeros n (suc i))

-- The histogram keeps its number of bins; their sum is the total, which is no more than the number of
-- intervals.
pub histogram_lem :
    (f : Doubles) (T : f.Double) (hist_bins : ℕ) (ivs : List f.Double)
    → let (hist, hist_total) = histogram f T hist_bins ivs in
      (length hist ≡ hist_bins) × (sum hist ≡ hist_total) × (hist_total ≤ length ivs)
unfolding histogram
histogram_lem f T hist_bins ivs =
    let bin_lo = f.times T (f.constant 50) in
    let bin_hi = f.times T (f.constant 150) in
    let (a, b, c) =
      fill_histogram-IsHistogram f bin_lo bin_hi
        (f.over (f.minus bin_hi bin_lo) (f.of_word hist_bins)) hist_bins ivs 0
        (tabulate hist_bins 0 (λ _. 0), 0)
        (length-tabulate hist_bins 0 (λ _. 0), sum-zeros hist_bins 0, omega arith) in
    (a, b, omega arith)
