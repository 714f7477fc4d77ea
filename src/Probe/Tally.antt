-- ===== src/Probe/Tally.antt =====
-- What the counts and the bins of trefi_probe.cpp are counts of.
use native.Mathlib.Decide.{ℕ_discrete}
use mathlib.Core.Bool.{◌&&◌, ◌||◌, not}
use tailslayer_win.Common.{
  ℕ, ◌+◌, ◌<◌, ◌≡◌, refl, ◌∙◌, arith, Bool, false, ltb, ◌==◌, ==_refl, ne→==, ltb→le, Bool-cases,
  inl, inr, List, [], ◌∷◌, Option, none, some, length, length-set, length-tabulate, get_or-tabulate,
  get_or-set_self, get_or-set_ne, get_or, tabulate,
}
use tailslayer_win.Probe.Analysis.{
  Doubles, Harmonics, to_int, in_band, count_harmonic, count_harmonics, into_bin, add_to_histogram,
  fill_histogram, histogram,
}

-- How many elements of a list pass a test.
abbrev pub tally {ℓ} : {A : Type ℓ} → (A → Bool) → List A → ℕ
tally test [] = 0
tally test (x ∷ xs) = to_int (test x) + tally test xs

module _ (f : Doubles) (T : f.Double) where
  -- From `low` to `high` hundredths of `T`.
  abbrev pub between : ℕ → ℕ → f.Double → Bool
  between low high x =
      f.at_most (f.times T (f.constant low)) x && f.at_most x (f.times T (f.constant high))

  abbrev pub elsewhere : f.Double → Bool
  elsewhere x = not (between 85 115 x || between 185 215 x || between 285 315 x)

  -- The number of the bin of the histogram of `T / 2` to `3 T / 2` that `x` falls in.
  abbrev is_bin : Option ℕ → ℕ → Bool
  is_bin none i = false
  is_bin (some bin) i = bin == i

  abbrev pub in_bin : ℕ → ℕ → f.Double → Bool
  in_bin hist_bins i x =
      let bin_lo = f.times T (f.constant 50) in
      let bin_hi = f.times T (f.constant 150) in
      let bin_width = f.over (f.minus bin_hi bin_lo) (f.of_word hist_bins) in
      f.at_most bin_lo x
      && f.below x bin_hi
      && is_bin (f.truncated (f.over (f.minus x bin_lo) bin_width)) i

  pub record Tallied (ivs : List f.Double) (before after : Harmonics) : Type 0 where
    pub first : after.count_1T ≡ before.count_1T + tally (between 85 115) ivs
    pub second : after.count_2T ≡ before.count_2T + tally (between 185 215) ivs
    pub third : after.count_3T ≡ before.count_3T + tally (between 285 315) ivs
    pub other : after.count_other ≡ before.count_other + tally elsewhere ivs

  pub count_harmonics-Tallied :
      (ivs : List f.Double) (h : Harmonics) → Tallied ivs h (count_harmonics f T ivs h)
  unfolding count_harmonics count_harmonic in_band
  count_harmonics-Tallied [] h = record {
    first = omega arith;
    second = omega arith;
    third = omega arith;
    other = omega arith;
  }
  count_harmonics-Tallied (x ∷ rest) h =
      let later = count_harmonics-Tallied rest (count_harmonic f T x h) in
      record {
        first = omega (arith, later.first);
        second = omega (arith, later.second);
        third = omega (arith, later.third);
        other = omega (arith, later.other);
      }

  into_bin-at :
      (o : Option ℕ) (hist_bins i : ℕ) (hist : List ℕ) (hist_total : ℕ)
      → length hist ≡ hist_bins
      → i < hist_bins
      → get_or (into_bin f o hist_bins hist hist_total).0 i 0
        ≡ get_or hist i 0 + to_int (is_bin o i)
  into_bin-at none hist_bins i hist hist_total sized lt = omega arith
  into_bin-at (some bin) hist_bins i hist hist_total sized lt =
      elim (Bool-cases (ltb bin hist_bins)) [
        | inr outside ↦
            let other = ne→== bin i (λ e. absurd (omega (arith, ltb→le bin hist_bins outside))) in
            rw (outside, other) (omega arith)
        | inl inside ↦ elim (ℕ_discrete bin i) [
          | yes e ↦
              rw inside (
                rw e
                  (rw (==_refl i) (get_or-set_self hist i (get_or hist i 0 + 1) 0 (omega arith))))
          | no ne ↦
              rw (inside, ne→== bin i ne)
                (get_or-set_ne hist (get_or hist bin 0 + 1) 0 ne ∙ omega arith)
        ]
      ]

  module _ (hist_bins i : ℕ) (lt : i < hist_bins) where
    add_at : f.Double → List ℕ × ℕ → List ℕ × ℕ
    add_at =
        let bin_lo = f.times T (f.constant 50) in
        let bin_hi = f.times T (f.constant 150) in
        add_to_histogram f bin_lo bin_hi (f.over (f.minus bin_hi bin_lo) (f.of_word hist_bins))
          hist_bins

    into_bin-length :
        (o : Option ℕ) (hist : List ℕ) (hist_total : ℕ)
        → length (into_bin f o hist_bins hist hist_total).0 ≡ length hist
    into_bin-length none hist hist_total = refl
    into_bin-length (some bin) hist hist_total = elim (Bool-cases (ltb bin hist_bins)) [
      | inl inside ↦ rw inside (length-set hist bin (get_or hist bin 0 + 1))
      | inr outside ↦ rw outside refl
    ]

    add_at-one :
        (x : f.Double) (h : List ℕ × ℕ)
        → length h.0 ≡ hist_bins
        → (length (add_at x h).0 ≡ hist_bins)
          × (get_or (add_at x h).0 i 0 ≡ get_or h.0 i 0 + to_int (in_bin hist_bins i x))
    unfolding add_at add_to_histogram
    add_at-one x (hist, hist_total) sized =
        let bin_lo = f.times T (f.constant 50) in
        let bin_hi = f.times T (f.constant 150) in
        let bin_width = f.over (f.minus bin_hi bin_lo) (f.of_word hist_bins) in
        let o = f.truncated (f.over (f.minus x bin_lo) bin_width) in
        elim (Bool-cases (f.at_most bin_lo x && f.below x bin_hi)) [
          | inl inside ↦ rw inside (
            into_bin-length o hist hist_total ∙ sized,
            into_bin-at o hist_bins i hist hist_total sized lt,
          )
          | inr outside ↦ rw outside (sized, omega arith)
        ]

    fill_at : List f.Double → List ℕ × ℕ → List ℕ × ℕ
    fill_at =
        let bin_lo = f.times T (f.constant 50) in
        let bin_hi = f.times T (f.constant 150) in
        fill_histogram f bin_lo bin_hi (f.over (f.minus bin_hi bin_lo) (f.of_word hist_bins))
          hist_bins

    fill_at-tally :
        (ivs : List f.Double) (h : List ℕ × ℕ)
        → length h.0 ≡ hist_bins
        → get_or (fill_at ivs h).0 i 0 ≡ get_or h.0 i 0 + tally (in_bin hist_bins i) ivs
    unfolding fill_at fill_histogram add_at
    fill_at-tally [] h sized = omega arith
    fill_at-tally (x ∷ rest) h sized =
        let (sized', one) = add_at-one x h sized in
        omega (arith, fill_at-tally rest (add_at x h) sized', one)

    -- Bin `i` is the number of the intervals that fall in it.
    pub histogram-tally :
        (ivs : List f.Double)
        → get_or (histogram f T hist_bins ivs).0 i 0 ≡ tally (in_bin hist_bins i) ivs
    unfolding histogram fill_at
    histogram-tally ivs =
        fill_at-tally ivs (tabulate hist_bins 0 (λ _. 0), 0) (length-tabulate hist_bins 0 (λ _. 0))
        ∙ omega (arith, get_or-tabulate {A = ℕ} hist_bins 0 i (λ _. 0) 0 lt)
