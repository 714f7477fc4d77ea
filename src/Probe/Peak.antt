-- ===== src/Probe/Peak.antt =====
-- The peak of the histogram of trefi_probe.cpp, and the range of the latencies.
use tailslayer_win.Common.{
  ℕ, zero, suc, ◌+◌, ◌≤◌, ◌<◌, ◌≡◌, ◌⊎◌, refl, sym, ap, ◌∙◌, arith, Bool, if◌then◌else◌, ltb,
  ltb→lt, ltb→le, Bool-cases, inl, inr, List, [], ◌∷◌, length, get_or, subst,
}
use tailslayer_win.Probe.Spikes.{sum}
use tailslayer_win.Probe.Analysis.{Doubles, peak_loop, find_peak, histogram}
use tailslayer_win.Probe.Bands.{histogram_lem}

-- From bin `b` on: no bin is higher than the result, and the result is what it was before, or the
-- first bin of its height.
abbrev IsPeak : List ℕ → ℕ → ℕ → ℕ → ℕ × ℕ → Type 0
IsPeak hist b peak_bin peak_count (bin, height) =
    (peak_count ≤ height)
    × ((i : ℕ) → get_or hist i 0 ≤ height)
    × (((bin ≡ peak_bin) × (height ≡ peak_count))
        ⊎ ((peak_count < height)
            × ((i : ℕ) × (bin ≡ b + i)
                × (get_or hist i 0 ≡ height)
                × ((j : ℕ) → j < i → get_or hist j 0 < height))))

peak_loop-IsPeak :
    (hist : List ℕ) (b peak_bin peak_count : ℕ)
    → IsPeak hist b peak_bin peak_count (peak_loop hist b peak_bin peak_count)
unfolding peak_loop
peak_loop-IsPeak [] b peak_bin peak_count = (omega arith, λ i. omega arith, inl (refl, refl))
peak_loop-IsPeak (h ∷ hist) b peak_bin peak_count = elim (Bool-cases (ltb peak_count h)) [
  | inl higher ↦
      subst (IsPeak (h ∷ hist) b peak_bin peak_count) (sym (ap turn higher))
        (above (ltb→lt peak_count h higher) (peak_loop-IsPeak hist (suc b) b h))
  | inr lower ↦
      subst (IsPeak (h ∷ hist) b peak_bin peak_count) (sym (ap turn lower))
        (same (ltb→le peak_count h lower) (peak_loop-IsPeak hist (suc b) peak_bin peak_count))
]
  where
    turn : Bool → ℕ × ℕ
    turn higher =
        peak_loop hist (suc b) (if higher then b else peak_bin) (if higher then h else peak_count)

    first : {r : ℕ} → h ≤ r → ((i : ℕ) → get_or hist i 0 ≤ r) → (i : ℕ) → get_or (h ∷ hist) i 0 ≤ r
    first le all zero = le
    first le all (suc i) = all i

    before :
        {r : ℕ} (k : ℕ)
        → h < r
        → ((j : ℕ) → j < k → get_or hist j 0 < r)
        → (j : ℕ) → j < suc k
        → get_or (h ∷ hist) j 0 < r
    before k lt all zero j_lt = lt
    before k lt all (suc j) j_lt = all j (omega arith)

    above :
        {r : ℕ × ℕ}
        → peak_count < h
        → IsPeak hist (suc b) b h r
        → IsPeak (h ∷ hist) b peak_bin peak_count r
    above lt (le, all, inl (at, eq)) = (
      omega arith,
      first le all,
      inr (omega arith, (0, omega arith, sym eq, λ j j_lt. absurd (omega arith))),
    )
    above lt (le, all, inr (more, (i, at, eq, earlier))) = (
      omega arith,
      first le all,
      inr (omega arith, (suc i, omega arith, eq, before i more earlier)),
    )

    same :
        {r : ℕ × ℕ}
        → h ≤ peak_count
        → IsPeak hist (suc b) peak_bin peak_count r
        → IsPeak (h ∷ hist) b peak_bin peak_count r
    same le' (le, all, inl kept) = (le, first (omega arith) all, inl kept)
    same le' (le, all, inr (more, (i, at, eq, earlier))) = (
      le,
      first (omega arith) all,
      inr (more, (suc i, omega arith, eq, before i (omega arith) earlier)),
    )

find_peak_lem :
    (hist : List ℕ)
    → let (bin, height) = find_peak hist in
      ((i : ℕ) → get_or hist i 0 ≤ height)
      × (get_or hist bin 0 ≡ height)
      × ((j : ℕ) → j < bin → get_or hist j 0 < height)
unfolding find_peak
find_peak_lem hist = from (find_peak hist) (peak_loop-IsPeak hist 0 0 0)
  where
    from :
        (r : ℕ × ℕ)
        → IsPeak hist 0 0 0 r
        → ((i : ℕ) → get_or hist i 0 ≤ r.1)
          × (get_or hist r.0 0 ≡ r.1)
          × ((j : ℕ) → j < r.0 → get_or hist j 0 < r.1)
    from r (le, all, inl (bin, height)) =
        (all, omega (arith, ap (λ b. get_or hist b 0) bin, all 0), λ j lt. absurd (omega arith))
    from r (le, all, inr (more, (i, at, eq, earlier))) =
        let here : r.0 ≡ i = omega arith in
        (all, ap (λ b. get_or hist b 0) here ∙ eq, λ j lt. earlier j (omega arith))

get_or-le-sum : (hist : List ℕ) (i : ℕ) → get_or hist i 0 ≤ sum hist
get_or-le-sum [] i = omega arith
get_or-le-sum (h ∷ hist) zero = omega arith
get_or-le-sum (h ∷ hist) (suc i) = omega (arith, get_or-le-sum hist i)

-- The bins of the histogram add up to its total, which is no more than the number of intervals. No bin
-- is higher than the peak, the bins before the peak are lower, and the peak is no higher than the
-- total.
pub histogram-peak :
    (f : Doubles) (T : f.Double) (hist_bins : ℕ) (ivs : List f.Double)
    → let (hist, hist_total) = histogram f T hist_bins ivs in
      let (bin, height) = find_peak hist in
      (sum hist ≡ hist_total)
      × (hist_total ≤ length ivs)
      × ((i : ℕ) → get_or hist i 0 ≤ height)
      × (get_or hist bin 0 ≡ height)
      × ((j : ℕ) → j < bin → get_or hist j 0 < height)
      × (height ≤ hist_total)
histogram-peak f T hist_bins ivs =
    let hist = (histogram f T hist_bins ivs).0 in
    let (_, total, few) = histogram_lem f T hist_bins ivs in
    let (all, here, earlier) = find_peak_lem hist in
    (total, few, all, here, earlier, omega (arith, get_or-le-sum hist (find_peak hist).0))
