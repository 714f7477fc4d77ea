-- ===== src/Probe/Calibration.antt =====
-- The sorted calibration of trefi_probe.cpp: what its percentiles say of the threshold.
use tailslayer_win.Common.{
  ℕ, zero, suc, ◌+◌, ◌≤◌, ◌<◌, ◌≡◌, refl, sym, ap, ◌∙◌, arith, ltb, ◌==◌, lt→ltb, le→ltb, ltb→lt,
  ltb→le, Bool-cases, inl, inr, List, [], ◌∷◌, length, get_or, count, one_at,
}
use tailslayer_win.Probe.{
  cmp_u64, insert_sorted, qsort, count_above, percentiles, calibration_probes,
}

abbrev pub AllAbove : ℕ → List ℕ → Type 0
AllAbove x [] = Unit
AllAbove x (y ∷ ys) = (x ≤ y) × AllAbove x ys

abbrev pub IsSorted : List ℕ → Type 0
IsSorted [] = Unit
IsSorted (x ∷ xs) = AllAbove x xs × IsSorted xs

cmp_u64-eq_one : (va vb : ℕ) → (cmp_u64 va vb == 1) ≡ ltb vb va
unfolding cmp_u64
cmp_u64-eq_one va vb = ground arith

AllAbove-le : (x y : ℕ) (xs : List ℕ) → x ≤ y → AllAbove y xs → AllAbove x xs
AllAbove-le x y [] le h = tt
AllAbove-le x y (z ∷ xs) le (yz, h) = (omega arith, AllAbove-le x y xs le h)

insert_sorted-AllAbove :
    (b x : ℕ) (xs : List ℕ) → b ≤ x → AllAbove b xs → AllAbove b (insert_sorted x xs)
unfolding insert_sorted
insert_sorted-AllAbove b x [] le h = (le, tt)
insert_sorted-AllAbove b x (y ∷ ys) le (first, h) = elim (Bool-cases (cmp_u64 y x == 1)) [
  | inl before ↦ rw before (le, (first, h))
  | inr after ↦ rw after (first, insert_sorted-AllAbove b x ys le h)
]

insert_sorted-IsSorted : (x : ℕ) (xs : List ℕ) → IsSorted xs → IsSorted (insert_sorted x xs)
unfolding insert_sorted
insert_sorted-IsSorted x [] h = (tt, tt)
insert_sorted-IsSorted x (y ∷ ys) (first, h) = elim (Bool-cases (cmp_u64 y x == 1)) [
  | inl before ↦
      let lt = ltb→lt x y (sym (cmp_u64-eq_one y x) ∙ before) in
      rw before ((omega arith, AllAbove-le x y ys (omega arith) first), (first, h))
  | inr after ↦
      let le = ltb→le x y (sym (cmp_u64-eq_one y x) ∙ after) in
      rw after (insert_sorted-AllAbove y x ys le first, insert_sorted-IsSorted x ys h)
]

qsort-IsSorted : (xs : List ℕ) → IsSorted (qsort xs)
unfolding qsort
qsort-IsSorted [] = tt
qsort-IsSorted (x ∷ xs) = insert_sorted-IsSorted x (qsort xs) (qsort-IsSorted xs)

insert_sorted-count :
    (i x : ℕ) (xs : List ℕ) → count i (insert_sorted x xs) ≡ one_at x i + count i xs
unfolding insert_sorted
insert_sorted-count i x [] = refl
insert_sorted-count i x (y ∷ ys) = elim (Bool-cases (cmp_u64 y x == 1)) [
  | inl before ↦ rw before refl
  | inr after ↦ rw after (omega (arith, insert_sorted-count i x ys))
]

qsort-count : (xs : List ℕ) (i : ℕ) → count i (qsort xs) ≡ count i xs
unfolding qsort
qsort-count [] i = refl
qsort-count (x ∷ xs) i = omega (arith, insert_sorted-count i x (qsort xs), qsort-count xs i)

length-insert_sorted : (x : ℕ) (xs : List ℕ) → length (insert_sorted x xs) ≡ suc (length xs)
unfolding insert_sorted
length-insert_sorted x [] = refl
length-insert_sorted x (y ∷ ys) = elim (Bool-cases (cmp_u64 y x == 1)) [
  | inl before ↦ rw before refl
  | inr after ↦ rw after (ap suc (length-insert_sorted x ys))
]

length-qsort : (xs : List ℕ) → length (qsort xs) ≡ length xs
unfolding qsort
length-qsort [] = refl
length-qsort (x ∷ xs) = omega (arith, length-insert_sorted x (qsort xs), length-qsort xs)

AllAbove-get_or : (x i : ℕ) (xs : List ℕ) → AllAbove x xs → i < length xs → x ≤ get_or xs i 0
AllAbove-get_or x i [] h lt = absurd (omega arith)
AllAbove-get_or x zero (y ∷ xs) (le, h) lt = le
AllAbove-get_or x (suc i) (y ∷ xs) (le, h) lt = AllAbove-get_or x i xs h (omega arith)

count_above-le : (threshold : ℕ) (xs : List ℕ) → count_above threshold xs ≤ length xs
unfolding count_above
count_above-le threshold [] = omega arith
count_above-le threshold (x ∷ xs) = ground (arith, count_above-le threshold xs)

-- All of a list that begins above the threshold.
count_above-all :
    (threshold x : ℕ) (xs : List ℕ)
    → threshold < x
    → AllAbove x xs
    → count_above threshold xs ≡ length xs
unfolding count_above
count_above-all threshold x [] lt h = refl
count_above-all threshold x (y ∷ xs) lt (le, h) =
    rw (lt→ltb threshold y (omega arith)) (omega (arith, count_above-all threshold x xs lt h))

count_above-few :
    (threshold i : ℕ) (xs : List ℕ)
    → IsSorted xs
    → i < length xs
    → get_or xs i 0 ≤ threshold
    → count_above threshold xs + suc i ≤ length xs
unfolding count_above
count_above-few threshold i [] h lt le = absurd (omega arith)
count_above-few threshold zero (x ∷ xs) (first, h) lt le =
    rw (le→ltb threshold x le) (omega (arith, count_above-le threshold xs))
count_above-few threshold (suc i) (x ∷ xs) (first, h) lt le =
    let below : x ≤ threshold = omega (arith, AllAbove-get_or x i xs first (omega arith)) in
    rw (le→ltb threshold x below) (omega (arith, count_above-few threshold i xs h (omega arith) le))

count_above-many :
    (threshold i : ℕ) (xs : List ℕ)
    → IsSorted xs
    → i < length xs
    → threshold < get_or xs i 0
    → length xs ≤ count_above threshold xs + i
unfolding count_above
count_above-many threshold i [] h lt above = absurd (omega arith)
count_above-many threshold zero (x ∷ xs) (first, h) lt above =
    rw (lt→ltb threshold x above) (omega (arith, count_above-all threshold x xs above first))
count_above-many threshold (suc i) (x ∷ xs) (first, h) lt above =
    omega (arith, count_above-many threshold i xs h (omega arith) above)

-- Of the 500,000 calibration probes, fewer than a tenth are above a threshold that the 90th percentile
-- does not exceed, and fewer than a hundredth above one that the 99th does not; a tenth at least are
-- above any other threshold, and a hundredth. The list counted is ascending and has every number as
-- often as the one measured.
pub count_above-percentiles :
    (threshold : ℕ) (raw : List ℕ)
    → length raw ≡ calibration_probes
    → let calib = qsort raw in
      ((percentiles calib).p90 ≤ threshold → count_above threshold calib < 50000)
      × ((percentiles calib).p99 ≤ threshold → count_above threshold calib < 5000)
      × (threshold < (percentiles calib).p90 → 50000 ≤ count_above threshold calib)
      × (threshold < (percentiles calib).p99 → 5000 ≤ count_above threshold calib)
      × IsSorted calib
      × ((i : ℕ) → count i calib ≡ count i raw)
unfolding percentiles
count_above-percentiles threshold raw full =
    let sorted = qsort-IsSorted raw in
    let whole = length-qsort raw in
    (
      λ le. omega (arith, count_above-few threshold 450000 (qsort raw) sorted (omega arith) le),
      λ le. omega (arith, count_above-few threshold 495000 (qsort raw) sorted (omega arith) le),
      λ lt. omega (arith, count_above-many threshold 450000 (qsort raw) sorted (omega arith) lt),
      λ lt. omega (arith, count_above-many threshold 495000 (qsort raw) sorted (omega arith) lt),
      sorted,
      qsort-count raw,
    )
