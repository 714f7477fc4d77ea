-- ===== src/Platform/Region/Search.antt =====
-- `FindLargestPhysicalRegion` finds a largest run of physical pages.
use native.Mathlib.Decide.{dec_lt}
use native.Mathlib.Nat.{mul-le-mul_right, div-add-mod, mod-lt}
use tailslayer_win.Common.{
  ℕ, zero, suc, ◌+◌, ◌*◌, ◌/◌, ◌^◌, ◌≤◌, ◌<◌, ◌≡◌, ◌⊎◌, inl, inr, ap, arith, leb, lt→ltb, le→ltb,
  leb→le, subst, Bool-cases, Option, some, Option-cases, add64,
}
use tailslayer_win.Platform.Region.{
  Region, no_region, usable, extend, larger, scan, find_largest, wanted_size,
}
use tailslayer_win.Platform.Region.Runs.{frame_of, Contiguous, IsRun}
use tailslayer_win.Platform.Region.Largest.{Scanned, start-Scanned, absent-Scanned, visited}

module _ (translate : ℕ → Option ℕ) (start total page wanted : ℕ) (positive : 0 < page)
    (fits : start + total + page < 2 ^ 64)
    (small : (i q : ℕ) → frame_of translate start page i ≡ some q → q + page < 2 ^ 64) where
  -- A run within the request, and no longer one unless this one is as large as wanted.
  abbrev pub Found : Region → Type 0
  Found r =
      (first n : ℕ) × IsRun translate start page first n r
      × ((first + n) * page < total + page)
      × ((i m p : ℕ)
          → (i + m) * page < total + page
          → Contiguous translate start page i m p
          → (m ≤ n) ⊎ (wanted ≤ r.size))

  finished :
      (k : ℕ) (current most : Region)
      → k * page < total + page
      → total ≤ k * page
      → Scanned translate start page k current most
      → Found most
  finished k current most in_range over s = (
    s.best_first,
    s.best_n,
    s.best_run,
    inside,
    λ i m p lt c. inl (s.best i m p (before i m lt) c),
  )
    where
      inside : (s.best_first + s.best_n) * page < total + page
      inside = let le = mul-le-mul_right page s.within in omega arith

      before : (i m : ℕ) → (i + m) * page < total + page → i + m ≤ k
      before i m lt = elim (dec_lt k (i + m)) [
        | no le ↦ omega arith
        | yes more ↦
            let le : suc k * page ≤ (i + m) * page = mul-le-mul_right page more in
            absurd (omega arith)
      ]

  stopped :
      (k : ℕ) (current most : Region)
      → k * page < total
      → wanted ≤ most.size
      → Scanned translate start page (suc k) current most
      → Found most
  stopped k current most more enough s =
      let le : (s.best_first + s.best_n) * page ≤ suc k * page = mul-le-mul_right page s.within in
      (s.best_first, s.best_n, s.best_run, omega arith, λ i m p lt c. inr enough)

  scan-Found :
      (fuel k : ℕ) (current most : Region)
      → k * page < total + page
      → total ≤ (k + fuel) * page
      → Scanned translate start page k current most
      → Found (scan translate start total page wanted fuel (k * page) current most)
  unfolding scan
  scan-Found zero k current most in_range over s =
      let same : k + 0 ≡ k = omega arith in
      finished k current most in_range (omega (arith, ap (λ t. t * page) same)) s
  scan-Found (suc fuel) k current most in_range over s = elim (dec_lt (k * page) total) [
    | no done ↦
        rw (le→ltb (k * page) total (omega arith))
          (finished k current most in_range (omega arith) s)
    | yes more ↦
        let at : add64 start (k * page) ≡ start + k * page = omega arith in
        let next : add64 (k * page) page ≡ suc k * page = omega arith in
        let later : k + suc fuel ≡ suc k + fuel = omega arith in
        let over' : total ≤ (suc k + fuel) * page = omega (arith, ap (λ t. t * page) later) in
        elim (Option-cases (frame_of translate start page k)) [
          | inl absent ↦
              rw (lt→ltb (k * page) total more, at, next, absent)
                (scan-Found fuel (suc k) no_region most (omega arith) over'
                  (absent-Scanned translate start page k current most s absent))
          | inr (p, here) ↦
              let current' = extend page (start + k * page) p current in
              let s' = visited translate start page k current most s p here positive small in
              elim (Bool-cases (leb wanted (larger current' most).size)) [
                | inl enough ↦
                    rw (lt→ltb (k * page) total more, at, next, here, enough)
                      (stopped k current' (larger current' most) more
                        (leb→le wanted (larger current' most).size enough) s')
                | inr small_yet ↦
                    rw (lt→ltb (k * page) total more, at, next, here, small_yet)
                      (scan-Found fuel (suc k) current' (larger current' most) (omega arith) over'
                        s')
              ]
        ]
  ]

-- Over a request whose addresses do not wrap, with physical addresses below 2^64 less a page and a
-- page no larger than the size asked for, `FindLargestPhysicalRegion` returns a run of pages of the
-- request that are next to each other in physical memory, and unless it is as large as asked for, no
-- longer run lies in the request.
pub find_largest_lem :
    (translate : ℕ → Option ℕ) (start total page desired : ℕ)
    → 0 < page
    → start + total + page < 2 ^ 64
    → page ≤ wanted_size desired
    → ((i q : ℕ) → usable (translate (start + i * page)) ≡ some q → q + page < 2 ^ 64)
    → (first n : ℕ) × IsRun translate start page first n
        (find_largest translate start total page desired)
      × ((first + n) * page < total + page)
      × ((i m p : ℕ)
          → (i + m) * page < total + page
          → Contiguous translate start page i m p
          → (m ≤ n)
            ⊎ (wanted_size desired ≤ (find_largest translate start total page desired).size))
unfolding find_largest
find_largest_lem translate start total page desired positive fits allowed small =
    rw (le→ltb (wanted_size desired) page allowed) (
      subst
        (λ o. Found translate start total page (wanted_size desired) positive fits small (
          scan translate start total page (wanted_size desired) (total / page + 1) o no_region
            no_region))
        none_yet
        (scan-Found translate start total page (wanted_size desired) positive fits small
          (total / page + 1) 0 no_region no_region (omega arith) enough
          (start-Scanned translate start page)))
  where
    none_yet : 0 * page ≡ 0
    none_yet = omega arith

    enough : total ≤ (0 + (total / page + 1)) * page
    enough = omega (arith, div-add-mod total page, mod-lt total positive)
