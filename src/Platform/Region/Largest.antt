-- ===== src/Platform/Region/Largest.antt =====
-- What the scan of `FindLargestPhysicalRegion` knows after each page.
use native.Mathlib.Decide.{ℕ_discrete, dec_lt}
use native.Mathlib.Nat.{mul-le-mul_right, le_of_mul-le-mul_right}
use tailslayer_win.Common.{
  clash, ℕ, zero, suc, ◌+◌, ◌-◌, ◌*◌, ◌^◌, ◌≤◌, ◌<◌, ◌≡◌, ◌≢◌, refl, sym, ap, ◌∙◌, arith, ==_refl,
  ne→==, lt→ltb, le→ltb, Option, none, some, some_injective, subst, add64,
}
use tailslayer_win.Platform.Region.{Region, no_region, extend, larger}
use tailslayer_win.Platform.Region.Runs.{
  frame_of, Contiguous, IsRun, no_region-IsRun, fresh-IsRun, grown-IsRun, Contiguous-shorter,
}

lt-of_mul : (a b c : ℕ) → a * c < b * c → a < b
lt-of_mul a b c h = elim (dec_lt a b) [
  | yes lt ↦ lt
  | no ge ↦ let le : b ≤ a = omega arith in absurd (omega (arith, mul-le-mul_right c le))
]

larger-more : (current most : Region) → most.size < current.size → larger current most ≡ current
unfolding larger
larger-more current most h = rw (lt→ltb most.size current.size h) refl

larger-less : (current most : Region) → current.size ≤ most.size → larger current most ≡ most
unfolding larger
larger-less current most h = rw (le→ltb most.size current.size h) refl

zero_of : (n : ℕ) → ¬ (0 < n) → n ≡ 0
zero_of n h = omega arith

module _ (page v p : ℕ) (current : Region) where
  extend-empty :
      current.size ≡ 0 → extend page v p current ≡ record { vaddr = v; paddr = p; size = page }
  unfolding extend
  extend-empty e = rw e refl

  extend-apart :
      0 < current.size
      → current.paddr + current.size < 2 ^ 64
      → p ≢ current.paddr + current.size
      → extend page v p current ≡ record { vaddr = v; paddr = p; size = page }
  unfolding extend
  extend-apart some_size fits apart =
      let wrap : add64 current.paddr current.size ≡ current.paddr + current.size = omega arith in
      rw (lt→ltb 0 current.size some_size, wrap, ne→== p (current.paddr + current.size) apart) refl

module _ (translate : ℕ → Option ℕ) (start page : ℕ) where
  -- After the pages before `k`: the current region ends there and is the longest that does, and
  -- the largest one is at least as long as any run.
  pub record Scanned (k : ℕ) (current most : Region) : Type 0 where
    pub first : ℕ
    pub n : ℕ
    pub ends : first + n ≡ k
    pub run : IsRun translate start page first n current
    pub longest : (i m p : ℕ) → i + m ≡ k → Contiguous translate start page i m p → m ≤ n
    pub best_first : ℕ
    pub best_n : ℕ
    pub within : best_first + best_n ≤ k
    pub best_run : IsRun translate start page best_first best_n most
    pub best : (i m p : ℕ) → i + m ≤ k → Contiguous translate start page i m p → m ≤ best_n

  pub start-Scanned : Scanned 0 no_region no_region
  start-Scanned = record {
    first = 0;
    n = 0;
    ends = refl;
    run = no_region-IsRun translate start page 0;
    longest = λ i m p e _. omega arith;
    best_first = 0;
    best_n = 0;
    within = omega arith;
    best_run = no_region-IsRun translate start page 0;
    best = λ i m p le _. omega arith;
  }

  module _ (k : ℕ) (current most : Region) (s : Scanned k current most) where
    -- A page that is not there ends every run.
    pub absent-Scanned : frame_of translate start page k ≡ none → Scanned (suc k) no_region most
    absent-Scanned absent = record {
      first = suc k;
      n = 0;
      ends = omega arith;
      run = no_region-IsRun translate start page (suc k);
      longest = none_ends;
      best_first = s.best_first;
      best_n = s.best_n;
      within = omega (arith, s.within);
      best_run = s.best_run;
      best = λ i m p le c. elim (ℕ_discrete (i + m) (suc k)) [
        | yes at_end ↦ omega (arith, none_ends i m p at_end c)
        | no before ↦ s.best i m p (omega arith) c
      ];
    }
      where
        none_ends : (i m p : ℕ) → i + m ≡ suc k → Contiguous translate start page i m p → m ≤ 0
        none_ends i zero p e c = omega arith
        none_ends i (suc m) p e c =
            let here : i + m ≡ k = omega arith in
            absurd (clash (ap (frame_of translate start page) here ∙ absent) (c m (omega arith)))

    -- The page that is there: the new current region, and what it does to the largest.
    module _ (p : ℕ) (here : frame_of translate start page k ≡ some p) where
      present-Scanned :
          (first n : ℕ) (next : Region)
          → first + n ≡ suc k
          → IsRun translate start page first n next
          → ((i m q : ℕ) → i + m ≡ suc k → Contiguous translate start page i m q → m ≤ n)
          → 0 < page
          → Scanned (suc k) next (larger next most)
      present-Scanned first n next ends run longest positive = elim (dec_lt most.size next.size) [
        | yes more ↦
            let longer : s.best_n < n =
              lt-of_mul s.best_n n page (omega (arith, s.best_run.sized, run.sized)) in
            subst (Scanned (suc k) next) (sym (larger-more next most more)) (record {
              first = first;
              n = n;
              ends = ends;
              run = run;
              longest = longest;
              best_first = first;
              best_n = n;
              within = omega (arith, ends);
              best_run = run;
              best = λ i m q le c. elim (ℕ_discrete (i + m) (suc k)) [
                | yes at_end ↦ longest i m q at_end c
                | no before ↦ omega (arith, s.best i m q (omega arith) c)
              ];
            })
        | no less ↦
            let shorter : n ≤ s.best_n =
              le_of_mul-le-mul_right (omega (arith, s.best_run.sized, run.sized)) positive in
            subst (Scanned (suc k) next) (sym (larger-less next most (omega arith))) (record {
              first = first;
              n = n;
              ends = ends;
              run = run;
              longest = longest;
              best_first = s.best_first;
              best_n = s.best_n;
              within = omega (arith, s.within);
              best_run = s.best_run;
              best = λ i m q le c. elim (ℕ_discrete (i + m) (suc k)) [
                | yes at_end ↦ omega (arith, longest i m q at_end c)
                | no before ↦ s.best i m q (omega arith) c
              ];
            })
      ]

      module _ (positive : 0 < page)
          (small : (i q : ℕ) → frame_of translate start page i ≡ some q → q + page < 2 ^ 64) where
        -- The page follows the current region.
        joins :
            0 < s.n
            → p ≡ current.paddr + current.size
            → Scanned
                (suc k)
                (extend page (start + k * page) p current)
                (larger (extend page (start + k * page) p current) most)
        unfolding extend
        joins some_pages follows =
            let sized = s.run.sized in
            let le : 1 * page ≤ s.n * page = mul-le-mul_right page some_pages in
            let bound = small k p here in
            let wrap : add64 current.paddr current.size ≡ current.paddr + current.size =
              omega arith in
            let grown : add64 current.size page ≡ current.size + page = omega arith in
            rw
              (
                lt→ltb 0 current.size (omega arith),
                wrap,
                follows,
                ==_refl (current.paddr + current.size),
                grown,
              )
              (present-Scanned s.first (suc s.n) (record current { size = current.size + page })
                (omega (arith, s.ends))
                (grown-IsRun translate start page s.first s.n p current some_pages s.run
                  (ap (frame_of translate start page) s.ends ∙ here) follows)
                one_more positive)
          where
            one_more :
                (i m q : ℕ) → i + m ≡ suc k → Contiguous translate start page i m q → m ≤ suc s.n
            one_more i zero q e c = omega arith
            one_more i (suc m) q e c = omega (
              arith,
              s.longest i m q (omega arith) (Contiguous-shorter translate start page i m q c),
            )

        -- It does not.
        starts :
            (0 < s.n → p ≢ current.paddr + current.size)
            → Scanned
                (suc k)
                (record { vaddr = start + k * page; paddr = p; size = page })
                (larger (record { vaddr = start + k * page; paddr = p; size = page }) most)
        starts apart =
            present-Scanned k 1 (record { vaddr = start + k * page; paddr = p; size = page })
              (omega arith) (fresh-IsRun translate start page k p here) single positive
          where
            single : (i m q : ℕ) → i + m ≡ suc k → Contiguous translate start page i m q → m ≤ 1
            single i zero q e c = omega arith
            single i (suc zero) q e c = omega arith
            single i (suc (suc m)) q e c =
                let before : suc m ≤ s.n =
                  s.longest i (suc m) q (omega arith)
                    (Contiguous-shorter translate start page i (suc m) q c) in
                let last = s.n - 1 in
                let size_of_last : s.n ≡ suc last = omega arith in
                let place : s.first + last ≡ i + m = omega (arith, s.ends) in
                let beside : current.paddr + last * page ≡ q + m * page = some_injective (
                  sym (s.run.contiguous last (omega arith))
                  ∙ ap (frame_of translate start page) place
                  ∙ c m (omega arith)) in
                let here_too : i + suc m ≡ k = omega arith in
                let end : p ≡ q + suc m * page = some_injective (
                  sym here
                  ∙ ap (frame_of translate start page) (sym here_too)
                  ∙ c (suc m) (omega arith)) in
                absurd (
                  apart (omega arith) (omega (arith, s.run.sized, ap (λ t. t * page) size_of_last)))

        some_size : 0 < s.n → 0 < current.size
        some_size some_pages =
            let le : 1 * page ≤ s.n * page = mul-le-mul_right page some_pages in
            omega (arith, s.run.sized)

        no_wrap : 0 < s.n → current.paddr + current.size < 2 ^ 64
        no_wrap some_pages =
            let last = s.n - 1 in
            let size_of_last : s.n ≡ suc last = omega arith in
            omega (
              arith,
              small (s.first + last) (current.paddr + last * page)
                  (s.run.contiguous last (omega arith)),
              s.run.sized,
              ap (λ t. t * page) size_of_last,
            )

        -- The page, whether it joins or starts a region.
        pub visited :
            Scanned
              (suc k)
              (extend page (start + k * page) p current)
              (larger (extend page (start + k * page) p current) most)
        visited = elim (dec_lt 0 s.n) [
          | no empty ↦
              let nothing : current.size ≡ 0 =
                s.run.sized ∙ ap (λ t. t * page) (zero_of s.n empty) ∙ omega arith in
              subst (λ r. Scanned (suc k) r (larger r most))
                (sym (extend-empty page (start + k * page) p current nothing))
                (starts (λ pos. absurd (empty pos)))
          | yes some_pages ↦ elim (ℕ_discrete p (current.paddr + current.size)) [
            | yes follows ↦ joins some_pages follows
            | no apart ↦
                subst (λ r. Scanned (suc k) r (larger r most))
                  (sym (
                    extend-apart page (start + k * page) p current (some_size some_pages)
                      (no_wrap some_pages) apart))
                  (starts (λ _. apart))
          ]
        ]
