-- ===== src/Reader/Memory/Outcomes.antt =====
-- `setup_memory` of hedged_reader.hpp finds a physically contiguous page, or leaves no memory behind.
use native.Mathlib.Decide.{dec_lt}
use native.Mathlib.Nat.{mul-le-mul_right}
use tailslayer_win.Common.{
  differ, ℕ, suc, ◌+◌, ◌*◌, ◌≤◌, ◌<◌, ◌≡◌, ◌⊎◌, inl, inr, refl, sym, ap, ◌∙◌, arith, true, false,
  ltb, ltb→le, Bool-cases, Bool, List, if◌then◌else◌, Option, none, some, Option-cases, ◌∷◌,
}
use tailslayer_win.Platform.Region.{Region, usable, find_largest}
use tailslayer_win.Platform.Region.Runs.{IsRun, frame_of}
use tailslayer_win.Platform.Region.Search.{find_largest_lem}
use tailslayer_win.Platform.Allocation.{
  Os, TokenAnswers, acquire, release, end_multiplier, free_large_page,
}
use tailslayer_win.Platform.Allocation.Attempts.{
  IsOs, release-acquire, allocate-size, allocate-page, positive, page_fits,
}
use tailslayer_win.Reader.{hugepage_size, attach_page}
use tailslayer_win.Reader.Memory.{State, setup_memory, close_reader}
use tailslayer_win.Reader.Memory.Setup.{
  wanted, locked, allocated, setup_memory-unlocked, setup_memory-none, setup_memory-some,
  allocated-live, region, check_region-small, check_region-large,
}

module _ {ℓ} {A : Type ℓ} (os : Os) (token : TokenAnswers) (n : ℕ) (fill : A) (s : State A) where
  -- Where a run of `setup_memory` that succeeds has come through.
  record Succeeds : Type ℓ where
    v : ℕ
    found : (allocated os token n fill s).alloc.virtaddr ≡ some v
    large :
        ltb
          (region os token n fill s v found).size
          (allocated os token n fill s).alloc.size_in_bytes
        ≡ false
    result : setup_memory os token n fill s ≡ record (allocated os token n fill s) {
      succeeded = true;
      reader = attach_page n fill (region os token n fill s v found).vaddr s.reader;
    }

  -- Where a run that fails leaves nothing behind, or a block that is too small.
  Fails : Type 0
  Fails =
      ((setup_memory os token n fill s).live ≡ s.live)
      ⊎ ((v : ℕ) × ((setup_memory os token n fill s).alloc.virtaddr ≡ some v)
          × ((setup_memory os token n fill s).live
              ≡ (if os.virtual_free then s.live else v ∷ s.live)))

  setup_memory-cases : (((setup_memory os token n fill s).succeeded ≡ false) × Fails) ⊎ Succeeds
  unfolding Fails
  setup_memory-cases = elim (Bool-cases (locked os token n fill s)) [
    | inr unlocked ↦
        let (failed, same) = setup_memory-unlocked os token n fill s unlocked in
        inl (failed, inl same)
    | inl lock ↦ elim (Option-cases (allocated os token n fill s).alloc.virtaddr) [
      | inl absent ↦
          let result = setup_memory-none os token n fill s lock absent in
          inl (
            ap (λ r. r.succeeded) result,
            inl (
                ap (λ r. r.live) result
                ∙ allocated-live os token n fill s
                ∙ ap (λ b. acquire b s.live) absent),
          )
      | inr (v, found) ↦
          let reached = setup_memory-some os token n fill s v lock found in
          elim (Bool-cases (
            ltb (region os token n fill s v found).size
              (allocated os token n fill s).alloc.size_in_bytes)) [
                | inl small ↦
                    let result = reached ∙ check_region-small os token n fill s v found small in
                    inl (
                      ap (λ r. r.succeeded) result,
                      inr (v, ap (λ r. r.alloc.virtaddr) result ∙ found, ap (λ r. r.live) result),
                    )
                | inr large ↦ inr (record {
                  v = v;
                  found = found;
                  large = large;
                  result = reached ∙ check_region-large os token n fill s v found large;
                })
              ]
    ]
  ]

-- When `setup_memory` fails, the blocks in use are those that were in use before, wherever it failed,
-- as long as `VirtualFree` succeeds in `freeLargePage`. If that fails, they are the same, or the block
-- of `m_alloc` is in use besides.
pub setup_memory-live {ℓ} :
    {A : Type ℓ} (os : Os) (token : TokenAnswers) (n : ℕ) (fill : A) (s : State A)
    → (setup_memory os token n fill s).succeeded ≡ false
    → let r = setup_memory os token n fill s in
      (os.virtual_free ≡ true → r.live ≡ s.live)
      × (os.virtual_free ≡ false
          → (r.live ≡ s.live) ⊎ ((v : ℕ) × (r.alloc.virtaddr ≡ some v) × (r.live ≡ v ∷ s.live)))
unfolding Fails
setup_memory-live os token n fill s failed = elim (setup_memory-cases os token n fill s) [
  | inr good ↦ absurd (differ failed (ap (λ r. r.succeeded) good.result))
  | inl (_, inl same) ↦ (λ _. same, λ _. inl same)
  | inl (_, inr (v, at, left)) ↦
      let settle : Bool → List ℕ = λ b. if b then s.live else v ∷ s.live in
      (λ freed. left ∙ ap settle freed, λ kept. inr (v, at, left ∙ ap settle kept))
]

-- After a run of `setup_memory` that succeeds, the destructor leaves the reader without a page. If
-- `VirtualFree` succeeds there, it gives back the block the run took, and all blocks in use are those
-- from before the run; if not, the block stays in use.
pub close_reader-live {ℓ} :
    {A : Type ℓ} (os closing_os : Os) (token closing : TokenAnswers) (n : ℕ) (fill : A)
    (s : State A)
    → (setup_memory os token n fill s).succeeded ≡ true
    → let r = setup_memory os token n fill s in
      let closed = close_reader closing_os closing r in
      (closing_os.virtual_free ≡ true → closed.live ≡ s.live)
      × (closing_os.virtual_free ≡ false → closed.live ≡ r.live)
      × (closed.reader.replica_page ≡ none)
unfolding close_reader free_large_page
close_reader-live os closing_os token closing n fill s succeeded =
    elim (setup_memory-cases os token n fill s) [
      | inl (failed, _) ↦ absurd (differ failed succeeded)
      | inr good ↦
          let before = allocated os token n fill s in
          let settle : Bool → List ℕ =
            λ b. if b then release before.alloc.virtaddr before.live else before.live in
          rw good.result (
            λ freed.
                ap settle freed
                ∙ ap (release before.alloc.virtaddr) (allocated-live os token n fill s)
                ∙ release-acquire before.alloc.virtaddr s.live,
            λ kept. ap settle kept,
            refl,
          )
    ]

-- A run of pages of a block that is as large as the block is the block.
module _ (translate : ℕ → Option ℕ) (v size page first n : ℕ) (r : Region)
    (run : IsRun translate v page first n r) (inside : (first + n) * page < size + page)
    (large : size ≤ r.size) (some_bytes : 0 < size) where
  first-zero : first ≡ 0
  first-zero = elim (dec_lt 0 first) [
    | no least ↦ omega arith
    | yes later ↦
        let more : suc n ≤ first + n = omega arith in
        let le : suc n * page ≤ (first + n) * page = mul-le-mul_right page more in
        absurd (omega (arith, run.sized))
  ]

  below_n : (j : ℕ) → j * page < size → j < n
  below_n j lt = elim (dec_lt j n) [
    | yes below ↦ below
    | no above ↦
        let many : n ≤ j = omega arith in
        let le : n * page ≤ j * page = mul-le-mul_right page many in
        absurd (omega (arith, run.sized))
  ]

  whole-vaddr : r.vaddr ≡ v
  whole-vaddr =
      run.begins (below_n 0 (omega arith)) ∙ ap (λ i. v + i * page) first-zero ∙ omega arith

  whole-contiguous :
      (j : ℕ) → j * page < size → usable (translate (v + j * page)) ≡ some (r.paddr + j * page)
  whole-contiguous j lt =
      let same : first + j ≡ j = omega (arith, first-zero) in
      ap (frame_of translate v page) (sym same) ∙ run.contiguous j (below_n j lt)

-- When `setup_memory` succeeds under an operating system that keeps its promises, the replica page is
-- a block of its own, and each large page of the 1 GiB from its begin on lies at the same distance
-- from the first in physical memory as in virtual memory.
pub setup_memory-contiguous {ℓ} :
    {A : Type ℓ} (k : ℕ) (os : Os) (token : TokenAnswers) (n : ℕ) (fill : A) (s : State A)
    → IsOs k os
    → (setup_memory os token n fill s).succeeded ≡ true
    → (base p : ℕ) × ((setup_memory os token n fill s).reader.replica_page ≡ some base)
      × ((setup_memory os token n fill s).live ≡ base ∷ s.live)
      × ((j : ℕ)
          → j * os.large_page < hugepage_size
          → usable (os.translate end_multiplier (base + j * os.large_page))
            ≡ some (p + j * os.large_page))
unfolding attach_page region allocated wanted
setup_memory-contiguous k os token n fill s isos succeeded =
    elim (setup_memory-cases os token n fill s) [
      | inl (failed, _) ↦ absurd (differ failed succeeded)
      | inr good ↦ rw good.result (placed good.v good.found good.large)
    ]
  where
    placed :
        (v : ℕ) (found : (allocated os token n fill s).alloc.virtaddr ≡ some v)
        → ltb
            (region os token n fill s v found).size
            (allocated os token n fill s).alloc.size_in_bytes
          ≡ false
        → (base p : ℕ) × (some (region os token n fill s v found).vaddr ≡ some base)
          × ((allocated os token n fill s).live ≡ base ∷ s.live)
          × ((j : ℕ)
              → j * os.large_page < hugepage_size
              → usable (os.translate end_multiplier (base + j * os.large_page))
                ≡ some (p + j * os.large_page))
    placed v found large =
        let size = (allocated os token n fill s).alloc.size_in_bytes in
        let (enough, fits) = allocate-size k os (wanted os token n fill s) s.live isos v found in
        let page = allocate-page os (wanted os token n fill s) s.live in
        let r = find_largest (os.translate end_multiplier) v size os.large_page 0 in
        let same : region os token n fill s v found ≡ r =
          ap (λ g. find_largest (os.translate end_multiplier) v size g 0) page in
        let (first, m, run, inside, _) =
          find_largest_lem (os.translate end_multiplier) v size os.large_page 0 (positive k os isos)
            fits (omega (arith, page_fits k os isos))
            (λ i q. isos.below end_multiplier (v + i * os.large_page) q) in
        let large' : size ≤ r.size =
          ltb→le r.size size (ap (λ g. ltb g.size size) (sym same) ∙ large) in
        let bytes : 0 < size = omega arith in
        (
          v,
          r.paddr,
          ap some (
              ap (λ g. g.vaddr) same
              ∙ whole-vaddr (os.translate end_multiplier) v size os.large_page first m r run inside
                  large' bytes),
          allocated-live os token n fill s ∙ ap (λ b. acquire b s.live) found,
          λ j lt.
              whole-contiguous (os.translate end_multiplier) v size os.large_page first m r run
                inside large' bytes j (omega arith),
        )
