-- ===== src/Platform/Region/Runs.antt =====
-- Runs of pages that lie next to each other in physical memory.
use tailslayer_win.Common.{ℕ, suc, ◌+◌, ◌*◌, ◌<◌, ◌≡◌, refl, sym, ap, ◌∙◌, arith, Option, some}
use native.Mathlib.Decide.{ℕ_discrete}
use tailslayer_win.Platform.Region.{Region, no_region, usable}

module _ (translate : ℕ → Option ℕ) (start page : ℕ) where
  abbrev pub frame_of : ℕ → Option ℕ
  frame_of i = usable (translate (start + i * page))

  -- The `n` pages from page `i` on are at `p` and after, without a gap.
  abbrev pub Contiguous : ℕ → ℕ → ℕ → Type 0
  Contiguous i n p = (j : ℕ) → j < n → frame_of (i + j) ≡ some (p + j * page)

  -- A region of the `n` pages from page `first` on.
  pub record IsRun (first n : ℕ) (r : Region) : Type 0 where
    pub sized : r.size ≡ n * page
    pub begins : 0 < n → r.vaddr ≡ start + first * page
    pub contiguous : Contiguous first n r.paddr

  pub no_region-IsRun : (k : ℕ) → IsRun k 0 no_region
  no_region-IsRun k = record {
    sized = omega arith;
    begins = λ pos. elim pos [ ];
    contiguous = λ j lt. elim lt [ ];
  }

  -- A page is a region of its own.
  pub fresh-IsRun :
      (k p : ℕ)
      → frame_of k ≡ some p
      → IsRun k 1 (record { vaddr = start + k * page; paddr = p; size = page })
  fresh-IsRun k p here = record {
    sized = omega arith;
    begins = λ pos. refl;
    contiguous = λ j lt. only j (omega arith);
  }
    where
      only : (j : ℕ) → j ≡ 0 → frame_of (k + j) ≡ some (p + j * page)
      only j zero_j =
          let same : k ≡ k + j = omega arith in
          let place : p ≡ p + j * page = rw zero_j (omega arith) in
          ap frame_of (sym same) ∙ here ∙ ap some place

  -- A page joins the region that ends before it.
  pub grown-IsRun :
      (first n p : ℕ) (r : Region)
      → 0 < n
      → IsRun first n r
      → frame_of (first + n) ≡ some p
      → p ≡ r.paddr + r.size
      → IsRun first (suc n) (record r { size = r.size + page })
  grown-IsRun first n p r pos run here next = record {
    sized = omega (arith, run.sized);
    begins = λ _. run.begins pos;
    contiguous = λ j lt. elim (ℕ_discrete j n) [
      | no other ↦ run.contiguous j (omega arith)
      | yes last ↦
          let place : p ≡ r.paddr + j * page = rw last (omega (arith, next, run.sized)) in
          ap (λ i. frame_of (first + i)) last ∙ here ∙ ap some place
    ];
  }

  -- A run without its last page, and with an equal one in its place.
  pub Contiguous-shorter : (i m p : ℕ) → Contiguous i (suc m) p → Contiguous i m p
  Contiguous-shorter i m p h j lt = h j (omega arith)
