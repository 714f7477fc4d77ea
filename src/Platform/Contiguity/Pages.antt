-- ===== src/Platform/Contiguity/Pages.antt =====
-- `verifyHugePageIsContiguous` accepts exactly the blocks whose pages are together.
use native.Mathlib.Decide.{ℕ_discrete}
use native.Mathlib.Nat.{mul-le-mul_right, mul-mod_left, mul-div_cancel}
use tailslayer_win.Common.{
  differ, clash, ℕ, zero, suc, ◌+◌, ◌-◌, ◌*◌, ◌^◌, ◌≤◌, ◌<◌, ◌≡◌, ◌≢◌, ◌↔◌, inl, inr, refl, sym, ap,
  ◌∙◌, arith, true, false, ==_refl, ne→==, Option, none, some, Option-cases, some_injective, add64,
  mul64, max64,
}
use tailslayer_win.Platform.Region.{present}
use tailslayer_win.Platform.Contiguity.{translated, verify_pages, verify_huge_page_is_contiguous}

module _ (translate : ℕ → Option ℕ) (minimum begins last : ℕ)
    (fits : begins + last * minimum < 2 ^ 64)
    (below : (v q : ℕ) → translate v ≡ some q → q + minimum < max64) where
  -- The next `left` pages follow the one at `before`.
  abbrev Follows : ℕ → ℕ → ℕ → Type 0
  Follows left offset before =
      (i : ℕ)
      → i < left
      → translate (begins + (offset + i) * minimum) ≡ some (before + suc i * minimum)

  page-address :
      (offset : ℕ) → offset ≤ last → add64 begins (mul64 minimum offset) ≡ begins + offset * minimum
  page-address offset le = let bound = mul-le-mul_right minimum le in omega arith

  module _ (left offset before : ℕ) (le : offset ≤ last) (room : before + minimum < max64) where
    step-none :
        translate (begins + offset * minimum) ≡ none
        → verify_pages translate minimum begins (suc left) offset before true ≡ false
    unfolding verify_pages
    step-none absent =
        let plain : add64 before minimum ≡ before + minimum = omega arith in
        rw (page-address offset le, absent, plain, ne→== (before + minimum) max64 (omega arith))
          refl

    step-apart :
        (q : ℕ)
        → translate (begins + offset * minimum) ≡ some q
        → before + minimum ≢ q
        → verify_pages translate minimum begins (suc left) offset before true ≡ false
    unfolding verify_pages
    step-apart q here apart =
        let plain : add64 before minimum ≡ before + minimum = omega arith in
        rw (page-address offset le, here, plain, ne→== (before + minimum) q apart) refl

    step-next :
        translate (begins + offset * minimum) ≡ some (before + minimum)
        → verify_pages translate minimum begins (suc left) offset before true
          ≡ verify_pages translate minimum begins left (suc offset) (before + minimum) true
    unfolding verify_pages
    step-next here =
        let plain : add64 before minimum ≡ before + minimum = omega arith in
        rw (page-address offset le, here, plain, ==_refl (before + minimum)) refl

    here-of_Follows :
        Follows (suc left) offset before
        → translate (begins + offset * minimum) ≡ some (before + minimum)
    here-of_Follows h =
        let same : offset ≡ offset + 0 = omega arith in
        let one : before + 1 * minimum ≡ before + minimum = omega arith in
        ap (λ o. translate (begins + o * minimum)) same ∙ h 0 (omega arith) ∙ ap some one

    later-of_Follows :
        Follows (suc left) offset before → Follows left (suc offset) (before + minimum)
    later-of_Follows h i lt =
        let same : suc offset + i ≡ offset + suc i = omega arith in
        let place : before + suc (suc i) * minimum ≡ before + minimum + suc i * minimum =
          omega arith in
        ap (λ o. translate (begins + o * minimum)) same ∙ h (suc i) (omega arith) ∙ ap some place

    Follows-suc :
        translate (begins + offset * minimum) ≡ some (before + minimum)
        → Follows left (suc offset) (before + minimum)
        → Follows (suc left) offset before
    Follows-suc here h zero lt =
        let same : offset + 0 ≡ offset = omega arith in
        let one : before + minimum ≡ before + 1 * minimum = omega arith in
        ap (λ o. translate (begins + o * minimum)) same ∙ here ∙ ap some one
    Follows-suc here h (suc i) lt =
        let same : offset + suc i ≡ suc offset + i = omega arith in
        let place : before + minimum + suc i * minimum ≡ before + suc (suc i) * minimum =
          omega arith in
        ap (λ o. translate (begins + o * minimum)) same ∙ h i (omega arith) ∙ ap some place

  verify_pages-Follows :
      (left offset before : ℕ)
      → offset + left ≤ suc last
      → before + minimum < max64
      → (verify_pages translate minimum begins left offset before true ≡ true)
        ↔ Follows left offset before
  unfolding verify_pages
  verify_pages-Follows zero offset before le room = (λ _ i lt. elim lt [ ], λ _. refl)
  verify_pages-Follows (suc left) offset before le room =
      elim (Option-cases (translate (begins + offset * minimum))) [
        | inl absent ↦ (
          λ e. absurd (differ (step-none left offset before (omega arith) room absent) e),
          λ h. absurd (clash absent (here-of_Follows left offset before (omega arith) room h)),
        )
        | inr (q, here) ↦ elim (ℕ_discrete (before + minimum) q) [
          | no apart ↦ (
            λ e. absurd (differ (step-apart left offset before (omega arith) room q here apart) e),
            λ h. absurd (
                apart (
                  some_injective
                    (sym (here-of_Follows left offset before (omega arith) room h) ∙ here))),
          )
          | yes next ↦
              let found = here ∙ ap some (sym next) in
              let room' = below (begins + offset * minimum) (before + minimum) found in
              let rest =
                verify_pages-Follows left (suc offset) (before + minimum) (omega arith) room' in
              let step = step-next left offset before (omega arith) room found in
              (
                λ e.
                    Follows-suc left offset before (omega arith) room found (rest.0 (sym step ∙ e)),
                λ h. step ∙ rest.1 (later-of_Follows left offset before (omega arith) room h),
              )
        ]
      ]

module _ (translate : ℕ → Option ℕ) (minimum begins : ℕ) where
  verify_pages-false :
      (left offset before : ℕ)
      → verify_pages translate minimum begins left offset before false ≡ false
  unfolding verify_pages
  verify_pages-false zero offset before = refl
  verify_pages-false (suc left) offset before =
      elim (Option-cases (translate (add64 begins (mul64 minimum offset)))) [
        | inl absent ↦ rw absent refl
        | inr (q, here) ↦ rw here refl
      ]

  whole-pages :
      (pages : ℕ)
      → 0 < minimum
      → verify_huge_page_is_contiguous translate minimum begins true (pages * minimum)
        ≡ verify_pages translate minimum begins
            (pages - 1)
            1
            (translated 0 (translate begins))
            (present (translate begins))
  unfolding verify_huge_page_is_contiguous
  whole-pages pages positive = rw (mul-mod_left pages minimum, mul-div_cancel pages positive) refl

  -- Every page is at its place, from the first page and the others.
  module _ (pages p : ℕ) (first : translate begins ≡ some p) where
    all-of_rest :
        ((i : ℕ)
          → i < pages - 1
          → translate (begins + (1 + i) * minimum) ≡ some (p + suc i * minimum))
        → (j : ℕ) → j < pages
        → translate (begins + j * minimum) ≡ some (p + j * minimum)
    all-of_rest h zero lt =
        let same : begins + 0 * minimum ≡ begins = omega arith in
        let place : p ≡ p + 0 * minimum = omega arith in ap translate same ∙ first ∙ ap some place
    all-of_rest h (suc i) lt =
        let same : suc i ≡ 1 + i = omega arith in
        ap (λ o. translate (begins + o * minimum)) same ∙ h i (omega arith)

-- With the reader of physical memory there, for a block of one large page at least that is a whole
-- number of them and ends before 2^64, and physical pages that end before `UINT64_MAX`,
-- `verifyHugePageIsContiguous` returns true exactly when every large page of the block is mapped and
-- each lies at the same distance from the first in physical memory as in virtual memory.
pub verify_huge_page_is_contiguous_lem :
    (translate : ℕ → Option ℕ) (minimum begins pages : ℕ)
    → 0 < minimum
    → 0 < pages
    → begins + pages * minimum < 2 ^ 64
    → ((v q : ℕ) → translate v ≡ some q → q + minimum < max64)
    → (verify_huge_page_is_contiguous translate minimum begins true (pages * minimum) ≡ true) ↔ (
        (p : ℕ) × ((j : ℕ) → j < pages → translate (begins + j * minimum) ≡ some (p + j * minimum)))
verify_huge_page_is_contiguous_lem translate minimum begins pages positive some_pages fits below =
    rw (whole-pages translate minimum begins pages positive)
      (elim (Option-cases (translate begins)) [
        | inl absent ↦ rw absent (
          λ e. absurd (differ (verify_pages-false translate minimum begins (pages - 1) 1 0) e),
          λ h. absurd (clash absent (first_of h.0 h.1)),
        )
        | inr (q, first) ↦
            let rest =
              verify_pages-Follows translate minimum begins (pages - 1)
                (omega (arith, mul-le-mul_right minimum fewer)) below (pages - 1) 1 q (omega arith)
                (below begins q first) in
            rw first (
              λ e. (q, all-of_rest translate minimum begins pages q first (rest.0 e)),
              λ h. rest.1 (λ i lt.
                  let same : 1 + i ≡ suc i = omega arith in
                  let base : h.0 ≡ q = some_injective (sym (first_of h.0 h.1) ∙ first) in
                  ap (λ o. translate (begins + o * minimum)) same
                  ∙ h.1 (suc i) (omega arith)
                  ∙ ap (λ b. some (b + suc i * minimum)) base),
            )
      ])
  where
    fewer : pages - 1 ≤ pages
    fewer = omega arith

    first_of :
        (p : ℕ)
        → ((j : ℕ) → j < pages → translate (begins + j * minimum) ≡ some (p + j * minimum))
        → translate begins ≡ some p
    first_of p h =
        let same : begins ≡ begins + 0 * minimum = omega arith in
        let place : p + 0 * minimum ≡ p = omega arith in
        ap translate same ∙ h 0 some_pages ∙ ap some place
