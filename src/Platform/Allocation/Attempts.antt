-- ===== src/Platform/Allocation/Attempts.antt =====
-- What the attempts of `allocateLargePageMin` leave in use, and how large a block they find.
use native.Mathlib.Decide.{dec_lt}
use native.Mathlib.Nat.{mul-le-mul_right, div-add-mod, pow-le-pow_right}
use tailslayer_win.Common.{
  clash, ℕ, zero, suc, ◌+◌, ◌-◌, ◌*◌, ◌/◌, ◌^◌, ◌≤◌, ◌<◌, ◌≡◌, ◌⊎◌, inl, inr, refl, sym, ap, ◌∙◌,
  arith, Bool, true, false, if◌then◌else◌, ltb, ==_refl, subst, Option-cases, Bool-cases, ltb→le,
  Option, none, some, List, mul64, pow_two_pos,
}
use tailslayer_win.Platform.Region.{no_region, usable, find_largest}
use tailslayer_win.Platform.Region.Search.{find_largest_lem}
use tailslayer_win.Platform.Allocation.Rounding.{round_up-pow}
use tailslayer_win.Platform.Allocation.{
  Os, AllocationRequest, Attempt, acquire, release, address, round_up, attempt, attempts,
  allocate_large_page_min,
}

pub release-acquire : (block : Option ℕ) (live : List ℕ) → release block (acquire block live) ≡ live
release-acquire none live = refl
release-acquire (some v) live = rw (==_refl v) refl

settle :
    (failed : Bool) (block : Option ℕ) (live : List ℕ)
    → (if failed then release block (acquire block live) else acquire block live)
      ≡ (if failed then live else acquire block live)
settle true block live = release-acquire block live
settle false block live = refl

-- A failed attempt leaves nothing in use, another one its block.
attempt-live :
    (os : Os) (wanted mul : ℕ) (live : List ℕ)
    → (attempt os wanted mul live).live ≡ (
        if (attempt os wanted mul live).failed
        then live
        else acquire (attempt os wanted mul live).block live)
unfolding attempt
attempt-live os wanted mul live =
    let size = round_up os.large_page (mul64 mul (os.available mul) / 100) in
    let block = os.virtual_alloc mul size in
    settle (ltb (find_largest (os.translate mul) (address block) size os.large_page 0).size wanted)
      block live

-- The loop fails and leaves nothing in use, or ends with an attempt that did not fail.
abbrev Settled : Os → ℕ → List ℕ → Attempt → Type 0
Settled os wanted live a =
    ((a.failed ≡ true) × (a.live ≡ live))
    ⊎ ((a.failed ≡ false) × (mul : ℕ) × (a ≡ attempt os wanted mul live))

module _ (os : Os) (wanted left mul : ℕ) (last : Attempt) where
  attempts-failed :
      (attempt os wanted mul last.live).failed ≡ true
      → attempts os wanted (suc left) mul last
        ≡ attempts os wanted left (suc mul) (attempt os wanted mul last.live)
  unfolding attempts
  attempts-failed fails = rw fails refl

  attempts-good :
      (attempt os wanted mul last.live).failed ≡ false
      → attempts os wanted (suc left) mul last ≡ attempt os wanted mul last.live
  unfolding attempts
  attempts-good good = rw good refl

attempts-Settled :
    (os : Os) (wanted left mul : ℕ) (live : List ℕ) (last : Attempt)
    → last.failed ≡ true
    → last.live ≡ live
    → Settled os wanted live (attempts os wanted left mul last)
unfolding attempts
attempts-Settled os wanted zero mul live last failed same = inl (failed, same)
attempts-Settled os wanted (suc left) mul live last failed same =
    let this = attempt os wanted mul last.live in
    elim (Bool-cases this.failed) [
      | inl fails ↦
          let kept : this.live ≡ live =
            attempt-live os wanted mul last.live
            ∙ ap (λ b. if b then last.live else acquire this.block last.live) fails
            ∙ same in
          subst (Settled os wanted live) (sym (attempts-failed os wanted left mul last fails))
            (attempts-Settled os wanted left (suc mul) live this fails kept)
      | inr good ↦
          subst (Settled os wanted live) (sym (attempts-good os wanted left mul last good))
            (inr (good, mul, ap (attempt os wanted mul) same))
    ]

pages-bound : (first n pages page : ℕ) → (first + n) * page < pages * page + page → n ≤ pages
pages-bound first n pages page h = elim (dec_lt pages n) [
  | no le ↦ omega arith
  | yes more ↦
      let many : suc pages ≤ first + n = omega arith in
      let le = mul-le-mul_right page many in absurd (omega arith)
]

-- What the operating system promises: a page size that is a power of two, blocks and physical pages
-- that end before 2^64.
pub record IsOs (k : ℕ) (os : Os) : Type 0 where
  pub page_sized : os.large_page ≡ 2 ^ k
  pub narrow : k ≤ 30
  pub placed :
      (mul size v : ℕ) → os.virtual_alloc mul size ≡ some v → v + size + os.large_page < 2 ^ 64
  pub below : (mul v q : ℕ) → usable (os.translate mul v) ≡ some q → q + os.large_page < 2 ^ 64

attempt-placed :
    (k : ℕ) (os : Os) (good : IsOs k os) (wanted mul v : ℕ) (live : List ℕ)
    → (attempt os wanted mul live).block ≡ some v
    → v + (attempt os wanted mul live).size + os.large_page < 2 ^ 64
unfolding attempt
attempt-placed k os good wanted mul v live found =
    good.placed mul (round_up os.large_page (mul64 mul (os.available mul) / 100)) v found

module _ (k : ℕ) (os : Os) (good : IsOs k os) where
  pub positive : 0 < os.large_page
  positive = omega (arith, good.page_sized, pow_two_pos k)

  pub page_fits : os.large_page ≤ 2 ^ 30
  page_fits = rw good.page_sized (pow-le-pow_right (omega arith) good.narrow)

  round_up_lem :
      (size : ℕ)
      → size < 2 ^ 58
      → round_up os.large_page size ≡ (size + (os.large_page - 1)) / os.large_page * os.large_page
  round_up_lem size lt =
      ap (λ p. round_up p size) good.page_sized
      ∙ round_up-pow k size good.narrow lt
      ∙ ap (λ p. (size + (p - 1)) / p * p) (sym good.page_sized)

  round_up-small : (size : ℕ) → size < 2 ^ 58 → round_up os.large_page size < 2 ^ 59
  round_up-small size lt = omega (
    arith,
    round_up_lem size lt,
    page_fits,
    div-add-mod (size + (os.large_page - 1)) os.large_page,
  )

  address-fits :
      (mul size : ℕ)
      → size < 2 ^ 59
      → address (os.virtual_alloc mul size) + size + os.large_page < 2 ^ 64
  address-fits mul size lt = elim (Option-cases (os.virtual_alloc mul size)) [
    | inl absent ↦ rw absent (omega (arith, page_fits))
    | inr (v, found) ↦ rw found (good.placed mul size v found)
  ]

  -- An attempt that does not fail is at least as large as was wanted.
  attempt-size :
      (wanted mul : ℕ) (live : List ℕ)
      → (attempt os wanted mul live).failed ≡ false
      → wanted ≤ (attempt os wanted mul live).size
  unfolding attempt
  attempt-size wanted mul live succeeded =
      let asked = mul64 mul (os.available mul) / 100 in
      let size = round_up os.large_page asked in
      let block = os.virtual_alloc mul size in
      let region = find_largest (os.translate mul) (address block) size os.large_page 0 in
      let asked_small : asked < 2 ^ 58 = omega arith in
      let (first, n, run, inside, _) =
        find_largest_lem (os.translate mul) (address block) size os.large_page 0 positive
          (address-fits mul size (round_up-small asked asked_small)) (omega (arith, page_fits))
          (λ i q. good.below mul (address block + i * os.large_page) q) in
      let pages = (asked + (os.large_page - 1)) / os.large_page in
      let whole : size ≡ pages * os.large_page = round_up_lem asked asked_small in
      let enough = pages-bound first n pages os.large_page (omega (arith, inside, whole)) in
      omega (
        arith,
        ltb→le region.size wanted succeeded,
        run.sized,
        whole,
        mul-le-mul_right os.large_page enough,
      )

-- `allocateLargePageMin` leaves one block more in use if it returns one, and none more otherwise.
pub allocate-live :
    (os : Os) (out : AllocationRequest) (live : List ℕ)
    → (allocate_large_page_min os out live).2
      ≡ acquire (allocate_large_page_min os out live).0.virtaddr live
unfolding allocate_large_page_min
allocate-live os out live =
    settled (attempts-Settled os out.size_in_bytes 75 5 live start refl refl)
  where
    start : Attempt
    start = record { block = none; size = 0; region = no_region; failed = true; live = live }

    settled :
        {a : Attempt}
        → Settled os out.size_in_bytes live a
        → a.live ≡ acquire (if a.failed then none else a.block) live
    settled {a} (inl (failed, same)) = rw failed same
    settled {a} (inr (succeeded, mul, e)) =
        let here = attempt os out.size_in_bytes mul live in
        rw succeeded (
          ap (λ b. b.live) e
          ∙ attempt-live os out.size_in_bytes mul live
          ∙ ap (λ b. if b then live else acquire here.block live)
              (ap (λ b. b.failed) (sym e) ∙ succeeded)
          ∙ ap (λ b. acquire b.block live) (sym e))

-- A block that `allocateLargePageMin` returns is at least as large as was asked for, and ends before
-- 2^64.
pub allocate-size :
    (k : ℕ) (os : Os) (out : AllocationRequest) (live : List ℕ)
    → IsOs k os
    → (v : ℕ) → (allocate_large_page_min os out live).0.virtaddr ≡ some v
    → (out.size_in_bytes ≤ (allocate_large_page_min os out live).0.size_in_bytes)
      × (v + (allocate_large_page_min os out live).0.size_in_bytes + os.large_page < 2 ^ 64)
unfolding allocate_large_page_min
allocate-size k os out live good v found =
    settled (attempts-Settled os out.size_in_bytes 75 5 live start refl refl) found
  where
    start : Attempt
    start = record { block = none; size = 0; region = no_region; failed = true; live = live }

    settled :
        {a : Attempt}
        → Settled os out.size_in_bytes live a
        → (if a.failed then none else a.block) ≡ some v
        → (out.size_in_bytes ≤ a.size) × (v + a.size + os.large_page < 2 ^ 64)
    settled {a} (inl (failed, _)) found' =
        absurd (clash (ap (λ b. if b then none else a.block) failed) found')
    settled {a} (inr (succeeded, mul, e)) found' =
        let there = ap (λ b. if b then none else a.block) (sym succeeded) ∙ found' in
        subst (λ b. (out.size_in_bytes ≤ b.size) × (v + b.size + os.large_page < 2 ^ 64)) (sym e)
          (
            attempt-size k os good out.size_in_bytes mul live
                (ap (λ b. b.failed) (sym e) ∙ succeeded),
            attempt-placed k os good out.size_in_bytes mul v live
                (ap (λ b. b.block) (sym e) ∙ there),
          )

pub allocate-page :
    (os : Os) (out : AllocationRequest) (live : List ℕ)
    → (allocate_large_page_min os out live).0.page_size ≡ os.large_page
unfolding allocate_large_page_min
allocate-page os out live = refl
