-- ===== src/Platform/LargePages/Most.antt =====
-- What `allocateLargePageMax` of utilities.hpp allocates, and what it leaves behind.
use native.Mathlib.Decide.{ℕ_discrete}
use tailslayer_win.Common.{
  ℕ, zero, suc, ◌*◌, ◌/◌, ◌%◌, ◌^◌, ◌<◌, ◌≡◌, inl, inr, refl, sym, ap, ◌∙◌, arith, Bool, true,
  false, if◌then◌else◌, leb, Bool-cases, Option, none, some, List, [], ◌∷◌, ◌++◌, subst,
}
use tailslayer_win.Platform.Allocation.{AllocationRequest, acquire, release, round_up}
use tailslayer_win.Platform.LargePages.{
  Allocator, Result, huge_page, has_block, try_multiplier, try_multipliers, allocate_by_multiplier,
  after_virtual_alloc2, allocate_large_page_max,
}

-- The size of the attempt with a multiplier, in hundredths of the memory that is available, and what
-- `VirtualAlloc` says to it.
abbrev pub attempt_size : Allocator → ℕ → ℕ
attempt_size os mul = round_up os.large_page (mul * os.available mul % 2 ^ 64 / 100)

abbrev pub answer : Allocator → ℕ → Option ℕ
answer os mul = os.virtual_alloc mul (attempt_size os mul)

-- The multipliers 5, 10, …, `5 left`: the result of the largest that `VirtualAlloc` grants a block
-- for, which has the block and the size of that attempt; or no block.
abbrev pub IsLargest : Allocator → ℕ → Option ℕ → ℕ → Type 0
IsLargest os left none size = (d : ℕ) → d < left → answer os (5 * suc d) ≡ none
IsLargest os left (some v) size =
    (d : ℕ) × (d < left)
    × (answer os (5 * suc d) ≡ some v)
    × (size ≡ attempt_size os (5 * suc d))
    × ((e : ℕ) → d < e → e < left → answer os (5 * suc e) ≡ none)

try_multiplier-answer :
    (os : Allocator) (mul : ℕ)
    → try_multiplier os mul ≡ record { block = answer os mul; size = attempt_size os mul }
unfolding try_multiplier
try_multiplier-answer os mul = refl

try_multipliers-zero : (os : Allocator) (last : Result) → try_multipliers os zero last ≡ last
unfolding try_multipliers
try_multipliers-zero os last = refl

try_multipliers-stop :
    (os : Allocator) (left : ℕ) (last : Result)
    → has_block last.block ≡ true
    → try_multipliers os left last ≡ last
unfolding try_multipliers
try_multipliers-stop os zero last e = refl
try_multipliers-stop os (suc left) last e = rw e refl

try_multipliers-step :
    (os : Allocator) (left : ℕ) (last : Result)
    → has_block last.block ≡ false
    → try_multipliers os (suc left) last
      ≡ try_multipliers os left (try_multiplier os (5 * suc left))
unfolding try_multipliers
try_multipliers-step os left last e = rw e refl

extend_none :
    (os : Allocator) (left : ℕ) (o : Option ℕ) (size : ℕ)
    → answer os (5 * suc left) ≡ none
    → IsLargest os left o size
    → IsLargest os (suc left) o size
extend_none os left none size e h = λ d lt. elim (ℕ_discrete d left) [
  | yes last ↦ ap (λ k. answer os (5 * suc k)) last ∙ e
  | no before ↦ h d (omega arith)
]
extend_none os left (some v) size e (d, lt, found, sized, above) = (
  d,
  omega arith,
  found,
  sized,
  λ k gt in_range. elim (ℕ_discrete k left) [
    | yes last ↦ ap (λ k. answer os (5 * suc k)) last ∙ e
    | no before ↦ above k gt (omega arith)
  ],
)

no_block : (o : Option ℕ) → has_block o ≡ false → o ≡ none
no_block none e = refl
no_block (some v) e = absurd (cc)

granted_last :
    (os : Allocator) (left : ℕ) (o : Option ℕ)
    → answer os (5 * suc left) ≡ o
    → has_block o ≡ true
    → IsLargest os (suc left) o (attempt_size os (5 * suc left))
granted_last os left none e there = absurd (cc)
granted_last os left (some v) e there =
    (left, omega arith, e, refl, λ k gt in_range. absurd (omega arith))

-- What a result is to be.
abbrev IsGood : Allocator → ℕ → Result → Type 0
IsGood os left r = IsLargest os left r.block r.size

try_multipliers-IsLargest :
    (os : Allocator) (left : ℕ) (last : Result)
    → has_block last.block ≡ false
    → IsGood os left (try_multipliers os left last)
try_multipliers-IsLargest os zero last e =
    subst (IsGood os 0) (sym (try_multipliers-zero os last)) (
      subst (λ o. IsLargest os 0 o last.size) (sym (no_block last.block e))
        (λ d lt. absurd (omega arith)))
try_multipliers-IsLargest os (suc left) last e =
    let mul = 5 * suc left in
    let this : Result = record { block = answer os mul; size = attempt_size os mul } in
    let step =
      try_multipliers-step os left last e
      ∙ ap (try_multipliers os left) (try_multiplier-answer os mul) in
    elim (Bool-cases (has_block this.block)) [
      | inl granted ↦
          subst (IsGood os (suc left)) (sym (step ∙ try_multipliers-stop os left this granted))
            (granted_last os left this.block refl granted)
      | inr refused ↦
          let rest = try_multipliers os left this in
          subst (IsGood os (suc left)) (sym step) (
            extend_none os left rest.block rest.size (no_block this.block refused)
              (try_multipliers-IsLargest os left this refused))
    ]

-- The block of `VirtualAlloc2` that was too small.
abbrev pub left_behind : Option ℕ → Bool → List ℕ
left_behind none enough = []
left_behind (some v) enough = if enough then [] else v ∷ []

after_virtual_alloc2-leaks :
    (os : Allocator) (o : Option ℕ) (size desired : ℕ) (out : AllocationRequest) (live : List ℕ)
    → out.virtaddr ≡ none
    → (after_virtual_alloc2 os o size desired out live).1
      ≡ acquire
          (after_virtual_alloc2 os o size desired out live).0.virtaddr
          (left_behind o (leb desired size) ++ live)
unfolding after_virtual_alloc2 allocate_by_multiplier
after_virtual_alloc2-leaks os none size desired out live fresh = refl
after_virtual_alloc2-leaks os (some v) size desired out live fresh =
    elim (Bool-cases (leb desired size)) [
      | inl enough ↦ rw enough refl
      | inr small ↦ rw small (
          ap
            (λ o.
              acquire (try_multipliers os 17 (record { block = none; size = size })).block
                (release o (v ∷ live)))
            fresh)
    ]

-- For a request without a block: the blocks in use afterwards are those that were in use before, the
-- block of the result, and the block of `VirtualAlloc2` if that is smaller than what was asked for,
-- which nothing gives back.
pub allocate_large_page_max-leaks :
    (os : Allocator) (out : AllocationRequest) (live : List ℕ)
    → out.virtaddr ≡ none
    → let size = round_up huge_page (os.four_fifths (os.available 0)) in
      let enough = leb (round_up huge_page out.size_in_bytes) size in
      let (result, live') = allocate_large_page_max os out live in
      live' ≡ acquire result.virtaddr (left_behind (os.virtual_alloc2 size) enough ++ live)
unfolding allocate_large_page_max
allocate_large_page_max-leaks os out live fresh =
    let size = round_up huge_page (os.four_fifths (os.available 0)) in
    after_virtual_alloc2-leaks os (os.virtual_alloc2 size) size
      (round_up huge_page out.size_in_bytes) out live fresh

after_none :
    (os : Allocator) (size desired : ℕ) (out : AllocationRequest) (live : List ℕ)
    → after_virtual_alloc2 os none size desired out live ≡ allocate_by_multiplier os size out live
unfolding after_virtual_alloc2
after_none os size desired out live = refl

-- What is promised of the result when `VirtualAlloc2` grants nothing.
abbrev pub IsBest : Allocator → AllocationRequest → Type 0
IsBest os result = IsLargest os 17 result.virtaddr result.size_in_bytes

allocate_by_multiplier-IsBest :
    (os : Allocator) (size : ℕ) (out : AllocationRequest) (live : List ℕ)
    → IsBest os (allocate_by_multiplier os size out live).0
unfolding allocate_by_multiplier
allocate_by_multiplier-IsBest os size out live =
    try_multipliers-IsLargest os 17 (record { block = none; size = size }) refl

-- When `VirtualAlloc2` grants no block, the result has the block that `VirtualAlloc` grants for the
-- largest of the multipliers 85, 80, …, 5 that it grants one for, and the size of that same attempt,
-- that many hundredths of the memory available, rounded up to large pages, whether or not this is as
-- large as what was asked for; and it is without a block if all 17 attempts are refused.
pub allocate_large_page_max-IsBest :
    (os : Allocator) (out : AllocationRequest) (live : List ℕ)
    → os.virtual_alloc2 (round_up huge_page (os.four_fifths (os.available 0))) ≡ none
    → IsBest os (allocate_large_page_max os out live).0
unfolding allocate_large_page_max
allocate_large_page_max-IsBest os out live refused =
    let size = round_up huge_page (os.four_fifths (os.available 0)) in
    let desired = round_up huge_page out.size_in_bytes in
    subst (λ r. IsBest os r.0)
      (sym (
        ap (λ o. after_virtual_alloc2 os o size desired out live) refused
        ∙ after_none os size desired out live))
      (allocate_by_multiplier-IsBest os size out live)
