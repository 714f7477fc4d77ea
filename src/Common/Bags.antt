-- ===== src/Common/Bags.antt =====
-- How often a number occurs in a list, and why two lists of one length agree on that if one never
-- exceeds the other.
use Prim.Native.Nat.{ℕ, suc, ◌+◌, ◌≤◌, ◌<◌}
use native.Mathlib.Omega.{arith}
use native.Mathlib.Decide.{ℕ_discrete}
use mathlib.Core.Path.{◌≡◌, refl}
use mathlib.Core.Logic.{ite, ◌≢◌}
use mathlib.Core.List.{List, [], ◌∷◌, ◌++◌}
use tailslayer_win.Common.Lists.{length}

-- 1 at the number itself, 0 elsewhere.
abbrev pub one_at : ℕ → ℕ → ℕ
one_at x i = ite (ℕ_discrete x i) 1 0

abbrev pub count : ℕ → List ℕ → ℕ
count i [] = 0
count i (x ∷ xs) = one_at x i + count i xs

pub one_at_self : (x : ℕ) → one_at x x ≡ 1
one_at_self x = ground arith

pub one_at_ne : (x i : ℕ) → x ≢ i → one_at x i ≡ 0
one_at_ne x i h = ground arith

pub one_at-le-one : (x i : ℕ) → one_at x i ≤ 1
one_at-le-one x i = ground arith

pub count-append : (i : ℕ) (xs ys : List ℕ) → count i (xs ++ ys) ≡ count i xs + count i ys
count-append i [] ys = omega arith
count-append i (x ∷ xs) ys = omega (arith, count-append i xs ys)

pub count-le-length : (i : ℕ) (xs : List ℕ) → count i xs ≤ length xs
count-le-length i [] = omega arith
count-le-length i (x ∷ xs) = ground (arith, count-le-length i xs)

-- One occurrence less.
abbrev remove : ℕ → List ℕ → List ℕ
remove x [] = []
remove x (y ∷ ys) = ite (ℕ_discrete y x) ys (y ∷ remove x ys)

count-remove :
    (x i : ℕ) (ys : List ℕ) → 0 < count x ys → count i ys ≡ one_at x i + count i (remove x ys)
count-remove x i [] h = absurd (omega arith)
count-remove x i (y ∷ ys) h = ground (arith, count-remove x i ys)

length-remove : (x : ℕ) (ys : List ℕ) → 0 < count x ys → length ys ≡ suc (length (remove x ys))
length-remove x [] h = absurd (omega arith)
length-remove x (y ∷ ys) h = ground (arith, length-remove x ys)

pub length-le_of_counts :
    (xs ys : List ℕ) → ((i : ℕ) → count i xs ≤ count i ys) → length xs ≤ length ys
length-le_of_counts [] ys h = omega arith
length-le_of_counts (x ∷ xs) ys h =
    let present : 0 < count x ys = omega (arith, h x, one_at_self x) in
    omega (
      arith,
      length-remove x ys present,
      length-le_of_counts xs (remove x ys) (λ i. omega (arith, h i, count-remove x i ys present)),
    )

pub counts-eq_of_length :
    (xs ys : List ℕ)
    → ((i : ℕ) → count i xs ≤ count i ys)
    → length xs ≡ length ys
    → (i : ℕ) → count i xs ≡ count i ys
counts-eq_of_length [] [] h e i = refl
counts-eq_of_length [] (y ∷ ys) h e i = absurd (omega arith)
counts-eq_of_length (x ∷ xs) ys h e i =
    let present : 0 < count x ys = omega (arith, h x, one_at_self x) in
    omega (
      arith,
      count-remove x i ys present,
      counts-eq_of_length xs (remove x ys) (λ j. omega (arith, h j, count-remove x j ys present))
          (omega (arith, length-remove x ys present)) i,
    )
