-- ===== src/Processors/Windows/Numbering.antt =====
-- The numbers that `ProcessCurrentConfiguration` of proc.cpp gives to the keys it meets: each key one
-- number, from 0 on without a gap.
use tailslayer_win.Common.{
  ℕ, suc, ◌+◌, ◌%◌, ◌^◌, ◌<◌, ◌≡◌, ◌⊎◌, inl, inr, refl, arith, [], Option, none, some, find?,
  assign, find?-assign, find?-assign_inv, sym, ap, ◌∙◌,
}
use tailslayer_win.Processors.Windows.{GroupPair, GroupPair-discrete, KeyMap, number_key}

abbrev pub number? : GroupPair → KeyMap → Option ℕ
number? key numbers = find? GroupPair-discrete key numbers

pub record IsNumbering (numbers : KeyMap) (next : ℕ) : Type 0 where
  pub below : (k : GroupPair) (n : ℕ) → number? k numbers ≡ some n → n < next
  pub onto : (n : ℕ) → n < next → (k : GroupPair) × (number? k numbers ≡ some n)
  pub one_key :
      (j k : GroupPair) (n : ℕ) → number? j numbers ≡ some n → number? k numbers ≡ some n → j ≡ k

pub start-IsNumbering : IsNumbering [] 0
start-IsNumbering = record {
  below = λ k n e. absurd (cc);
  onto = λ n lt. absurd (omega arith);
  one_key = λ j k n e f. absurd (cc);
}

pub number_key-new :
    (key : GroupPair) (numbers : KeyMap) (next : ℕ)
    → number? key numbers ≡ none
    → suc next < 2 ^ 32
    → number_key key numbers next ≡ (assign GroupPair-discrete key next numbers, suc next)
unfolding number_key
number_key-new key numbers next new few =
    let fits : (next + 1) % 2 ^ 32 ≡ suc next = omega arith in rw (new, fits) refl

pub number_key-old :
    (key : GroupPair) (numbers : KeyMap) (next n : ℕ)
    → number? key numbers ≡ some n
    → number_key key numbers next ≡ (numbers, next)
unfolding number_key
number_key-old key numbers next n old = rw old refl

abbrev pub extended : GroupPair → KeyMap → ℕ → KeyMap
extended key numbers next = assign GroupPair-discrete key next numbers

module _ (key : GroupPair) (numbers : KeyMap) (next : ℕ) (h : IsNumbering numbers next)
    (new : number? key numbers ≡ none) where
  pub extended_self : number? key (extended key numbers next) ≡ some next
  extended_self = ground (arith, find?-assign GroupPair-discrete key key next numbers)

  pub extended_keeps :
      (k : GroupPair) (n : ℕ)
      → number? k numbers ≡ some n
      → number? k (extended key numbers next) ≡ some n
  extended_keeps k n e = ground (arith, find?-assign GroupPair-discrete key k next numbers)

  -- An entry of the map with the new key.
  pub extended_inv :
      (k : GroupPair) (n : ℕ)
      → number? k (extended key numbers next) ≡ some n
      → ((key ≡ k) × (n ≡ next)) ⊎ (number? k numbers ≡ some n)
  extended_inv k n e = elim (find?-assign_inv GroupPair-discrete key k next n numbers e) [
    | inl (same, last) ↦ inl (same, sym last)
    | inr (other, before) ↦ inr before
  ]

  extended_one_key :
      (j k : GroupPair) (n : ℕ)
      → number? j (extended key numbers next) ≡ some n
      → number? k (extended key numbers next) ≡ some n
      → j ≡ k
  extended_one_key j k n e f = elim (extended_inv j n e) [
    | inl (a, at) ↦ elim (extended_inv k n f) [
      | inl (b, _) ↦ sym a ∙ b
      | inr before ↦ absurd (omega (arith, h.below k n before))
    ]
    | inr before ↦ elim (extended_inv k n f) [
      | inl (b, at) ↦ absurd (omega (arith, h.below j n before))
      | inr there ↦ h.one_key j k n before there
    ]
  ]

  pub extended-IsNumbering : IsNumbering (extended key numbers next) (suc next)
  extended-IsNumbering = record {
    below = λ k n e. elim (extended_inv k n e) [
      | inl (_, at) ↦ omega arith
      | inr before ↦ omega (arith, h.below k n before)
    ];
    onto = λ n lt. elim (native.Mathlib.Decide.ℕ_discrete n next) [
      | yes last ↦ (key, extended_self ∙ ap some (sym last))
      | no earlier ↦ let (k, e) = h.onto n (omega arith) in (k, extended_keeps k n e)
    ];
    one_key = extended_one_key;
  }
