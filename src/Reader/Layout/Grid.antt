-- ===== src/Reader/Layout/Grid.antt =====
-- Arithmetic of slots of `size` bytes in chunks of `p` slots, without the program.
use native.Mathlib.Nat.{
  mul-le-mul_left, mul-le-mul_right, div-lt_iff_lt-mul, div-mul-le_self, div-zero, zero-mul,
  div-eq_of_lt-le, mul-add-mod_self_right, mod-eq_of_lt,
}
use native.Mathlib.Decide.{dec_lt}
use tailslayer_win.Common.{ℕ, ◌+◌, ◌*◌, ◌/◌, ◌%◌, ◌≤◌, ◌<◌, ◌≡◌, ◌≢◌, ◌⊎◌, inl, inr, ap, arith}

-- A slot ends within its chunk.
pub slot_end : (size p d s : ℕ) → s < p → d * (size * p) + size * s + size ≤ (d + 1) * (size * p)
slot_end size p d s h = omega (arith, mul-le-mul_left size h)

pub slots_of_chunks :
    (size p d e s t : ℕ)
    → s < p
    → d < e
    → d * (size * p) + size * s + size ≤ e * (size * p) + size * t
slots_of_chunks size p d e s t hs hd =
    omega (arith, slot_end size p d s hs, mul-le-mul_right (size * p) hd)

pub slots_in_chunk : (size s t : ℕ) → s < t → size * s + size ≤ size * t
slots_in_chunk size s t h = omega (arith, mul-le-mul_left size h)

-- A remainder below the modulus, and the quotient before it, are found again in the sum.
pub digits_unique :
    (num q q' i i' : ℕ) → i < num → i' < num → q * num + i ≡ q' * num + i' → (q ≡ q') × (i ≡ i')
digits_unique num q q' i i' h h' e = elim (dec_lt q q') [
  | yes p ↦ absurd (omega (arith, mul-le-mul_right num p))
  | no p ↦ elim (dec_lt q' q) [
    | yes r ↦ absurd (omega (arith, mul-le-mul_right num r))
    | no r ↦ let same : q ≡ q' = omega arith in (same, omega (arith, ap (λ k. k * num) same))
  ]
]

pub quotient_lt : (l m p : ℕ) → 0 < p → l < m * p → l / p < m
quotient_lt l m p hp h = (div-lt_iff_lt-mul hp).1 h

-- The slots of `m` strides of `num` chunks, of `page` bytes, end inside the page.
pub strides_fit :
    (page num chunk m q i : ℕ)
    → m ≡ page / (num * chunk)
    → q < m
    → i < num
    → (q * num + i + 1) * chunk ≤ page
strides_fit page num chunk m q i e hq hi = omega (
  arith,
  mul-le-mul_right (num * chunk) hq,
  mul-le-mul_right chunk hi,
  div-mul-le_self page (num * chunk),
  ap (λ k. k * (num * chunk)) e,
)

-- Slots at different places do not overlap.
pub slots_apart :
    (size p d e s t : ℕ)
    → s < p
    → t < p
    → (d ≢ e) ⊎ (s ≢ t)
    → (d * (size * p) + size * s + size ≤ e * (size * p) + size * t)
      ⊎ (e * (size * p) + size * t + size ≤ d * (size * p) + size * s)
slots_apart size p d e s t hs ht h = elim (dec_lt d e) [
  | yes lt ↦ inl (slots_of_chunks size p d e s t hs lt)
  | no ge ↦ elim (dec_lt e d) [
    | yes gt ↦ inr (slots_of_chunks size p e d t s ht gt)
    | no le ↦
        omega (arith, ap (λ c. c * (size * p)) (let same : d ≡ e = omega arith in same), within)
  ]
]
  where
    within : s ≢ t → (size * s + size ≤ size * t) ⊎ (size * t + size ≤ size * s)
    within ne = elim (dec_lt s t) [
      | yes lt ↦ inl (slots_in_chunk size s t lt)
      | no ge ↦ inr (slots_in_chunk size t s (omega arith))
    ]

-- The strides of a page have no more slots than the page has bytes.
pub capacity_fits : (page num size p : ℕ) → 0 < size → page / (num * (size * p)) * p ≤ page
capacity_fits page num size p h = elim (dec_lt 0 num) [
  | yes some_channel ↦ omega (
    arith,
    div-mul-le_self page (num * (size * p)),
    mul-le-mul_left (page / (num * (size * p))) (
        let chunk : p ≤ num * (size * p) =
          omega (arith, mul-le-mul_right (size * p) some_channel, mul-le-mul_right p h) in
        chunk),
  )
  | no none ↦
      let zero_channels : num ≡ 0 = omega arith in
      rw (zero_channels, zero-mul, div-zero) (omega arith)
]

-- The chunk of a place in a chunk.
pub chunk_of : (size p d s : ℕ) → 0 < size → s < p → (d * (size * p) + size * s) / (size * p) ≡ d
chunk_of size p d s hs h =
    div-eq_of_lt-le {k = d} (size * p) (omega arith) (omega (arith, slot_end size p d s h))

pub residue_of : (num d i : ℕ) → i < num → (d * num + i) % num ≡ i
residue_of num d i h = rw (mul-add-mod_self_right d num i) (mod-eq_of_lt h)
