-- ===== src/Processors/Sysfs/Decimal.antt =====
-- `readSysfsInt` of proc.cpp reads the numbers that the kernel prints.
use native.Mathlib.Nat.{pow-suc}
use tailslayer_win.Common.{
  take, ℕ, zero, suc, ◌+◌, ◌-◌, ◌*◌, ◌/◌, ◌%◌, ◌^◌, ◌≤◌, ◌<◌, ◌≡◌, inl, inr, refl, sym, ap, ◌∙◌,
  arith, Bool, true, false, if◌then◌else◌, ◌==◌, ltb, lt→ltb, ltb→lt, Bool-cases, List, [], ◌∷◌,
  ◌++◌, append_assoc, some, length, length-append,
}
use tailslayer_win.Processors.Sysfs.{
  is_space, is_digit, read_digits, clamp_positive, converted, read_signed, strtoll, minus_one_or,
  read_sysfs_int,
}

-- The decimal digits of a number, in at most `places` places.
pub decimal : ℕ → ℕ → List ℕ
decimal zero n = []
decimal (suc places) n =
    let high = decimal places (n / 10) in
    if ltb n 10 then (48 + n) ∷ [] else high ++ (48 + n % 10) ∷ []

-- A text in which the number ends.
abbrev Ends : List ℕ → Type 0
Ends [] = Unit {0}
Ends (c ∷ text) = is_digit c ≡ false

read_digit :
    (value d : ℕ) (any : Bool) (text : List ℕ)
    → d < 10
    → read_digits value any ((48 + d) ∷ text) ≡ read_digits (value * 10 + d) true text
unfolding read_digits
read_digit value d any text lt =
    let digit : is_digit (48 + d) ≡ true = ground arith in
    let same : 48 + d - 48 ≡ d = omega arith in
    rw digit (ap (λ n. read_digits (value * 10 + n) true text) same)

read_digits-decimal :
    (places n : ℕ) (text : List ℕ)
    → n < 10 ^ suc places
    → read_digits 0 false (decimal (suc places) n ++ text) ≡ read_digits n true text
unfolding decimal
read_digits-decimal zero n text lt =
    let small = lt→ltb n 10 (omega arith) in
    rw small
      (read_digit 0 n false text (omega arith) ∙ ap (λ m. read_digits m true text) (omega arith))
read_digits-decimal (suc places) n text lt = elim (Bool-cases (ltb n 10)) [
  | inl small ↦ rw small (
      read_digit 0 n false text (ltb→lt n 10 small)
      ∙ ap (λ m. read_digits m true text) (omega arith))
  | inr large ↦
      let less : n / 10 < 10 ^ suc places = omega (arith, pow-suc 10 (suc places)) in
      let rest = read_digits-decimal places (n / 10) ((48 + n % 10) ∷ text) less in
      let sum : n / 10 * 10 + n % 10 ≡ n = omega arith in
      rw (large, append_assoc)
        (rest
          ∙ read_digit (n / 10) (n % 10) true text (omega arith)
          ∙ ap (λ m. read_digits m true text) sum)
]

read_digits_end : (n : ℕ) (text : List ℕ) → Ends text → read_digits n true text ≡ some n
unfolding read_digits
read_digits_end n [] ends = refl
read_digits_end n (c ∷ text) ends = rw ends refl

decimal-head :
    (places n : ℕ)
    → (d : ℕ) × (rest : List ℕ) × (d < 10) × (decimal (suc places) n ≡ (48 + d) ∷ rest)
unfolding decimal
decimal-head zero n = elim (Bool-cases (ltb n 10)) [
  | inl small ↦ (n, [], ltb→lt n 10 small, rw small refl)
  | inr large ↦ (n % 10, [], omega arith, rw large refl)
]
decimal-head (suc places) n = elim (Bool-cases (ltb n 10)) [
  | inl small ↦ (n, [], ltb→lt n 10 small, rw small refl)
  | inr large ↦
      let (d, rest, lt, e) = decimal-head places (n / 10) in
      (d, rest ++ (48 + n % 10) ∷ [], lt, rw large (ap (λ high. high ++ (48 + n % 10) ∷ []) e))
]

length-decimal : (places n : ℕ) → length (decimal places n) ≤ places
unfolding decimal
length-decimal zero n = omega arith
length-decimal (suc places) n = elim (Bool-cases (ltb n 10)) [
  | inl small ↦ rw small (omega arith)
  | inr large ↦ rw large (
      omega (
        arith,
        length-append (decimal places (n / 10)) ((48 + n % 10) ∷ []),
        length-decimal places (n / 10),
      ))
]

take_whole : (n : ℕ) (text : List ℕ) → length text ≤ n → take n text ≡ text
take_whole zero [] le = refl
take_whole zero (c ∷ text) le = absurd (omega arith)
take_whole (suc n) [] le = refl
take_whole (suc n) (c ∷ text) le = ap (◌∷◌ c) (take_whole n text (omega arith))

-- A text that starts with a digit is read as a positive number.
strtoll-digit :
    (d : ℕ) (text : List ℕ)
    → d < 10
    → strtoll ((48 + d) ∷ text) ≡ converted clamp_positive (read_digits 0 false ((48 + d) ∷ text))
unfolding strtoll read_signed
strtoll-digit d text lt =
    let blank : is_space (48 + d) ≡ false = ground arith in
    let minus : ((48 + d) == b'-') ≡ false = ground arith in
    let plus : ((48 + d) == b'+') ≡ false = ground arith in rw (blank, minus, plus) refl

strtoll-decimal :
    (places n : ℕ) (text : List ℕ)
    → n < 10 ^ suc places
    → Ends text
    → strtoll (decimal (suc places) n ++ text) ≡ some (clamp_positive n)
strtoll-decimal places n text lt ends =
    let (d, rest, small, e) = decimal-head places n in
    let first = strtoll-digit d (rest ++ text) small in
    ap (λ xs. strtoll (xs ++ text)) e
    ∙ first
    ∙ ap (λ xs. converted clamp_positive (read_digits 0 false (xs ++ text))) (sym e)
    ∙ ap (converted clamp_positive)
        (read_digits-decimal places n text lt ∙ read_digits_end n text ends)

in_range : (n : ℕ) → n < 10 ^ 18 → clamp_positive n ≡ n
unfolding clamp_positive
in_range n lt = rw (lt→ltb n (2 ^ 63) (omega arith)) refl

-- A number below 10^18 that the file has in decimal, with a newline after it, is read back.
pub read_sysfs_int-decimal :
    (n : ℕ) → n < 10 ^ 18 → read_sysfs_int (some (decimal 18 n ++ b'\n' ∷ [])) ≡ n
unfolding read_sysfs_int
read_sysfs_int-decimal n lt =
    let short =
      take_whole 31 (decimal 18 n ++ b'\n' ∷ [])
        (omega (arith, length-append (decimal 18 n) (b'\n' ∷ []), length-decimal 18 n)) in
    ap (λ text. minus_one_or (strtoll text)) short
    ∙ ap minus_one_or (strtoll-decimal 17 n (b'\n' ∷ []) lt refl)
    ∙ in_range n lt
