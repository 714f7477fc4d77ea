-- ===== src/Processors/Sysfs.antt =====
-- `readSysfsInt` of tailslayer/source/proc.cpp: a number in a file of /sys. What `open` and `read` give
-- is the file's text, as far as it is read, or nothing when one of them fails. An `int64_t` is its
-- word, so -1 is `UINT64_MAX`; `strtoll` is that of the C library.
pub mod Decimal
use tailslayer_win.Common.{
  ℕ, zero, suc, ◌+◌, ◌-◌, ◌*◌, ◌/◌, ◌%◌, ◌^◌, ◌≡◌, Bool, true, false, if◌then◌else◌, ◌==◌, ltb, leb,
  List, [], ◌∷◌, Option, none, some, max64, take,
}

abbrev pub is_space : ℕ → Bool
is_space c = if c == 32 then true else if ltb c 9 then false else leb c 13

abbrev pub is_digit : ℕ → Bool
is_digit c = if ltb c 48 then false else leb c 57

-- The value of the digits in front, and whether there is one.
unfoldable pub read_digits : ℕ → Bool → List ℕ → Option ℕ
read_digits value any [] = if any then some value else none
read_digits value any (c ∷ text) =
    let rest = read_digits (value * 10 + (c - 48)) true text in
    if is_digit c then rest else if any then some value else none

-- Past the range of an `int64_t` the value is the nearest end of it.
unfoldable pub clamp_positive : ℕ → ℕ
clamp_positive n = if ltb n (2 ^ 63) then n else 2 ^ 63 - 1

unfoldable pub clamp_negative : ℕ → ℕ
clamp_negative n = if leb n (2 ^ 63) then (2 ^ 64 - n) % 2 ^ 64 else 2 ^ 63

-- No digit is no conversion.
abbrev pub converted : (ℕ → ℕ) → Option ℕ → Option ℕ
converted clamp none = none
converted clamp (some n) = some (clamp n)

unfoldable pub read_signed : List ℕ → Option ℕ
read_signed [] = none
read_signed (c ∷ text) =
    if c == b'-'
    then converted clamp_negative (read_digits 0 false text)
    else if c == b'+'
    then converted clamp_positive (read_digits 0 false text)
    else converted clamp_positive (read_digits 0 false (c ∷ text))

unfoldable pub strtoll : List ℕ → Option ℕ
strtoll [] = none
strtoll (c ∷ text) = let rest = strtoll text in if is_space c then rest else read_signed (c ∷ text)

-- No text to read, or no number in it, is -1. The C string ends at a zero byte, which is no digit.
abbrev pub minus_one_or : Option ℕ → ℕ
minus_one_or none = max64
minus_one_or (some n) = n

unfoldable pub read_sysfs_int : Option (List ℕ) → ℕ
read_sysfs_int none = max64
read_sysfs_int (some text) = minus_one_or (strtoll (take 31 text))
