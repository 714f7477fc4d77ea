-- ===== src/Processors/Linux/Tests.antt =====
-- Two processors of one core of package 1, of which the process may use the first, and the same
-- machine without the files of the second.
use tailslayer_win.Common.{
  ℕ, zero, suc, ◌-◌, ◌^◌, ◌<◌, ◌≡◌, refl, arith, Bool, true, false, ◌==◌, List, [], ◌∷◌, ◌++◌,
  Option, none, some, length, get_or,
}
use tailslayer_win.Processors.{Configuration, no_processor}
use tailslayer_win.Processors.Sysfs.{
  read_digits, read_signed, strtoll, clamp_positive, clamp_negative, read_sysfs_int,
}
use tailslayer_win.Processors.Sysfs.Decimal.{decimal}
use tailslayer_win.Processors.Linux.{System, cpu_isset, unreadable, initialize_configuration}
use tailslayer_win.Processors.Linux.Topology.{
  IsTopology, initialize_configuration-reads, initialize_configuration-partial,
}

abbrev first_only : ℕ → Bool
first_only i = i == 0

abbrev pair : System
pair = record {
  processors = some 2;
  allowed = some first_only;
  core_file = λ i. some (decimal 18 3 ++ b'\n' ∷ []);
  package_file = λ i. some (decimal 18 1 ++ b'\n' ∷ []);
}

pair-IsTopology : IsTopology pair 2 first_only (λ i. 3) (λ i. 1)
pair-IsTopology = record {
  configured = refl;
  affinity = refl;
  core_printed = λ i lt. refl;
  package_printed = λ i lt. refl;
  core_fits = λ i lt. omega arith;
  package_fits = λ i lt. omega arith;
}

abbrev empty : Configuration
empty = record { proc = []; thread_count = 0; physical_core_count = 0; core_package_count = 0 }

minus_twelve : read_sysfs_int (some (b' ' ∷ b'-' ∷ b'1' ∷ b'2' ∷ b'x' ∷ [])) ≡ 2 ^ 64 - 12
unfolding read_sysfs_int strtoll read_signed read_digits clamp_negative
minus_twelve = refl

no_number : read_sysfs_int (some (b'-' ∷ b'x' ∷ [])) ≡ 2 ^ 64 - 1
unfolding read_sysfs_int strtoll read_signed read_digits
no_number = refl

initialize_configuration-reads_example :
    (c : Configuration) × (initialize_configuration pair empty ≡ (c, true))
    × (length c.proc ≡ 2)
    × ((i : ℕ)
        → i < 2
        → let lp = get_or c.proc i no_processor in
          (lp.global_id ≡ i)
          × (lp.core_id ≡ 3)
          × (lp.pkg_id ≡ 1)
          × (lp.usable ≡ cpu_isset first_only i))
initialize_configuration-reads_example =
    initialize_configuration-reads pair 2 first_only (λ i. 3) (λ i. 1) empty no_processor
      pair-IsTopology

abbrev file_of_first : ℕ → Option (List ℕ)
file_of_first zero = some (b'3' ∷ b'\n' ∷ [])
file_of_first (suc i) = none

abbrev half : System
half = record pair { core_file = file_of_first; package_file = file_of_first }

first_there : (j : ℕ) → j < 1 → unreadable half j ≡ false
unfolding unreadable read_sysfs_int strtoll read_signed read_digits clamp_positive
first_there zero lt = refl
first_there (suc j) lt = absurd (omega arith)

second_missing : unreadable half 1 ≡ true
unfolding unreadable read_sysfs_int
second_missing = refl

half_read :
    (c : Configuration) × (initialize_configuration half empty ≡ (c, false)) × (length c.proc ≡ 1)
half_read =
    initialize_configuration-partial half 1 0 first_only empty refl refl first_there second_missing
