-- ===== src/Processors/Linux.antt =====
-- tailslayer/source/proc.cpp on Linux: the processors of the machine, as `ProcessCurrentConfiguration`
-- reads them from the topology files of /sys. A `cpu_set_t` is the mask of its 1024 bits, in group 0.
pub mod Topology
mod Tests
use tailslayer_win.Common.{
  ℕ, zero, suc, ◌+◌, ◌-◌, ◌%◌, ◌^◌, ◌≡◌, Bool, true, false, if◌then◌else◌, ◌==◌, ltb, List, [], ◌∷◌,
  ◌++◌, Option, none, some, max64,
}
use tailslayer_win.Processors.{LogicalProcessor, Configuration}
use tailslayer_win.Processors.Sysfs.{read_sysfs_int}

-- What the system answers: `sysconf(_SC_NPROCESSORS_CONF)` where it is positive, the set of
-- `sched_getaffinity`, and the two files of each processor.
pub record System : Type 0 where
  pub processors : Option ℕ
  pub allowed : Option (ℕ → Bool)
  pub core_file : ℕ → Option (List ℕ)
  pub package_file : ℕ → Option (List ℕ)

-- `CPU_SET` and `CPU_ISSET`, for a processor that the set has no bit for too.
unfoldable pub cpu_set : ℕ → ℕ
cpu_set i = if ltb i 1024 then 2 ^ i else 0

unfoldable pub cpu_isset : (ℕ → Bool) → ℕ → ℕ
cpu_isset allowed i = if ltb i 1024 then (if allowed i then 1 else 0) else 0

abbrev pub entry : System → (ℕ → Bool) → ℕ → LogicalProcessor
entry os allowed i = record {
  global_id = i;
  core_id = read_sysfs_int (os.core_file i) % 2 ^ 32;
  pkg_id = read_sysfs_int (os.package_file i) % 2 ^ 16;
  usable = cpu_isset allowed i;
  affinity_mask = record { group = 0; mask = cpu_set i };
}

unfoldable pub unreadable : System → ℕ → Bool
unreadable os i =
    if read_sysfs_int (os.core_file i) == max64
    then true
    else read_sysfs_int (os.package_file i) == max64

-- The loop, from processor `i` on: it returns at the first file that it cannot read.
unfoldable pub read_processors :
    System → (ℕ → Bool) → ℕ → ℕ → List LogicalProcessor → List LogicalProcessor × Bool
read_processors os allowed zero i proc = (proc, true)
read_processors os allowed (suc left) i proc =
    let rest = read_processors os allowed left (suc i) (proc ++ entry os allowed i ∷ []) in
    if unreadable os i then (proc, false) else rest

abbrev pub with_proc : Configuration → List LogicalProcessor × Bool → Configuration × Bool
with_proc c (proc, good) = (record c { proc = proc }, good)

abbrev pub read_machine :
    System → Option ℕ → Option (ℕ → Bool) → Configuration → Configuration × Bool
read_machine os none allowed c = (c, false)
read_machine os (some n) none c = (c, false)
read_machine os (some n) (some allowed) c = with_proc c (read_processors os allowed n 0 c.proc)

unfoldable pub process_current_configuration : System → Configuration → Configuration × Bool
process_current_configuration os c = read_machine os os.processors os.allowed c

-- `ProcessorConfigurationVector::initialize`.
unfoldable pub initialize_configuration : System → Configuration → Configuration × Bool
initialize_configuration os c = process_current_configuration os (record c { proc = [] })
