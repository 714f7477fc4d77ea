-- ===== src/Processors/Windows.antt =====
-- tailslayer/source/proc.cpp on Windows, with `GroupPair` of proc.hpp: the processors of the machine,
-- as `ProcessCurrentConfiguration` reads them from the records of
-- `GetLogicalProcessorInformationEx`. The buffer is the list of its records, and a byte offset is the
-- record that stands there; the answers of Windows are the fields of `Answers`. `m_pkgID` keeps 16
-- bits of the package number, and the numbers wrap at 32 bits.
mod Numbering
mod Walk
mod Scan
mod Packages
pub mod Machine
mod Allowed
pub mod Detected
pub mod Sample
mod Tests
use native.Mathlib.Decide.{ℕ_discrete}
use mathlib.Core.Bool.{◌&&◌, ◌||◌, not}
use tailslayer_win.Common.{
  ℕ, zero, suc, ◌+◌, ◌-◌, ◌%◌, ◌^◌, ◌≡◌, Bool, true, false, if◌then◌else◌, ◌==◌, bit_and, List, [],
  ◌∷◌, ◌++◌, map, Option, none, some, find?, assign, length, max32,
}
use tailslayer_win.Processors.{AffinityMask, LogicalProcessor, Configuration}

pub record GroupPair : Type 0 where
  pub group : ℕ
  pub group_mask : ℕ

unfoldable pub GroupPair-discrete : Discrete GroupPair
GroupPair-discrete = hlevel ℕ_discrete

-- `operator==` with an affinity mask: the two share a processor.
unfoldable pub meets : GroupPair → AffinityMask → Bool
meets pair mask = pair.group == mask.group && not (bit_and pair.group_mask mask.mask == 0)

pub data Relationship : Type 0 where
  processor_core : Relationship
  processor_package : Relationship
  other_relation : Relationship

-- `SYSTEM_LOGICAL_PROCESSOR_INFORMATION_EX`, with its array `GroupMask`.
pub record Info : Type 0 where
  pub relationship : Relationship
  pub group_count : ℕ
  pub group_mask : ℕ → AffinityMask

-- What the first call says, which asks for the size of the buffer.
pub data SizeAnswer : Type 0 where
  succeeded : SizeAnswer
  insufficient_buffer : SizeAnswer
  other_error : SizeAnswer

pub record Answers : Type 0 where
  pub buffer_size : SizeAnswer
  pub information : Option (List Info)
  pub process_affinity : Option ℕ
  pub current_group : ℕ
  pub process_groups : List ℕ

unfoldable pub get_processor_native_configuration :
    SizeAnswer → Option (List Info) → Option (List Info)
get_processor_native_configuration other_error information = none
get_processor_native_configuration succeeded information = information
get_processor_native_configuration insufficient_buffer information = information

abbrev pub pair_at : Info → ℕ → GroupPair
pair_at info g =
    let mask = info.group_mask g in record { group = mask.group; group_mask = mask.mask }

abbrev pub KeyMap : Type 0
KeyMap = List (GroupPair × ℕ)

-- What the walk over the buffer keeps.
pub record Found : Type 0 where
  pub core_infos : List Info
  pub package_infos : List Info
  pub core_map : KeyMap
  pub package_map : KeyMap
  pub next_core_id : ℕ
  pub next_package_id : ℕ

-- A key that is not in the map gets the next number.
abbrev pub number_found : Option ℕ → GroupPair → KeyMap → ℕ → KeyMap × ℕ
number_found none key numbers next =
    (assign GroupPair-discrete key next numbers, (next + 1) % 2 ^ 32)
number_found (some n) key numbers next = (numbers, next)

unfoldable pub number_key : GroupPair → KeyMap → ℕ → KeyMap × ℕ
number_key key numbers next = number_found (find? GroupPair-discrete key numbers) key numbers next

unfoldable pub find_info : Info → Relationship → Found → Found
find_info info processor_core f =
    let (numbers, next) = number_key (pair_at info 0) f.core_map f.next_core_id in
    record f { core_infos = f.core_infos ++ info ∷ []; core_map = numbers; next_core_id = next }
find_info info processor_package f =
    let (numbers, next) = number_key (pair_at info 0) f.package_map f.next_package_id in
    record f {
      package_infos = f.package_infos ++ info ∷ [];
      package_map = numbers;
      next_package_id = next;
    }
find_info info other_relation f = f

unfoldable pub find_infos : List Info → Found → Found
find_infos [] f = f
find_infos (info ∷ infos) f = find_infos infos (find_info info info.relationship f)

-- `map[key]`, for a key that has a number: any other key would get 0.
abbrev pub or_zero : Option ℕ → ℕ
or_zero none = 0
or_zero (some n) = n

unfoldable pub number_of : GroupPair → KeyMap → ℕ
number_of key numbers = or_zero (find? GroupPair-discrete key numbers)

unfoldable pub contains : ℕ → List ℕ → Bool
contains group [] = false
contains group (g ∷ groups) = g == group || contains group groups

unfoldable pub is_group_allowed : Answers → ℕ → ℕ → ℕ → Bool
is_group_allowed os process_mask group bitmask =
    let allowed = contains group os.process_groups in
    if group == os.current_group
    then allowed && not (bit_and bitmask process_mask == 0)
    else allowed

unfoldable pub bool_to_int : Bool → ℕ
bool_to_int true = 1
bool_to_int false = 0

-- The processors of one pair, from `bit` on.
unfoldable pub scan_bits : Answers → ℕ → ℕ → GroupPair → ℕ → ℕ → List LogicalProcessor
scan_bits os process_mask core_id key zero bit = []
scan_bits os process_mask core_id key (suc left) bit =
    let rest = scan_bits os process_mask core_id key left (suc bit) in
    let processor : LogicalProcessor = record {
      global_id = max32;
      core_id = core_id;
      pkg_id = 2 ^ 16 - 1;
      usable = bool_to_int (is_group_allowed os process_mask key.group (2 ^ bit));
      affinity_mask = record { group = key.group; mask = 2 ^ bit };
    } in
    if bit_and key.group_mask (2 ^ bit) == 0 then rest else processor ∷ rest

-- The pairs of one core, from `g` on.
unfoldable pub scan_groups : Answers → ℕ → ℕ → Info → ℕ → ℕ → List LogicalProcessor
scan_groups os process_mask core_id info zero g = []
scan_groups os process_mask core_id info (suc left) g =
    scan_bits os process_mask core_id (pair_at info g) 64 0
    ++ scan_groups os process_mask core_id info left (suc g)

unfoldable pub scan_cores : Answers → ℕ → KeyMap → List Info → List LogicalProcessor
scan_cores os process_mask numbers [] = []
scan_cores os process_mask numbers (info ∷ infos) =
    scan_groups os process_mask (number_of (pair_at info 0) numbers) info info.group_count 0
    ++ scan_cores os process_mask numbers infos

-- The second pass: the package of one processor, for one record, from `g` on.
unfoldable pub assign_package : ℕ → Info → ℕ → ℕ → LogicalProcessor → LogicalProcessor
assign_package pkg_id info zero g lp = lp
assign_package pkg_id info (suc left) g lp = assign_package pkg_id info left (suc g) (record lp {
  pkg_id = if meets (pair_at info g) lp.affinity_mask then pkg_id % 2 ^ 16 else lp.pkg_id;
})

unfoldable pub assign_packages : KeyMap → List Info → List LogicalProcessor → List LogicalProcessor
assign_packages numbers [] proc = proc
assign_packages numbers (info ∷ infos) proc =
    let pkg_id = number_of (pair_at info 0) numbers in
    assign_packages numbers infos (map (assign_package pkg_id info info.group_count 0) proc)

unfoldable pub assign_global_ids : ℕ → List LogicalProcessor → List LogicalProcessor
assign_global_ids i [] = []
assign_global_ids i (lp ∷ proc) = record lp { global_id = i } ∷ assign_global_ids (suc i) proc

abbrev pub nothing_found : Found
nothing_found = record {
  core_infos = [];
  package_infos = [];
  core_map = [];
  package_map = [];
  next_core_id = 0;
  next_package_id = 0;
}

-- The part of `ProcessCurrentConfiguration` after the answers of Windows.
unfoldable pub process_infos : Answers → ℕ → List Info → Configuration → Configuration
process_infos os process_mask infos c =
    let f = find_infos infos nothing_found in
    let scanned = scan_cores os process_mask f.core_map f.core_infos in
    let proc =
      assign_global_ids 0 (assign_packages f.package_map f.package_infos (c.proc ++ scanned)) in
    record {
      proc = proc;
      thread_count = length proc % 2 ^ 32;
      physical_core_count = f.next_core_id;
      core_package_count = f.next_package_id % 2 ^ 16;
    }

-- The failures return at once.
abbrev pub process_with_affinity :
    Answers → List Info → Option ℕ → Configuration → Configuration × Bool
process_with_affinity os infos none c = (c, false)
process_with_affinity os infos (some process_mask) c = (process_infos os process_mask infos c, true)

abbrev pub process_with_infos : Answers → Option (List Info) → Configuration → Configuration × Bool
process_with_infos os none c = (c, false)
process_with_infos os (some infos) c = process_with_affinity os infos os.process_affinity c

unfoldable pub process_current_configuration : Answers → Configuration → Configuration × Bool
process_current_configuration os c =
    process_with_infos os (get_processor_native_configuration os.buffer_size os.information) c

-- `ProcessorConfigurationVector::initialize`.
unfoldable pub initialize_configuration : Answers → Configuration → Configuration × Bool
initialize_configuration os c = process_current_configuration os (record c { proc = [] })
