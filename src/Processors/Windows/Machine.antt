-- ===== src/Processors/Windows/Machine.antt =====
-- Why the core and package numbers that `ProcessCurrentConfiguration` of proc.cpp gives tell the
-- physical cores of a machine apart.
use tailslayer_win.Common.{
  ℕ, zero, suc, ◌+◌, ◌*◌, ◌^◌, ◌≤◌, ◌<◌, ◌≡◌, inl, inr, refl, sym, ap, ◌∙◌, arith, Bool-cases, List,
  [], ◌∷◌, ◌++◌, map, some, length, length-append, get_elem?, In, ◌==◌, bit_and,
}
use tailslayer_win.Processors.{AffinityMask, LogicalProcessor, Configuration, IsSized}
use tailslayer_win.Processors.Windows.{
  GroupPair, Info, Relationship, processor_core, processor_package, other_relation, KeyMap, Found,
  Answers, pair_at, number_of, find_info, find_infos, nothing_found, scan_bits, scan_groups,
  scan_cores, assign_packages, assign_global_ids, process_infos,
}
use tailslayer_win.Processors.Windows.Numbering.{number?}
use tailslayer_win.Processors.Windows.Walk.{IsFound, walk-IsFound}
use tailslayer_win.Processors.Windows.Scan.{OfCore}
use tailslayer_win.Processors.Windows.Packages.{
  has_processor, package_of, package_of-together, package_of-fits, assign_packages-eq_map,
  assign_global_ids-numbered,
}
use tailslayer_win.Processors.Windows.Detected.{
  IsCore, IsPackage, found, core_number, detected, detected_sound, detected_complete,
  kept-IsPackage, kept-IsCore,
}

-- The number of group masks of the machine.
abbrev pub group_total : List Info → ℕ
group_total [] = 0
group_total (info ∷ infos) = info.group_count + group_total infos

-- What is relied on of the records: a core has a processor, and a package has all processors of a
-- core or none; at 64 processors to a group mask there are fewer than 2^32.
pub record IsMachine (infos : List Info) : Type 0 where
  pub few : length infos < 2 ^ 32
  pub few_processors : 64 * group_total infos < 2 ^ 32
  pub inhabited : (c : Info) → IsCore infos c → (a : AffinityMask) × OfCore c a
  pub one_package :
      (c d p : Info)
      → IsCore infos c
      → IsCore infos d
      → IsPackage infos p
      → pair_at c 0 ≡ pair_at d 0
      → (a b : AffinityMask) → OfCore c a
      → OfCore d b
      → has_processor p a ≡ has_processor p b

number_of-eq :
    (k : GroupPair) (n : ℕ) (numbers : KeyMap)
    → number? k numbers ≡ some n
    → number_of k numbers ≡ n
unfolding number_of
number_of-eq k n numbers e = rw e refl

module _ (os : Answers) (process_mask : ℕ) (infos : List Info) (before : Configuration)
    (machine : IsMachine infos) where
  abbrev pub count_of_cores : ℕ
  count_of_cores = (found infos).next_core_id

  walked : IsFound (found infos)
  walked = (walk-IsFound infos machine.few).0

  core_number-entry :
      (c : Info)
      → In c (found infos).core_infos
      → number? (pair_at c 0) (found infos).core_map ≡ some (core_number infos c)
  core_number-entry c kept =
      let (n, e) = walked.keyed c kept in
      e ∙ ap some (sym (number_of-eq (pair_at c 0) n (found infos).core_map e))

  pub core_id-lt :
      (lp : LogicalProcessor)
      → In lp (detected os process_mask infos before)
      → lp.core_id < count_of_cores
  core_id-lt lp there =
      let (c, d) = detected_sound os process_mask infos before lp there in
      rw d.numbered
        (walked.numbering.below (pair_at c 0) (core_number infos c) (core_number-entry c d.kept))

  pub count_of_cores-lt : count_of_cores < 2 ^ 32
  count_of_cores-lt = omega (arith, (walk-IsFound infos machine.few).1, machine.few)

  pub core_id_onto :
      (i : ℕ)
      → i < count_of_cores
      → (lp : LogicalProcessor) × In lp (detected os process_mask infos before) × (lp.core_id ≡ i)
  core_id_onto i lt =
      let (k, e) = walked.numbering.onto i lt in
      let (c, kept, same) = walked.origin k i e in
      let core = kept-IsCore os process_mask infos before c kept in
      let (a, of_core) = machine.inhabited c core in
      let (lp, there, _, numbered) =
        detected_complete os process_mask infos before c a core of_core in
      (lp, there, numbered ∙ number_of-eq (pair_at c 0) i (found infos).core_map (rw same e))

  -- The processors of one core are in one package.
  pub pkg_id_of_core :
      (lp lq : LogicalProcessor)
      → In lp (detected os process_mask infos before)
      → In lq (detected os process_mask infos before)
      → lp.core_id ≡ lq.core_id
      → lp.pkg_id ≡ lq.pkg_id
  pkg_id_of_core lp lq there_p there_q same =
      let (c, p) = detected_sound os process_mask infos before lp there_p in
      let (d, q) = detected_sound os process_mask infos before lq there_q in
      let numbers = sym p.numbered ∙ same ∙ q.numbered in
      let keys =
        walked.numbering.one_key (pair_at c 0) (pair_at d 0) (core_number infos c)
          (core_number-entry c p.kept) (core_number-entry d q.kept ∙ ap some (sym numbers)) in
      p.packaged
      ∙ package_of-together (found infos).package_map (found infos).package_infos p.new q.new
          (λ info there.
            rw (p.new_mask, q.new_mask)
              (machine.one_package c d info p.is_core q.is_core
                (kept-IsPackage os process_mask infos before info there) keys lp.affinity_mask
                lq.affinity_mask p.of_core q.of_core))
          (p.new_pkg ∙ sym q.new_pkg)
      ∙ sym q.packaged

  pub detected-IsSized :
      (lp : LogicalProcessor) → In lp (detected os process_mask infos before) → IsSized lp
  detected-IsSized lp there =
      let (c, p) = detected_sound os process_mask infos before lp there in
      record {
        core_fits = omega (arith, core_id-lt lp there, count_of_cores-lt);
        pkg_fits = rw p.packaged (
            package_of-fits (found infos).package_map (found infos).package_infos p.new
              (omega (arith, p.new_pkg)));
      }

-- Each processor has its place as its identity.
pub detected_numbered :
    (os : Answers) (process_mask : ℕ) (infos : List Info) (before : Configuration) (i : ℕ)
    (lp : LogicalProcessor)
    → get_elem? (detected os process_mask infos before) i ≡ some lp
    → lp.global_id ≡ i
unfolding process_infos
detected_numbered os process_mask infos before i lp e = omega (
  arith,
  assign_global_ids-numbered 0
      (assign_packages (found infos).package_map (found infos).package_infos
        (scan_cores os process_mask (found infos).core_map (found infos).core_infos))
      i lp e,
)

-- How many there are.
module _ (os : Answers) (process_mask : ℕ) where
  length-scan_bits :
      (core_id : ℕ) (key : GroupPair) (left bit : ℕ)
      → length (scan_bits os process_mask core_id key left bit) ≤ left
  unfolding scan_bits
  length-scan_bits core_id key zero bit = omega arith
  length-scan_bits core_id key (suc left) bit =
      elim (Bool-cases (bit_and key.group_mask (2 ^ bit) == 0)) [
        | inl clear ↦ rw clear (omega (arith, length-scan_bits core_id key left (suc bit)))
        | inr there ↦ rw there (omega (arith, length-scan_bits core_id key left (suc bit)))
      ]

  length-scan_groups :
      (core_id : ℕ) (info : Info) (left g : ℕ)
      → length (scan_groups os process_mask core_id info left g) ≤ 64 * left
  unfolding scan_groups
  length-scan_groups core_id info zero g = omega arith
  length-scan_groups core_id info (suc left) g = omega (
    arith,
    length-append (scan_bits os process_mask core_id (pair_at info g) 64 0)
        (scan_groups os process_mask core_id info left (suc g)),
    length-scan_bits core_id (pair_at info g) 64 0,
    length-scan_groups core_id info left (suc g),
  )

  length-scan_cores :
      (numbers : KeyMap) (infos : List Info)
      → length (scan_cores os process_mask numbers infos) ≤ 64 * group_total infos
  unfolding scan_cores
  length-scan_cores numbers [] = omega arith
  length-scan_cores numbers (info ∷ infos) = omega (
    arith,
    length-append
        (scan_groups os process_mask (number_of (pair_at info 0) numbers) info info.group_count 0)
        (scan_cores os process_mask numbers infos),
    length-scan_groups (number_of (pair_at info 0) numbers) info info.group_count 0,
    length-scan_cores numbers infos,
  )

group_total-last :
    (infos : List Info) (info : Info)
    → group_total (infos ++ info ∷ []) ≡ group_total infos + info.group_count
group_total-last [] info = omega arith
group_total-last (d ∷ infos) info = omega (arith, group_total-last infos info)

find_info-total :
    (info : Info) (r : Relationship) (f : Found)
    → group_total (find_info info r f).core_infos ≤ group_total f.core_infos + info.group_count
unfolding find_info
find_info-total info processor_core f = omega (arith, group_total-last f.core_infos info)
find_info-total info processor_package f = omega arith
find_info-total info other_relation f = omega arith

find_infos-total :
    (infos : List Info) (f : Found)
    → group_total (find_infos infos f).core_infos ≤ group_total f.core_infos + group_total infos
unfolding find_infos
find_infos-total [] f = omega arith
find_infos-total (info ∷ infos) f = omega (
  arith,
  find_infos-total infos (find_info info info.relationship f),
  find_info-total info info.relationship f,
)

length-assign_global_ids :
    (i : ℕ) (proc : List LogicalProcessor) → length (assign_global_ids i proc) ≡ length proc
unfolding assign_global_ids
length-assign_global_ids i [] = refl
length-assign_global_ids i (lp ∷ proc) = ap suc (length-assign_global_ids (suc i) proc)

length-map :
    (f : LogicalProcessor → LogicalProcessor) (proc : List LogicalProcessor)
    → length (map f proc) ≡ length proc
length-map f [] = refl
length-map f (lp ∷ proc) = ap suc (length-map f proc)

pub length-detected :
    (os : Answers) (process_mask : ℕ) (infos : List Info) (before : Configuration)
    → length (detected os process_mask infos before) ≤ 64 * group_total infos
unfolding process_infos
length-detected os process_mask infos before =
    let f = found infos in
    let scanned = scan_cores os process_mask f.core_map f.core_infos in
    let packaged = package_of f.package_map f.package_infos in
    omega (
      arith,
      length-assign_global_ids 0 (assign_packages f.package_map f.package_infos scanned),
      ap length (assign_packages-eq_map f.package_map f.package_infos scanned),
      length-map packaged scanned,
      length-scan_cores os process_mask f.core_map f.core_infos,
      find_infos-total infos nothing_found,
    )
