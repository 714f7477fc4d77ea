-- ===== src/Processors/Windows/Tests.antt =====
-- The detection on the sample machine.
use native.Mathlib.Decide.{ℕ_discrete}
use tailslayer_win.Common.{ℕ, ◌≡◌, refl, true, [], ◌∷◌, map, In}
use tailslayer_win.Processors.{AffinityMask, LogicalProcessor, Configuration}
use tailslayer_win.Processors.Windows.{
  Info, GroupPair-discrete, meets, get_processor_native_configuration, number_key, find_info,
  find_infos, number_of, contains, is_group_allowed, bool_to_int, scan_bits, scan_groups,
  scan_cores, assign_package, assign_packages, assign_global_ids, process_infos,
  process_current_configuration, initialize_configuration,
}
use tailslayer_win.Processors.Windows.Allowed.{IsAllowed, Decides}
use tailslayer_win.Processors.Windows.Scan.{OfCore}
use tailslayer_win.Processors.Windows.Detected.{IsCore, initialize_configuration-detects}
use tailslayer_win.Processors.Windows.Sample.{two_cores, answers, nothing_known, answers-Answered}

abbrev summary : LogicalProcessor → ℕ × ℕ × ℕ × ℕ × ℕ
summary lp = (lp.global_id, lp.core_id, lp.pkg_id, lp.usable, lp.affinity_mask.mask)

four_threads :
    map summary (initialize_configuration answers nothing_known).0.proc
    ≡ (0, 0, 0, 1, 1) ∷ (1, 0, 0, 1, 2) ∷ (2, 1, 0, 1, 4) ∷ (3, 1, 0, 0, 8) ∷ []
unfolding initialize_configuration process_current_configuration get_processor_native_configuration
    process_infos find_infos find_info number_key GroupPair-discrete scan_cores scan_groups
    scan_bits number_of is_group_allowed contains bool_to_int assign_packages assign_package meets
    assign_global_ids ℕ_discrete
four_threads = refl

initialize_configuration-detects_example :
    (d : Configuration) × (initialize_configuration answers nothing_known ≡ (d, true))
    × ((lp : LogicalProcessor)
        → In lp d.proc
        → ((c : Info) × IsCore two_cores c × OfCore c lp.affinity_mask)
          × Decides lp.usable (IsAllowed answers 7 lp.affinity_mask))
    × ((c : Info) (a : AffinityMask)
        → IsCore two_cores c
        → OfCore c a
        → (lp : LogicalProcessor) × In lp d.proc × (lp.affinity_mask ≡ a))
initialize_configuration-detects_example =
    initialize_configuration-detects answers 7 two_cores nothing_known answers-Answered
