-- ===== src/Processors/Windows/Detected.antt =====
-- What `ProcessCurrentConfiguration` of proc.cpp detects on Windows.
use tailslayer_win.Common.{
  ℕ, ◌-◌, ◌^◌, ◌≡◌, ◌≢◌, refl, sym, ap, ◌∙◌, true, List, [], map, some, In, subst,
}
use tailslayer_win.Processors.{AffinityMask, LogicalProcessor, Configuration}
use tailslayer_win.Processors.Windows.{
  Info, processor_core, processor_package, Found, Answers, SizeAnswer, other_error, succeeded,
  insufficient_buffer, pair_at, number_of, find_infos, nothing_found, scan_cores, assign_global_ids,
  process_infos, process_current_configuration, initialize_configuration,
  get_processor_native_configuration, is_group_allowed, bool_to_int,
}
use tailslayer_win.Processors.Windows.Allowed.{IsAllowed, Decides, usable-IsAllowed}
use tailslayer_win.Processors.Windows.Walk.{find_infos-AllOf, find_infos_complete}
use tailslayer_win.Processors.Windows.Scan.{OfCore, scan_cores_sound, scan_cores_complete}
use tailslayer_win.Processors.Windows.Packages.{
  package_of, assign_packages-eq_map, package_of-rest, In-map, In-map_inv, assign_global_ids_sound,
  assign_global_ids_complete,
}

-- A record of a core, and one of a package.
abbrev pub IsCore : List Info → Info → Type 0
IsCore infos c = In c infos × (c.relationship ≡ processor_core)

abbrev pub IsPackage : List Info → Info → Type 0
IsPackage infos p = In p infos × (p.relationship ≡ processor_package)

abbrev pub found : List Info → Found
found infos = find_infos infos nothing_found

abbrev pub core_number : List Info → Info → ℕ
core_number infos c = number_of (pair_at c 0) (found infos).core_map

-- What is known of a processor that was detected.
pub record IsDetected (os : Answers) (process_mask : ℕ) (infos : List Info) (c : Info)
    (lp : LogicalProcessor) : Type 0 where
  pub is_core : IsCore infos c
  pub kept : In c (found infos).core_infos
  pub of_core : OfCore c lp.affinity_mask
  pub numbered : lp.core_id ≡ core_number infos c
  pub usable :
      lp.usable
      ≡ bool_to_int (is_group_allowed os process_mask lp.affinity_mask.group lp.affinity_mask.mask)
  pub new : LogicalProcessor
  pub new_pkg : new.pkg_id ≡ 2 ^ 16 - 1
  pub new_mask : new.affinity_mask ≡ lp.affinity_mask
  pub packaged :
      lp.pkg_id ≡ (package_of (found infos).package_map (found infos).package_infos new).pkg_id

module _ (os : Answers) (process_mask : ℕ) (infos : List Info) (before : Configuration) where
  abbrev pub detected : List LogicalProcessor
  detected = (process_infos os process_mask infos (record before { proc = [] })).proc

  pub kept-IsCore : (c : Info) → In c (found infos).core_infos → IsCore infos c
  kept-IsCore =
      (find_infos-AllOf (λ i. In i infos) infos nothing_found (λ i there. there)
        (λ i there. absurd there) (λ i there. absurd there)).0

  pub kept-IsPackage : (p : Info) → In p (found infos).package_infos → IsPackage infos p
  kept-IsPackage =
      (find_infos-AllOf (λ i. In i infos) infos nothing_found (λ i there. there)
        (λ i there. absurd there) (λ i there. absurd there)).1

  scanned : List LogicalProcessor
  scanned = scan_cores os process_mask (found infos).core_map (found infos).core_infos

  put : LogicalProcessor → LogicalProcessor
  put = package_of (found infos).package_map (found infos).package_infos

  detected-eq : detected ≡ assign_global_ids 0 (map put scanned)
  unfolding process_infos scanned put
  detected-eq =
      ap (assign_global_ids 0)
        (assign_packages-eq_map (found infos).package_map (found infos).package_infos scanned)

  pub detected_sound :
      (lp : LogicalProcessor) → In lp detected → (c : Info) × IsDetected os process_mask infos c lp
  unfolding scanned put
  detected_sound lp there =
      let (lq, in_map, alike) =
        assign_global_ids_sound 0 (map put scanned) lp (subst (In lp) detected-eq there) in
      let (new, in_scanned, e) = In-map_inv put lq scanned in_map in
      let (c, kept, of_core, is_new) =
        scan_cores_sound os process_mask (found infos).core_map new (found infos).core_infos
          in_scanned in
      let rest = package_of-rest (found infos).package_map (found infos).package_infos new in
      let mask : lp.affinity_mask ≡ new.affinity_mask =
        alike.2 ∙ ap (λ x. x.affinity_mask) (sym e) ∙ rest.1 in
      (
        c,
        record {
          is_core = kept-IsCore c kept;
          kept = kept;
          of_core = rw mask of_core;
          numbered = alike.0 ∙ ap (λ x. x.core_id) (sym e) ∙ rest.0 ∙ is_new.0;
          usable = alike.3 ∙ ap (λ x. x.usable) (sym e) ∙ rest.2 ∙ rw mask is_new.2;
          new = new;
          new_pkg = is_new.1;
          new_mask = sym mask;
          packaged = alike.1 ∙ ap (λ x. x.pkg_id) (sym e);
        },
      )

  pub detected_complete :
      (c : Info) (a : AffinityMask)
      → IsCore infos c
      → OfCore c a
      → (lp : LogicalProcessor) × In lp detected
        × (lp.affinity_mask ≡ a)
        × (lp.core_id ≡ core_number infos c)
  unfolding scanned put
  detected_complete c a (there, core) of_core =
      let (new, in_scanned, same, is_new) =
        scan_cores_complete os process_mask (found infos).core_map c a (found infos).core_infos
          (find_infos_complete c infos nothing_found there core) of_core in
      let (lp, in_detected, alike) =
        assign_global_ids_complete 0 (map put scanned) (put new)
          (In-map put new scanned in_scanned) in
      let rest = package_of-rest (found infos).package_map (found infos).package_infos new in
      (
        lp,
        subst (In lp) (sym detected-eq) in_detected,
        alike.2 ∙ rest.1 ∙ same,
        alike.0 ∙ rest.0 ∙ is_new.0,
      )

-- The calls of Windows succeed.
pub record Answered (os : Answers) (process_mask : ℕ) (infos : List Info) : Type 0 where
  pub sized : os.buffer_size ≢ other_error
  pub filled : os.information ≡ some infos
  pub affinity : os.process_affinity ≡ some process_mask

native-eq :
    (os : Answers) (process_mask : ℕ) (infos : List Info)
    → Answered os process_mask infos
    → get_processor_native_configuration os.buffer_size os.information ≡ some infos
unfolding get_processor_native_configuration
native-eq os process_mask infos h = from os.buffer_size h.sized
  where
    from :
        (size : SizeAnswer)
        → size ≢ other_error
        → get_processor_native_configuration size os.information ≡ some infos
    from other_error sized = absurd (sized refl)
    from succeeded sized = h.filled
    from insufficient_buffer sized = h.filled

pub initialize_configuration-eq :
    (os : Answers) (process_mask : ℕ) (infos : List Info) (before : Configuration)
    → Answered os process_mask infos
    → initialize_configuration os before
      ≡ (process_infos os process_mask infos (record before { proc = [] }), true)
unfolding initialize_configuration process_current_configuration
initialize_configuration-eq os process_mask infos before h =
    rw (native-eq os process_mask infos h, h.affinity) refl

-- When the calls of Windows succeed, `initialize` succeeds. Each processor it lists is one of a
-- core's: one bit of one of the core's group masks. It is marked usable, by 1 or else 0, exactly when
-- its group is one of the process's groups and, if that is the primary group, its bit is in the
-- affinity mask of the process. And each processor of each core is listed.
pub initialize_configuration-detects :
    (os : Answers) (process_mask : ℕ) (infos : List Info) (before : Configuration)
    → Answered os process_mask infos
    → (d : Configuration) × (initialize_configuration os before ≡ (d, true))
      × ((lp : LogicalProcessor)
          → In lp d.proc
          → ((c : Info) × IsCore infos c × OfCore c lp.affinity_mask)
            × Decides lp.usable (IsAllowed os process_mask lp.affinity_mask))
      × ((c : Info) (a : AffinityMask)
          → IsCore infos c
          → OfCore c a
          → (lp : LogicalProcessor) × In lp d.proc × (lp.affinity_mask ≡ a))
initialize_configuration-detects os process_mask infos before h = (
  process_infos os process_mask infos (record before { proc = [] }),
  initialize_configuration-eq os process_mask infos before h,
  λ lp there.
      let (c, d) = detected_sound os process_mask infos before lp there in
      (
        (c, d.is_core, d.of_core),
        subst (λ u. Decides u (IsAllowed os process_mask lp.affinity_mask)) (sym d.usable)
            (usable-IsAllowed os process_mask lp.affinity_mask),
      ),
  λ c a core of_core.
      let (lp, there, same, _) = detected_complete os process_mask infos before c a core of_core in
      (lp, there, same),
)
