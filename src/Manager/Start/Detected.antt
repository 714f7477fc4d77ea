-- ===== src/Manager/Start/Detected.antt =====
-- `initialize` of `DynamicThreadManager` in proc.cpp, with what `ProcessorConfigurationVector` has
-- detected.
use native.Mathlib.Decide.{ℕ_discrete}
use tailslayer_win.Common.{
  ℕ, ◌+◌, ◌*◌, ◌^◌, ◌<◌, ◌≡◌, sym, ap, ◌∙◌, arith, true, List, [], ◌∷◌, length, one_at_self,
  one_at_ne, In,
}
use tailslayer_win.Processors.{LogicalProcessor, Configuration, unique_core_id, IsSized}
use tailslayer_win.Processors.Identity.{unique_core_id_lem, unique_core_id_injective}
use tailslayer_win.Processors.Windows.{Info, Answers, process_infos, initialize_configuration}
use tailslayer_win.Processors.Windows.Detected.{
  IsCore, Answered, initialize_configuration-eq, detected, detected_complete,
}
use tailslayer_win.Processors.Windows.Machine.{
  IsMachine, count_of_cores, core_id-lt, core_id_onto, pkg_id_of_core, detected-IsSized,
  detected_numbered, length-detected,
}
use tailslayer_win.Manager.{Manager, initialize_with, destroy_manager}
use tailslayer_win.Manager.Valid.{IsValid, available}
use tailslayer_win.Manager.Start.Counts.{core_count}
use tailslayer_win.Manager.Start.Census.{ToldApart, core_count_lem}
use tailslayer_win.Manager.Start.Fresh.{initialize_with-IsValid}

module _ (os : Answers) (process_mask : ℕ) (infos : List Info) (before : Configuration)
    (machine : IsMachine infos) where
  detected-ToldApart : ToldApart (detected os process_mask infos before)
  detected-ToldApart lp lq there_p there_q = elim (ℕ_discrete lp.core_id lq.core_id) [
    | yes same ↦
        let one_package =
          pkg_id_of_core os process_mask infos before machine lp lq there_p there_q same in
        let keys : unique_core_id lp ≡ unique_core_id lq =
          unique_core_id_lem lp sized_p
          ∙ ap (λ n. n + lp.pkg_id * 2 ^ 32) same
          ∙ ap (λ n. lq.core_id + n * 2 ^ 32) one_package
          ∙ sym (unique_core_id_lem lq sized_q) in
        rw (keys, same) (one_at_self (unique_core_id lq) ∙ sym (one_at_self lq.core_id))
    | no other ↦
        one_at_ne (unique_core_id lp) (unique_core_id lq)
          (λ e. other (unique_core_id_injective lp lq sized_p sized_q e).0)
        ∙ sym (one_at_ne lp.core_id lq.core_id other)
  ]
    where
      sized_p : IsSized lp
      sized_p = detected-IsSized os process_mask infos before machine lp there_p

      sized_q : IsSized lq
      sized_q = detected-IsSized os process_mask infos before machine lq there_q

  detected-counted :
      count_of_cores os process_mask infos before machine
      ≡ core_count [] (detected os process_mask infos before)
  detected-counted = sym (
      core_count_lem (count_of_cores os process_mask infos before machine)
        (detected os process_mask infos before) detected-ToldApart
        (core_id-lt os process_mask infos before machine)
        (core_id_onto os process_mask infos before machine))

  detected_nonempty :
      (c : Info) → IsCore infos c → 0 < length (detected os process_mask infos before)
  detected_nonempty c core =
      let (a, of_core) = machine.inhabited c core in
      let (lp, there, _, _) = detected_complete os process_mask infos before c a core of_core in
      length_pos lp (detected os process_mask infos before) there
    where
      length_pos :
          (lp : LogicalProcessor) (proc : List LogicalProcessor) → In lp proc → 0 < length proc
      length_pos lp [] there = absurd there
      length_pos lp (lq ∷ proc) there = omega arith

  started :
      (m : Manager) (c : Info)
      → IsCore infos c
      → let d = process_infos os process_mask infos (record before { proc = [] }) in
        (n : Manager) × (initialize_with d (destroy_manager m) ≡ (n, true))
        × IsValid n
        × ((i : ℕ) → i < length d.proc → available i n ≡ 1)
  unfolding process_infos
  started m c core =
      let few = length-detected os process_mask infos before in
      let fits : length (detected os process_mask infos before) < 2 ^ 32 =
        omega (arith, machine.few_processors) in
      initialize_with-IsValid (process_infos os process_mask infos (record before { proc = [] })) m
        (λ i lp e. detected_numbered os process_mask infos before i lp e) (detected_nonempty c core)
        fits (omega arith) detected-counted

-- On a machine whose records describe a core at least, give each core a processor, put all
-- processors of a core in one package, and have fewer than 2^32 processors at 64 to a group mask:
-- the detection succeeds when the calls of Windows do, and `initialize` with its result, on a
-- manager that was destroyed, leaves a valid manager with every thread on offer once.
pub initialize_with-detected :
    (os : Answers) (process_mask : ℕ) (infos : List Info) (before : Configuration) (m : Manager)
    (c : Info)
    → Answered os process_mask infos
    → IsMachine infos
    → IsCore infos c
    → (d : Configuration) × (initialize_configuration os before ≡ (d, true))
      × (n : Manager) × (initialize_with d (destroy_manager m) ≡ (n, true))
      × IsValid n
      × ((i : ℕ) → i < length d.proc → available i n ≡ 1)
initialize_with-detected os process_mask infos before m c answered machine core =
    let (n, e, valid, on_offer) = started os process_mask infos before machine m c core in
    (
      process_infos os process_mask infos (record before { proc = [] }),
      initialize_configuration-eq os process_mask infos before answered,
      n,
      e,
      valid,
      on_offer,
    )
