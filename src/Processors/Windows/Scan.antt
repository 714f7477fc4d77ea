-- ===== src/Processors/Windows/Scan.antt =====
-- The processors that `ProcessCurrentConfiguration` of proc.cpp makes of the records of cores: one for
-- each bit of each of a core's group masks, with the core's number.
use tailslayer_win.Common.{
  ℕ, zero, suc, ◌+◌, ◌-◌, ◌^◌, ◌<◌, ◌≡◌, ◌⊎◌, inl, inr, refl, sym, ap, arith, Bool, true, false,
  ◌==◌, bit_and, if◌then◌else◌, max32, List, [], ◌∷◌, In, In-left, In-right, In-append, subst,
}
use tailslayer_win.Processors.{AffinityMask, LogicalProcessor}
use tailslayer_win.Processors.Windows.{
  GroupPair, Info, Answers, KeyMap, pair_at, number_of, scan_bits, scan_groups, scan_cores,
  is_group_allowed, bool_to_int,
}

-- A bit of a pair, and the affinity mask of its processor.
abbrev pub OfPair : GroupPair → AffinityMask → ℕ → Type 0
OfPair key a bit =
    ((bit_and key.group_mask (2 ^ bit) == 0) ≡ false)
    × (a ≡ record { group = key.group; mask = 2 ^ bit })

-- The affinity masks of a core's processors: one bit of one of its groups.
abbrev pub OfCore : Info → AffinityMask → Type 0
OfCore info a =
    (g : ℕ) × (bit : ℕ) × (g < info.group_count) × (bit < 64) × OfPair (pair_at info g) a bit

-- What a new processor is.
abbrev pub IsNew : Answers → ℕ → ℕ → LogicalProcessor → Type 0
IsNew os process_mask core_id lp =
    (lp.core_id ≡ core_id)
    × (lp.pkg_id ≡ 2 ^ 16 - 1)
    × (lp.usable
        ≡ bool_to_int
            (is_group_allowed os process_mask lp.affinity_mask.group lp.affinity_mask.mask))

In-skip :
    (x y : LogicalProcessor) (rest : List LogicalProcessor) (skip : Bool)
    → In x (if skip then rest else y ∷ rest)
    → ((skip ≡ false) × (y ≡ x)) ⊎ In x rest
In-skip x y rest true there = inr there
In-skip x y rest false (inl e) = inl (refl, e)
In-skip x y rest false (inr there) = inr there

In-unless :
    (x y : LogicalProcessor) (rest : List LogicalProcessor) (skip : Bool)
    → In x rest
    → In x (if skip then rest else y ∷ rest)
In-unless x y rest true there = there
In-unless x y rest false there = inr there

module _ (os : Answers) (process_mask core_id : ℕ) where
  -- The processor of a bit.
  abbrev processor : GroupPair → ℕ → LogicalProcessor
  processor key bit = record {
    global_id = max32;
    core_id = core_id;
    pkg_id = 2 ^ 16 - 1;
    usable = bool_to_int (is_group_allowed os process_mask key.group (2 ^ bit));
    affinity_mask = record { group = key.group; mask = 2 ^ bit };
  }

  scan_bits_sound :
      (lp : LogicalProcessor) (key : GroupPair) (left bit : ℕ)
      → In lp (scan_bits os process_mask core_id key left bit)
      → (b : ℕ) × (b < bit + left)
        × OfPair key lp.affinity_mask b
        × IsNew os process_mask core_id lp
  unfolding scan_bits
  scan_bits_sound lp key zero bit there = absurd there
  scan_bits_sound lp key (suc left) bit there =
      let rest = scan_bits os process_mask core_id key left (suc bit) in
      let skip = bit_and key.group_mask (2 ^ bit) == 0 in
      elim (In-skip lp (processor key bit) rest skip there) [
        | inl (there_set, e) ↦ (
          bit,
          omega arith,
          (there_set, ap (λ x. x.affinity_mask) (sym e)),
          subst (IsNew os process_mask core_id) e (refl, refl, refl),
        )
        | inr later ↦
            let (b, lt, of_pair, new) = scan_bits_sound lp key left (suc bit) later in
            (b, omega arith, of_pair, new)
      ]

  scan_bits_complete :
      (key : GroupPair) (left bit d : ℕ)
      → d < left
      → (bit_and key.group_mask (2 ^ (d + bit)) == 0) ≡ false
      → In (processor key (d + bit)) (scan_bits os process_mask core_id key left bit)
  unfolding scan_bits
  scan_bits_complete key zero bit d lt e = absurd (omega arith)
  scan_bits_complete key (suc left) bit zero lt e =
      let here : 0 + bit ≡ bit = omega arith in rw here (rw (rw here at e) (inl refl))
  scan_bits_complete key (suc left) bit (suc d) lt e =
      let rest = scan_bits os process_mask core_id key left (suc bit) in
      let skip = bit_and key.group_mask (2 ^ bit) == 0 in
      let next : d + suc bit ≡ suc d + bit = omega arith in
      let later =
        subst (λ n. In (processor key n) rest) next
          (scan_bits_complete key left (suc bit) d (omega arith)
            (subst (λ n. (bit_and key.group_mask (2 ^ n) == 0) ≡ false) (sym next) e)) in
      In-unless (processor key (suc d + bit)) (processor key bit) rest skip later

  scan_groups_sound :
      (lp : LogicalProcessor) (info : Info) (left g : ℕ)
      → In lp (scan_groups os process_mask core_id info left g)
      → (h : ℕ) × (bit : ℕ) × (h < g + left)
        × (bit < 64)
        × OfPair (pair_at info h) lp.affinity_mask bit
        × IsNew os process_mask core_id lp
  unfolding scan_groups
  scan_groups_sound lp info zero g there = absurd there
  scan_groups_sound lp info (suc left) g there =
      elim (In-append lp (scan_bits os process_mask core_id (pair_at info g) 64 0)
        (scan_groups os process_mask core_id info left (suc g)) there) [
          | inl here ↦
              let (bit, lt, of_pair, new) = scan_bits_sound lp (pair_at info g) 64 0 here in
              (g, bit, omega arith, omega arith, of_pair, new)
          | inr later ↦
              let (h, bit, lt, small, of_pair, new) =
                scan_groups_sound lp info left (suc g) later in
              (h, bit, omega arith, small, of_pair, new)
        ]

  scan_groups_complete :
      (info : Info) (left g d bit : ℕ)
      → d < left
      → bit < 64
      → (bit_and (pair_at info (d + g)).group_mask (2 ^ bit) == 0) ≡ false
      → In (processor (pair_at info (d + g)) bit) (scan_groups os process_mask core_id info left g)
  unfolding scan_groups
  scan_groups_complete info zero g d bit lt small e = absurd (omega arith)
  scan_groups_complete info (suc left) g zero bit lt small e =
      let here : 0 + g ≡ g = omega arith in
      let first : bit + 0 ≡ bit = omega arith in
      let found = scan_bits_complete (pair_at info g) 64 0 bit small (
        rw first
          (subst (λ h. (bit_and (pair_at info h).group_mask (2 ^ bit) == 0) ≡ false) here e)) in
      In-left (processor (pair_at info (0 + g)) bit)
        (scan_bits os process_mask core_id (pair_at info g) 64 0)
        (scan_groups os process_mask core_id info left (suc g))
        (rw here (
          subst
            (λ b.
              In (processor (pair_at info g) b)
                (scan_bits os process_mask core_id (pair_at info g) 64 0))
            first found))
  scan_groups_complete info (suc left) g (suc d) bit lt small e =
      let next : d + suc g ≡ suc d + g = omega arith in
      In-right (processor (pair_at info (suc d + g)) bit)
        (scan_bits os process_mask core_id (pair_at info g) 64 0)
        (scan_groups os process_mask core_id info left (suc g))
        (subst
          (λ n.
            In (processor (pair_at info n) bit)
              (scan_groups os process_mask core_id info left (suc g)))
          next
          (scan_groups_complete info left (suc g) d bit (omega arith) small (
            subst (λ n. (bit_and (pair_at info n).group_mask (2 ^ bit) == 0) ≡ false) (sym next)
              e)))

module _ (os : Answers) (process_mask : ℕ) (numbers : KeyMap) where
  -- Each processor found is one of a core's, under the core's number.
  pub scan_cores_sound :
      (lp : LogicalProcessor) (infos : List Info)
      → In lp (scan_cores os process_mask numbers infos)
      → (info : Info) × In info infos
        × OfCore info lp.affinity_mask
        × IsNew os process_mask (number_of (pair_at info 0) numbers) lp
  unfolding scan_cores
  scan_cores_sound lp [] there = absurd there
  scan_cores_sound lp (info ∷ infos) there =
      let core = number_of (pair_at info 0) numbers in
      elim (In-append lp (scan_groups os process_mask core info info.group_count 0)
        (scan_cores os process_mask numbers infos) there) [
          | inl here ↦
              let (g, bit, lt, small, of_pair, new) =
                scan_groups_sound os process_mask core lp info info.group_count 0 here in
              (info, inl refl, (g, bit, omega arith, small, of_pair), new)
          | inr later ↦
              let (d, in_infos, of_core, new) = scan_cores_sound lp infos later in
              (d, inr in_infos, of_core, new)
        ]

  -- Each processor of a core is found.
  pub scan_cores_complete :
      (info : Info) (a : AffinityMask) (infos : List Info)
      → In info infos
      → OfCore info a
      → (lp : LogicalProcessor) × In lp (scan_cores os process_mask numbers infos)
        × (lp.affinity_mask ≡ a)
        × IsNew os process_mask (number_of (pair_at info 0) numbers) lp
  unfolding scan_cores
  scan_cores_complete info a [] there of_core = absurd there
  scan_cores_complete info a (d ∷ infos) (inl e) (g, bit, lt, small, (there_set, same)) =
      let core = number_of (pair_at info 0) numbers in
      let whole : g + 0 ≡ g = omega arith in
      let lp = processor os process_mask core (pair_at info g) bit in
      let found =
        scan_groups_complete os process_mask core info info.group_count 0 g bit lt small
          (rw whole there_set) in
      (
        lp,
        In-left lp (scan_groups os process_mask (number_of (pair_at d 0) numbers) d d.group_count 0)
            (scan_cores os process_mask numbers infos)
            (rw e (
              subst
                (λ n.
                  In (processor os process_mask core (pair_at info n) bit)
                    (scan_groups os process_mask core info info.group_count 0))
                whole found)),
        sym same,
        (refl, refl, refl),
      )
  scan_cores_complete info a (d ∷ infos) (inr there) of_core =
      let (lp, in_rest, same, new) = scan_cores_complete info a infos there of_core in
      (
        lp,
        In-right lp
            (scan_groups os process_mask (number_of (pair_at d 0) numbers) d d.group_count 0)
            (scan_cores os process_mask numbers infos) in_rest,
        same,
        new,
      )
