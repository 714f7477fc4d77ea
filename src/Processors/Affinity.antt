-- ===== src/Processors/Affinity.antt =====
-- `getPhysicalCoreThreadAffinity` of tailslayer/source/proc.cpp: the affinity masks of a core's threads.
mod Tests
use tailslayer_win.Common.{
  ℕ, ◌+◌, ◌≤◌, ◌<◌, ◌≡◌, ◌≢◌, ◌⊎◌, ◌↔◌, inl, inr, refl, sym, ap, ◌∙◌, arith, Bool, true, false,
  if◌then◌else◌, ◌==◌, ltb, lt→ltb, le→ltb, ==→eq, ==→ne, ==_refl, Bool-cases, List, [], ◌∷◌, ◌++◌,
  append-nil, append_assoc, Option, none, some, get_last?, In, In-left, In-right, In-append, subst,
}
use tailslayer_win.Processors.{AffinityMask, LogicalProcessor, Configuration}

-- The loop.
unfoldable pub push_masks : ℕ → List LogicalProcessor → List AffinityMask → List AffinityMask
push_masks core_id [] masks = masks
push_masks core_id (lp ∷ proc) masks =
    push_masks core_id proc
      (if core_id == lp.core_id then masks ++ lp.affinity_mask ∷ [] else masks)

-- It is left out when the core's number is larger than that of the last processor.
abbrev pub unless_above :
    Option LogicalProcessor → ℕ → List LogicalProcessor → List AffinityMask → List AffinityMask
unless_above none core_id proc masks = masks
unless_above (some last) core_id proc masks =
    if ltb last.core_id core_id then masks else push_masks core_id proc masks

unfoldable pub get_physical_core_thread_affinity :
    ℕ → Configuration → List AffinityMask → List AffinityMask
get_physical_core_thread_affinity core_id c masks =
    unless_above (get_last? c.proc) core_id c.proc masks

push_masks_keeps :
    (core_id : ℕ) (proc : List LogicalProcessor) (masks : List AffinityMask) (a : AffinityMask)
    → In a masks
    → In a (push_masks core_id proc masks)
unfolding push_masks
push_masks_keeps core_id [] masks a there = there
push_masks_keeps core_id (lp ∷ proc) masks a there = elim (Bool-cases (core_id == lp.core_id)) [
  | inl hit ↦ rw hit (
      push_masks_keeps core_id proc (masks ++ lp.affinity_mask ∷ []) a
        (In-left a masks (lp.affinity_mask ∷ []) there))
  | inr miss ↦ rw miss (push_masks_keeps core_id proc masks a there)
]

push_masks_complete :
    (core_id : ℕ) (proc : List LogicalProcessor) (masks : List AffinityMask) (lp : LogicalProcessor)
    → In lp proc
    → lp.core_id ≡ core_id
    → In lp.affinity_mask (push_masks core_id proc masks)
unfolding push_masks
push_masks_complete core_id [] masks lp there same = absurd there
push_masks_complete core_id (lq ∷ proc) masks lp (inl e) same =
    let hit : (core_id == lq.core_id) ≡ true =
      ap (λ n. core_id == n) (ap (λ x. x.core_id) e ∙ same) ∙ ==_refl core_id in
    rw hit (
      push_masks_keeps core_id proc (masks ++ lq.affinity_mask ∷ []) lp.affinity_mask (
        In-right lp.affinity_mask masks (lq.affinity_mask ∷ [])
          (inl (ap (λ x. x.affinity_mask) e))))
push_masks_complete core_id (lq ∷ proc) masks lp (inr there) same =
    push_masks_complete core_id proc _ lp there same

-- The masks of a core's processors.
abbrev pub OfCoreNumber : ℕ → List LogicalProcessor → AffinityMask → Type 0
OfCoreNumber core_id proc a =
    (lp : LogicalProcessor) × In lp proc × (lp.core_id ≡ core_id) × (lp.affinity_mask ≡ a)

push_masks_sound :
    (core_id : ℕ) (proc : List LogicalProcessor) (masks : List AffinityMask) (a : AffinityMask)
    → In a (push_masks core_id proc masks)
    → In a masks ⊎ OfCoreNumber core_id proc a
unfolding push_masks
push_masks_sound core_id [] masks a there = inl there
push_masks_sound core_id (lp ∷ proc) masks a there = elim (Bool-cases (core_id == lp.core_id)) [
  | inr miss ↦ later (push_masks_sound core_id proc masks a (rw miss at there))
  | inl hit ↦
      elim (push_masks_sound core_id proc (masks ++ lp.affinity_mask ∷ []) a (rw hit at there)) [
        | inr of_core ↦ later (inr of_core)
        | inl kept ↦ elim (In-append a masks (lp.affinity_mask ∷ []) kept) [
          | inl before ↦ inl before
          | inr (inl e) ↦ inr (lp, inl refl, sym (==→eq core_id lp.core_id hit), e)
          | inr (inr none_there) ↦ absurd none_there
        ]
      ]
]
  where
    later :
        In a masks ⊎ OfCoreNumber core_id proc a → In a masks ⊎ OfCoreNumber core_id (lp ∷ proc) a
    later (inl before) = inl before
    later (inr (lq, in_rest, same, mask)) = inr (lq, inr in_rest, same, mask)

-- For a core whose number is no larger than that of the last processor, the masks added are those
-- of the processors with that core number, whatever their package.
pub get_physical_core_thread_affinity_lem :
    (core_id : ℕ) (c : Configuration) (last : LogicalProcessor) (a : AffinityMask)
    → get_last? c.proc ≡ some last
    → core_id ≤ last.core_id
    → In a (get_physical_core_thread_affinity core_id c []) ↔ OfCoreNumber core_id c.proc a
unfolding get_physical_core_thread_affinity
get_physical_core_thread_affinity_lem core_id c last a e le =
    let run : get_physical_core_thread_affinity core_id c [] ≡ push_masks core_id c.proc [] =
      ap (λ o. unless_above o core_id c.proc []) e
      ∙ ap (λ b. if b then [] else push_masks core_id c.proc []) (le→ltb last.core_id core_id le) in
    (
      λ there. elim (push_masks_sound core_id c.proc [] a (subst (In a) run there)) [
        | inl none_there ↦ absurd none_there
        | inr of_core ↦ of_core
      ],
      λ (lp, there, same, mask). subst (In a) (sym run) (
          subst (λ m. In m (push_masks core_id c.proc [])) mask
            (push_masks_complete core_id c.proc [] lp there same)),
    )
