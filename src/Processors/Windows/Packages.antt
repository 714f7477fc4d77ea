-- ===== src/Processors/Windows/Packages.antt =====
-- The second pass of `ProcessCurrentConfiguration` in proc.cpp changes package numbers only, and the
-- package of a processor depends on its affinity mask only.
use tailslayer_win.Common.{
  ℕ, zero, suc, ◌+◌, ◌%◌, ◌^◌, ◌<◌, ◌≡◌, inl, inr, refl, sym, ap, ◌∙◌, arith, Bool, true, false,
  if◌then◌else◌, Bool-cases, List, [], ◌∷◌, map, some, get_elem?, some_injective, In, subst,
}
use tailslayer_win.Processors.{AffinityMask, LogicalProcessor}
use tailslayer_win.Processors.Windows.{
  Info, KeyMap, pair_at, number_of, meets, assign_package, assign_packages, assign_global_ids,
}

-- Whether one of a package's group masks, from `g` on, has the processor.
abbrev pub in_package : Info → ℕ → ℕ → AffinityMask → Bool
in_package info zero g a = false
in_package info (suc left) g a =
    if meets (pair_at info g) a then true else in_package info left (suc g) a

-- All of them.
abbrev pub has_processor : Info → AffinityMask → Bool
has_processor info a = in_package info info.group_count 0 a

assign_package-already :
    (pkg_id : ℕ) (info : Info) (left g : ℕ) (lp : LogicalProcessor)
    → lp.pkg_id ≡ pkg_id % 2 ^ 16
    → (assign_package pkg_id info left g lp).pkg_id ≡ pkg_id % 2 ^ 16
unfolding assign_package
assign_package-already pkg_id info zero g lp e = e
assign_package-already pkg_id info (suc left) g lp e =
    assign_package-already pkg_id info left (suc g) _ (ground arith)

-- The package number one record leaves.
assign_package-pkg_id :
    (pkg_id : ℕ) (info : Info) (left g : ℕ) (lp : LogicalProcessor)
    → (assign_package pkg_id info left g lp).pkg_id
      ≡ (if in_package info left g lp.affinity_mask then pkg_id % 2 ^ 16 else lp.pkg_id)
unfolding assign_package
assign_package-pkg_id pkg_id info zero g lp = refl
assign_package-pkg_id pkg_id info (suc left) g lp =
    elim (Bool-cases (meets (pair_at info g) lp.affinity_mask)) [
      | inl hit ↦ assign_package-already pkg_id info left (suc g) next (rw hit refl) ∙ rw hit refl
      | inr miss ↦ assign_package-pkg_id pkg_id info left (suc g) next ∙ rw miss refl
    ]
  where
    next : LogicalProcessor
    next = record lp {
      pkg_id = if meets (pair_at info g) lp.affinity_mask then pkg_id % 2 ^ 16 else lp.pkg_id;
    }

assign_package-rest :
    (pkg_id : ℕ) (info : Info) (left g : ℕ) (lp : LogicalProcessor)
    → ((assign_package pkg_id info left g lp).core_id ≡ lp.core_id)
      × ((assign_package pkg_id info left g lp).affinity_mask ≡ lp.affinity_mask)
      × ((assign_package pkg_id info left g lp).usable ≡ lp.usable)
unfolding assign_package
assign_package-rest pkg_id info zero g lp = (refl, refl, refl)
assign_package-rest pkg_id info (suc left) g lp = assign_package-rest pkg_id info left (suc g) _

-- All records of packages, for one processor.
abbrev pub package_of : KeyMap → List Info → LogicalProcessor → LogicalProcessor
package_of numbers [] lp = lp
package_of numbers (info ∷ infos) lp =
    package_of numbers infos
      (assign_package (number_of (pair_at info 0) numbers) info info.group_count 0 lp)

map-map :
    (f g : LogicalProcessor → LogicalProcessor) (proc : List LogicalProcessor)
    → map g (map f proc) ≡ map (λ lp. g (f lp)) proc
map-map f g [] = refl
map-map f g (lp ∷ proc) = ap (◌∷◌ (g (f lp))) (map-map f g proc)

map_same : (proc : List LogicalProcessor) → proc ≡ map (λ lp. lp) proc
map_same [] = refl
map_same (lp ∷ proc) = ap (◌∷◌ lp) (map_same proc)

pub assign_packages-eq_map :
    (numbers : KeyMap) (infos : List Info) (proc : List LogicalProcessor)
    → assign_packages numbers infos proc ≡ map (package_of numbers infos) proc
unfolding assign_packages
assign_packages-eq_map numbers [] proc = map_same proc
assign_packages-eq_map numbers (info ∷ infos) proc =
    assign_packages-eq_map numbers infos
      (map (assign_package (number_of (pair_at info 0) numbers) info info.group_count 0) proc)
    ∙ map-map (assign_package (number_of (pair_at info 0) numbers) info info.group_count 0)
        (package_of numbers infos) proc

pub package_of-rest :
    (numbers : KeyMap) (infos : List Info) (lp : LogicalProcessor)
    → ((package_of numbers infos lp).core_id ≡ lp.core_id)
      × ((package_of numbers infos lp).affinity_mask ≡ lp.affinity_mask)
      × ((package_of numbers infos lp).usable ≡ lp.usable)
package_of-rest numbers [] lp = (refl, refl, refl)
package_of-rest numbers (info ∷ infos) lp =
    let step =
      assign_package-rest (number_of (pair_at info 0) numbers) info info.group_count 0 lp in
    let rest =
      package_of-rest numbers infos
        (assign_package (number_of (pair_at info 0) numbers) info info.group_count 0 lp) in
    (rest.0 ∙ step.0, rest.1 ∙ step.1, rest.2 ∙ step.2)

-- Two processors that every package has both of, or none of, come out in one package.
pub package_of-together :
    (numbers : KeyMap) (infos : List Info) (lp lq : LogicalProcessor)
    → ((info : Info)
        → In info infos
        → has_processor info lp.affinity_mask ≡ has_processor info lq.affinity_mask)
    → lp.pkg_id ≡ lq.pkg_id
    → (package_of numbers infos lp).pkg_id ≡ (package_of numbers infos lq).pkg_id
package_of-together numbers [] lp lq h e = e
package_of-together numbers (info ∷ infos) lp lq h e =
    let id = number_of (pair_at info 0) numbers in
    let step = λ (x : LogicalProcessor). assign_package id info info.group_count 0 x in
    let masks_p = (assign_package-rest id info info.group_count 0 lp).1 in
    let masks_q = (assign_package-rest id info info.group_count 0 lq).1 in
    package_of-together numbers infos (step lp) (step lq)
      (λ d there. rw (masks_p, masks_q) (h d (inr there)))
      (assign_package-pkg_id id info info.group_count 0 lp
        ∙ rw (h info (inl refl), e) refl
        ∙ sym (assign_package-pkg_id id info info.group_count 0 lq))

pub package_of-fits :
    (numbers : KeyMap) (infos : List Info) (lp : LogicalProcessor)
    → lp.pkg_id < 2 ^ 16
    → (package_of numbers infos lp).pkg_id < 2 ^ 16
package_of-fits numbers [] lp h = h
package_of-fits numbers (info ∷ infos) lp h =
    let id = number_of (pair_at info 0) numbers in
    package_of-fits numbers infos (assign_package id info info.group_count 0 lp) (
      rw (assign_package-pkg_id id info info.group_count 0 lp)
        (elim (Bool-cases (has_processor info lp.affinity_mask)) [
          | inl hit ↦ rw hit (omega arith)
          | inr miss ↦ rw miss h
        ]))

module _ (f : LogicalProcessor → LogicalProcessor) where
  pub In-map :
      (lp : LogicalProcessor) (proc : List LogicalProcessor) → In lp proc → In (f lp) (map f proc)
  In-map lp [] there = absurd there
  In-map lp (x ∷ proc) (inl e) = inl (ap f e)
  In-map lp (x ∷ proc) (inr there) = inr (In-map lp proc there)

  pub In-map_inv :
      (lp : LogicalProcessor) (proc : List LogicalProcessor)
      → In lp (map f proc)
      → (lq : LogicalProcessor) × In lq proc × (f lq ≡ lp)
  In-map_inv lp [] there = absurd there
  In-map_inv lp (x ∷ proc) (inl e) = (x, inl refl, e)
  In-map_inv lp (x ∷ proc) (inr there) =
      let (lq, in_proc, e) = In-map_inv lp proc there in (lq, inr in_proc, e)

-- The last loop numbers the processors and leaves the rest of them alone.
abbrev pub AlikeTo : LogicalProcessor → LogicalProcessor → Type 0
AlikeTo lq lp =
    (lp.core_id ≡ lq.core_id)
    × (lp.pkg_id ≡ lq.pkg_id)
    × (lp.affinity_mask ≡ lq.affinity_mask)
    × (lp.usable ≡ lq.usable)

pub assign_global_ids-numbered :
    (i : ℕ) (proc : List LogicalProcessor) (d : ℕ) (lp : LogicalProcessor)
    → get_elem? (assign_global_ids i proc) d ≡ some lp
    → lp.global_id ≡ i + d
unfolding assign_global_ids
assign_global_ids-numbered i [] d lp e = absurd (cc)
assign_global_ids-numbered i (x ∷ proc) zero lp e =
    ap (λ x. x.global_id) (sym (some_injective e)) ∙ omega arith
assign_global_ids-numbered i (x ∷ proc) (suc d) lp e =
    omega (arith, assign_global_ids-numbered (suc i) proc d lp e)

pub assign_global_ids_sound :
    (i : ℕ) (proc : List LogicalProcessor) (lp : LogicalProcessor)
    → In lp (assign_global_ids i proc)
    → (lq : LogicalProcessor) × In lq proc × AlikeTo lq lp
unfolding assign_global_ids
assign_global_ids_sound i [] lp there = absurd there
assign_global_ids_sound i (x ∷ proc) lp (inl e) = (
  x,
  inl refl,
  (
    ap (λ x. x.core_id) (sym e),
    ap (λ x. x.pkg_id) (sym e),
    ap (λ x. x.affinity_mask) (sym e),
    ap (λ x. x.usable) (sym e),
  ),
)
assign_global_ids_sound i (x ∷ proc) lp (inr there) =
    let (lq, in_proc, alike) = assign_global_ids_sound (suc i) proc lp there in
    (lq, inr in_proc, alike)

pub assign_global_ids_complete :
    (i : ℕ) (proc : List LogicalProcessor) (lq : LogicalProcessor)
    → In lq proc
    → (lp : LogicalProcessor) × In lp (assign_global_ids i proc) × AlikeTo lq lp
unfolding assign_global_ids
assign_global_ids_complete i [] lq there = absurd there
assign_global_ids_complete i (x ∷ proc) lq (inl e) = (
  record x { global_id = i },
  inl refl,
  subst (λ y. AlikeTo y (record x { global_id = i })) e (refl, refl, refl, refl),
)
assign_global_ids_complete i (x ∷ proc) lq (inr there) =
    let (lp, in_proc, alike) = assign_global_ids_complete (suc i) proc lq there in
    (lp, inr in_proc, alike)
