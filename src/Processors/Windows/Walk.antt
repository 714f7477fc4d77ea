-- ===== src/Processors/Windows/Walk.antt =====
-- What the walk over the records in `ProcessCurrentConfiguration` of proc.cpp keeps: the records of
-- cores and of packages, and a number for each key of a core.
use tailslayer_win.Common.{
  ℕ, suc, ◌+◌, ◌^◌, ◌≤◌, ◌<◌, ◌≡◌, inl, inr, refl, ap, ◌∙◌, arith, List, [], ◌∷◌, ◌++◌, none, some,
  length, Option-cases, In, In-left, In-right, In-append, subst,
}
use tailslayer_win.Processors.Windows.{
  GroupPair, Info, Relationship, processor_core, processor_package, other_relation, KeyMap, Found,
  pair_at, find_info, find_infos, nothing_found,
}
use tailslayer_win.Processors.Windows.Numbering.{
  number?, IsNumbering, start-IsNumbering, number_key-new, number_key-old, extended, extended_keeps,
  extended_inv, extended_self, extended-IsNumbering,
}

-- Of a record of a core: its key has a number, and each number was given for such a record.
pub record IsFound (f : Found) : Type 0 where
  pub numbering : IsNumbering f.core_map f.next_core_id
  pub keyed :
      (info : Info)
      → In info f.core_infos
      → (n : ℕ) × (number? (pair_at info 0) f.core_map ≡ some n)
  pub origin :
      (k : GroupPair) (n : ℕ)
      → number? k f.core_map ≡ some n
      → (info : Info) × In info f.core_infos × (pair_at info 0 ≡ k)

abbrev with_core : Info → Found → KeyMap × ℕ → Found
with_core info f r = record f {
  core_infos = f.core_infos ++ info ∷ [];
  core_map = r.0;
  next_core_id = r.1;
}

module _ (info : Info) (f : Found) (h : IsFound f) where
  with_core-IsFound_new :
      number? (pair_at info 0) f.core_map ≡ none
      → IsFound (
          with_core info f
            (extended (pair_at info 0) f.core_map f.next_core_id, suc f.next_core_id))
  with_core-IsFound_new new =
      let key = pair_at info 0 in
      record {
        numbering = extended-IsNumbering key f.core_map f.next_core_id h.numbering new;
        keyed = λ d there. elim (In-append d f.core_infos (info ∷ []) there) [
          | inl before ↦
              let (n, e) = h.keyed d before in
              (n, extended_keeps key f.core_map f.next_core_id h.numbering new (pair_at d 0) n e)
          | inr (inl same) ↦ (
            f.next_core_id,
            subst
                (λ d.
                  number? (pair_at d 0) (extended key f.core_map f.next_core_id)
                  ≡ some f.next_core_id)
                same (extended_self key f.core_map f.next_core_id h.numbering new),
          )
          | inr (inr none_there) ↦ absurd none_there
        ];
        origin = λ k n e. elim (extended_inv key f.core_map f.next_core_id h.numbering new k n e) [
          | inl (same, _) ↦ (info, In-right info f.core_infos (info ∷ []) (inl refl), same)
          | inr before ↦
              let (d, there, same) = h.origin k n before in
              (d, In-left d f.core_infos (info ∷ []) there, same)
        ];
      }

  with_core-IsFound_old :
      (n : ℕ)
      → number? (pair_at info 0) f.core_map ≡ some n
      → IsFound (with_core info f (f.core_map, f.next_core_id))
  with_core-IsFound_old n old = record {
    numbering = h.numbering;
    keyed = λ d there. elim (In-append d f.core_infos (info ∷ []) there) [
      | inl before ↦ h.keyed d before
      | inr (inl same) ↦ (n, subst (λ d. number? (pair_at d 0) f.core_map ≡ some n) same old)
      | inr (inr none_there) ↦ absurd none_there
    ];
    origin = λ k m e.
        let (d, there, same) = h.origin k m e in
        (d, In-left d f.core_infos (info ∷ []) there, same);
  }

  find_info-IsFound :
      (r : Relationship) → suc f.next_core_id < 2 ^ 32 → IsFound (find_info info r f)
  unfolding find_info
  find_info-IsFound processor_core few = elim (Option-cases (number? (pair_at info 0) f.core_map)) [
    | inl new ↦
        rw (number_key-new (pair_at info 0) f.core_map f.next_core_id new few)
          (with_core-IsFound_new new)
    | inr (n, old) ↦
        rw (number_key-old (pair_at info 0) f.core_map f.next_core_id n old)
          (with_core-IsFound_old n old)
  ]
  find_info-IsFound processor_package few = record {
    numbering = h.numbering;
    keyed = h.keyed;
    origin = h.origin;
  }
  find_info-IsFound other_relation few = h

-- A record takes one number at most.
find_info-next :
    (info : Info) (r : Relationship) (f : Found)
    → suc f.next_core_id < 2 ^ 32
    → (find_info info r f).next_core_id ≤ suc f.next_core_id
unfolding find_info
find_info-next info processor_core f few =
    elim (Option-cases (number? (pair_at info 0) f.core_map)) [
      | inl new ↦
          rw (number_key-new (pair_at info 0) f.core_map f.next_core_id new few) (omega arith)
      | inr (n, old) ↦
          rw (number_key-old (pair_at info 0) f.core_map f.next_core_id n old) (omega arith)
    ]
find_info-next info processor_package f few = omega arith
find_info-next info other_relation f few = omega arith

find_infos-IsFound :
    (infos : List Info) (f : Found)
    → IsFound f
    → f.next_core_id + length infos < 2 ^ 32
    → IsFound (find_infos infos f)
      × ((find_infos infos f).next_core_id ≤ f.next_core_id + length infos)
unfolding find_infos
find_infos-IsFound [] f h few = (h, omega arith)
find_infos-IsFound (info ∷ infos) f h few =
    let less : suc f.next_core_id < 2 ^ 32 = omega arith in
    let step = find_info-next info info.relationship f less in
    let (found, rest) =
      find_infos-IsFound infos (find_info info info.relationship f)
        (find_info-IsFound info f h info.relationship less) (omega arith) in
    (found, omega arith)

pub walk-IsFound :
    (infos : List Info)
    → length infos < 2 ^ 32
    → IsFound (find_infos infos nothing_found)
      × ((find_infos infos nothing_found).next_core_id ≤ length infos)
walk-IsFound infos few =
    let (found, small) =
      find_infos-IsFound infos nothing_found
        (record {
          numbering = start-IsNumbering;
          keyed = λ info there. absurd there;
          origin = λ k n e. absurd (cc);
        })
        (omega arith) in
    (found, omega arith)

-- The records kept are records of the buffer, each of its kind.
module _ (P : Info → Type 0) where
  abbrev AllOf : Relationship → List Info → Type 0
  AllOf r kept = (info : Info) → In info kept → P info × (info.relationship ≡ r)

  AllOf-last :
      (r : Relationship) (kept : List Info) (info : Info)
      → AllOf r kept
      → P info
      → info.relationship ≡ r
      → AllOf r (kept ++ info ∷ [])
  AllOf-last r kept info h p same d there = elim (In-append d kept (info ∷ []) there) [
    | inl before ↦ h d before
    | inr (inl e) ↦ subst (λ d. P d × (d.relationship ≡ r)) e (p, same)
    | inr (inr none_there) ↦ absurd none_there
  ]

  find_info-AllOf :
      (info : Info) (r : Relationship) (f : Found)
      → info.relationship ≡ r
      → P info
      → AllOf processor_core f.core_infos
      → AllOf processor_package f.package_infos
      → AllOf processor_core (find_info info r f).core_infos
        × AllOf processor_package (find_info info r f).package_infos
  unfolding find_info
  find_info-AllOf info processor_core f same p c q =
      (AllOf-last processor_core f.core_infos info c p same, q)
  find_info-AllOf info processor_package f same p c q =
      (c, AllOf-last processor_package f.package_infos info q p same)
  find_info-AllOf info other_relation f same p c q = (c, q)

  pub find_infos-AllOf :
      (infos : List Info) (f : Found)
      → ((info : Info) → In info infos → P info)
      → AllOf processor_core f.core_infos
      → AllOf processor_package f.package_infos
      → AllOf processor_core (find_infos infos f).core_infos
        × AllOf processor_package (find_infos infos f).package_infos
  unfolding find_infos
  find_infos-AllOf [] f all c q = (c, q)
  find_infos-AllOf (info ∷ infos) f all c q =
      let (c', q') = find_info-AllOf info info.relationship f refl (all info (inl refl)) c q in
      find_infos-AllOf infos (find_info info info.relationship f) (λ d there. all d (inr there)) c'
        q'

-- Every record of a core is kept.
find_info-keeps :
    (d info : Info) (r : Relationship) (f : Found)
    → In d f.core_infos
    → In d (find_info info r f).core_infos
unfolding find_info
find_info-keeps d info processor_core f h = In-left d f.core_infos (info ∷ []) h
find_info-keeps d info processor_package f h = h
find_info-keeps d info other_relation f h = h

find_infos-keeps :
    (d : Info) (infos : List Info) (f : Found)
    → In d f.core_infos
    → In d (find_infos infos f).core_infos
unfolding find_infos
find_infos-keeps d [] f h = h
find_infos-keeps d (info ∷ infos) f h =
    find_infos-keeps d infos (find_info info info.relationship f)
      (find_info-keeps d info info.relationship f h)

find_info-core :
    (info : Info) (r : Relationship) (f : Found)
    → r ≡ processor_core
    → In info (find_info info r f).core_infos
unfolding find_info
find_info-core info processor_core f e = In-right info f.core_infos (info ∷ []) (inl refl)
find_info-core info processor_package f e = absurd (cc)
find_info-core info other_relation f e = absurd (cc)

pub find_infos_complete :
    (d : Info) (infos : List Info) (f : Found)
    → In d infos
    → d.relationship ≡ processor_core
    → In d (find_infos infos f).core_infos
unfolding find_infos
find_infos_complete d [] f there core = absurd there
find_infos_complete d (info ∷ infos) f (inl e) core =
    subst (λ x. In x (find_infos infos (find_info info info.relationship f)).core_infos) e
      (find_infos-keeps info infos (find_info info info.relationship f)
        (find_info-core info info.relationship f (ap (λ x. x.relationship) e ∙ core)))
find_infos_complete d (info ∷ infos) f (inr there) core =
    find_infos_complete d infos (find_info info info.relationship f) there core
