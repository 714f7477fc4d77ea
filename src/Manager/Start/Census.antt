-- ===== src/Manager/Start/Census.antt =====
-- How many cores `initialize` of proc.cpp finds in a list whose core numbers run from 0 on and tell the
-- cores apart.
use native.Mathlib.Decide.{ℕ_discrete, dec_lt}
use mathlib.Core.Logic.{ite}
use tailslayer_win.Common.{
  ℕ, zero, suc, ◌+◌, ◌≤◌, ◌<◌, ◌≡◌, ◌≢◌, inl, inr, refl, sym, ap, ◌∙◌, arith, List, [], ◌∷◌, length,
  tabulate, length-tabulate, count, one_at, one_at_self, one_at_ne, length-le_of_counts, In,
}
use tailslayer_win.Processors.{LogicalProcessor, unique_core_id}
use tailslayer_win.Manager.Start.Counts.{core_count, core_count-new, core_count-old}

-- The core numbers of the list, each once, other than those in `seen`.
abbrev new_ids : List ℕ → List LogicalProcessor → List ℕ
new_ids seen [] = []
new_ids seen (lp ∷ lps) =
    ite (ℕ_discrete (count lp.core_id seen) 0) (lp.core_id ∷ new_ids (lp.core_id ∷ seen) lps)
      (new_ids seen lps)

module _ (seen : List ℕ) (lp : LogicalProcessor) (lps : List LogicalProcessor) where
  new_ids-new :
      count lp.core_id seen ≡ 0
      → new_ids seen (lp ∷ lps) ≡ lp.core_id ∷ new_ids (lp.core_id ∷ seen) lps
  new_ids-new new = ground arith

  new_ids-old : count lp.core_id seen ≢ 0 → new_ids seen (lp ∷ lps) ≡ new_ids seen lps
  new_ids-old old = ground arith

-- The number of a core and its identity tell the same processors apart.
abbrev pub ToldApart : List LogicalProcessor → Type 0
ToldApart lps =
    (lp lq : LogicalProcessor)
    → In lp lps
    → In lq lps
    → one_at (unique_core_id lp) (unique_core_id lq) ≡ one_at lp.core_id lq.core_id

core_count-length :
    (keys ids : List ℕ) (lps : List LogicalProcessor)
    → ToldApart lps
    → ((lp : LogicalProcessor) → In lp lps → count (unique_core_id lp) keys ≡ count lp.core_id ids)
    → core_count keys lps ≡ length (new_ids ids lps)
core_count-length keys ids [] apart same = refl
core_count-length keys ids (lp ∷ lps) apart same =
    let here = same lp (inl refl) in
    let apart' : ToldApart lps = λ lq lr p q. apart lq lr (inr p) (inr q) in
    elim (ℕ_discrete (count lp.core_id ids) 0) [
      | yes new ↦
          rw (core_count-new keys lp lps (here ∙ new), new_ids-new ids lp lps new)
            (ap suc (
              core_count-length (unique_core_id lp ∷ keys) (lp.core_id ∷ ids) lps apart'
                (λ lq there.
                  omega (arith, apart lp lq (inl refl) (inr there), same lq (inr there)))))
      | no old ↦
          rw (core_count-old keys lp lps (λ e. old (sym here ∙ e)), new_ids-old ids lp lps old)
            (core_count-length keys ids lps apart' (λ lq there. same lq (inr there)))
    ]

new_ids-seen :
    (i : ℕ) (seen : List ℕ) (lps : List LogicalProcessor)
    → 0 < count i seen
    → count i (new_ids seen lps) ≡ 0
new_ids-seen i seen [] pos = refl
new_ids-seen i seen (lp ∷ lps) pos = elim (ℕ_discrete (count lp.core_id seen) 0) [
  | yes new ↦
      let other : lp.core_id ≢ i = λ e. absurd (omega (arith, ap (λ n. count n seen) e)) in
      rw (new_ids-new seen lp lps new) (
        omega (
          arith,
          one_at_ne lp.core_id i other,
          new_ids-seen i (lp.core_id ∷ seen) lps (omega arith),
        ))
  | no old ↦ rw (new_ids-old seen lp lps old) (new_ids-seen i seen lps pos)
]

new_ids_once :
    (i : ℕ) (seen : List ℕ) (lps : List LogicalProcessor) → count i (new_ids seen lps) ≤ 1
new_ids_once i seen [] = omega arith
new_ids_once i seen (lp ∷ lps) = elim (ℕ_discrete (count lp.core_id seen) 0) [
  | no old ↦ rw (new_ids-old seen lp lps old) (new_ids_once i seen lps)
  | yes new ↦ rw (new_ids-new seen lp lps new) (elim (ℕ_discrete lp.core_id i) [
    | yes same ↦ omega (
      arith,
      ap (λ n. one_at n i) same,
      one_at_self i,
      new_ids-seen i (lp.core_id ∷ seen) lps
          (omega (arith, ap (λ n. one_at n i) same, one_at_self i)),
    )
    | no other ↦ omega (arith, one_at_ne lp.core_id i other, new_ids_once i (lp.core_id ∷ seen) lps)
  ])
]

new_ids_complete :
    (i : ℕ) (seen : List ℕ) (lps : List LogicalProcessor) (lp : LogicalProcessor)
    → In lp lps
    → lp.core_id ≡ i
    → count i seen ≡ 0
    → 0 < count i (new_ids seen lps)
new_ids_complete i seen [] lp there e fresh = absurd there
new_ids_complete i seen (lq ∷ lps) lp there e fresh = elim (ℕ_discrete lq.core_id i) [
  | yes same ↦
      rw (new_ids-new seen lq lps (rw same fresh))
        (omega (arith, ap (λ n. one_at n i) same, one_at_self i))
  | no other ↦
      let in_rest : In lp lps = elim there [
        | inl here ↦ absurd (other (ap (λ x. x.core_id) here ∙ e))
        | inr later ↦ later
      ] in
      elim (ℕ_discrete (count lq.core_id seen) 0) [
        | yes new ↦ rw (new_ids-new seen lq lps new) (
            omega (
              arith,
              new_ids_complete i (lq.core_id ∷ seen) lps lp in_rest e
                  (omega (arith, one_at_ne lq.core_id i other)),
            ))
        | no old ↦ rw (new_ids-old seen lq lps old) (new_ids_complete i seen lps lp in_rest e fresh)
      ]
]

new_ids_sound :
    (i : ℕ) (seen : List ℕ) (lps : List LogicalProcessor)
    → ((lp : LogicalProcessor) → In lp lps → lp.core_id ≢ i)
    → count i (new_ids seen lps) ≡ 0
new_ids_sound i seen [] none_there = refl
new_ids_sound i seen (lp ∷ lps) none_there = elim (ℕ_discrete (count lp.core_id seen) 0) [
  | yes new ↦ rw (new_ids-new seen lp lps new) (
      omega (
        arith,
        one_at_ne lp.core_id i (none_there lp (inl refl)),
        new_ids_sound i (lp.core_id ∷ seen) lps (λ lq there. none_there lq (inr there)),
      ))
  | no old ↦
      rw (new_ids-old seen lp lps old)
        (new_ids_sound i seen lps (λ lq there. none_there lq (inr there)))
]

abbrev range : ℕ → ℕ → List ℕ
range n j = tabulate n j (λ i. i)

range_below : (n j i : ℕ) → i < j → count i (range n j) ≡ 0
range_below zero j i lt = refl
range_below (suc n) j i lt =
    omega (arith, one_at_ne j i (omega arith), range_below n (suc j) i (omega arith))

range_above : (n j i : ℕ) → j + n ≤ i → count i (range n j) ≡ 0
range_above zero j i le = refl
range_above (suc n) j i le =
    omega (arith, one_at_ne j i (omega arith), range_above n (suc j) i (omega arith))

range_once : (n j i : ℕ) → j ≤ i → i < j + n → count i (range n j) ≡ 1
range_once zero j i le lt = absurd (omega arith)
range_once (suc n) j i le lt = elim (ℕ_discrete j i) [
  | yes same ↦
      omega (arith, ap (λ k. one_at k i) same, one_at_self i, range_below n (suc j) i (omega arith))
  | no other ↦
      omega (arith, one_at_ne j i other, range_once n (suc j) i (omega arith) (omega arith))
]

-- As many cores as core numbers.
pub core_count_lem :
    (n : ℕ) (lps : List LogicalProcessor)
    → ToldApart lps
    → ((lp : LogicalProcessor) → In lp lps → lp.core_id < n)
    → ((i : ℕ) → i < n → (lp : LogicalProcessor) × In lp lps × (lp.core_id ≡ i))
    → core_count [] lps ≡ n
core_count_lem n lps apart below onto = omega (
  arith,
  core_count-length [] [] lps apart (λ lp there. refl),
  length-tabulate n 0 (λ i. i),
  length-le_of_counts (new_ids [] lps) (range n 0) (λ i. omega (arith, same i)),
  length-le_of_counts (range n 0) (new_ids [] lps) (λ i. omega (arith, same i)),
)
  where
    same : (i : ℕ) → count i (new_ids [] lps) ≡ count i (range n 0)
    same i = elim (dec_lt i n) [
      | yes lt ↦
          let (lp, there, e) = onto i lt in
          omega (
            arith,
            new_ids_once i [] lps,
            new_ids_complete i [] lps lp there e refl,
            range_once n 0 i (omega arith) (omega arith),
          )
      | no ge ↦ omega (
        arith,
        new_ids_sound i [] lps (λ lp there e. absurd (omega (arith, below lp there))),
        range_above n 0 i (omega arith),
      )
    ]
