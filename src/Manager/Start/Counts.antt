-- ===== src/Manager/Start/Counts.antt =====
-- `initialize` of proc.cpp finds each core once.
use native.Mathlib.Decide.{ℕ_discrete}
use mathlib.Core.Logic.{ite}
use tailslayer_win.Common.{
  ℕ, suc, ◌+◌, ◌<◌, ◌≡◌, ◌≢◌, refl, ap, arith, List, [], ◌∷◌, none, some, length, find?-assign,
  weigh-assign_new, weigh-assign_old, length-eq_weigh, count, one_at, one_at_self, one_at_ne,
}
use tailslayer_win.Processors.{LogicalProcessor, unique_core_id}
use tailslayer_win.Manager.{CoreThreads, assign_threads}
use tailslayer_win.Manager.Valid.{CoreMap, lookup, lookup-assign_self}
use tailslayer_win.Manager.Start.{entry, joined}

-- The number of cores of which the list has a processor, other than those in `seen`.
abbrev pub core_count : List ℕ → List LogicalProcessor → ℕ
core_count seen [] = 0
core_count seen (lp ∷ lps) =
    ite (ℕ_discrete (count (unique_core_id lp) seen) 0)
      (suc (core_count (unique_core_id lp ∷ seen) lps)) (core_count seen lps)

-- `seen` has the keys of the map.
record Agree (seen : List ℕ) (cores : CoreMap) : Type 0 where
  absent : (k : ℕ) → count k seen ≡ 0 → lookup k cores ≡ none
  present : (k : ℕ) → 0 < count k seen → (c : CoreThreads) × (lookup k cores ≡ some c)

module _ (seen : List ℕ) (cores : CoreMap) (lp : LogicalProcessor) (i : ℕ)
    (h : Agree seen cores) where
  key : ℕ
  key = unique_core_id lp

  joined-present :
      (k : ℕ)
      → 0 < one_at key k + count k seen
      → (c : CoreThreads) × (lookup k (joined lp i cores) ≡ some c)
  unfolding key
  joined-present k pos = elim (ℕ_discrete (unique_core_id lp) k) [
    | yes same ↦ (
      entry lp i cores,
      rw (← same) (lookup-assign_self (unique_core_id lp) (entry lp i cores) cores),
    )
    | no other ↦
        let (c, there) = h.present k (omega (arith, one_at_ne (unique_core_id lp) k other)) in
        (c, ground (arith, find?-assign ℕ_discrete (unique_core_id lp) k (entry lp i cores) cores))
  ]

  joined-absent :
      (k : ℕ) → unique_core_id lp ≢ k → count k seen ≡ 0 → lookup k (joined lp i cores) ≡ none
  joined-absent k other zero_there =
      let before = h.absent k zero_there in
      ground (arith, find?-assign ℕ_discrete (unique_core_id lp) k (entry lp i cores) cores)

  joined-Agree_new : Agree (unique_core_id lp ∷ seen) (joined lp i cores)
  unfolding key
  joined-Agree_new = record {
    absent = λ k e. elim (ℕ_discrete (unique_core_id lp) k) [
      | yes same ↦ absurd (omega (arith, one_at_self k, ap (λ n. one_at n k) same))
      | no other ↦ joined-absent k other (omega arith)
    ];
    present = joined-present;
  }

  joined-Agree_old : 0 < count (unique_core_id lp) seen → Agree seen (joined lp i cores)
  joined-Agree_old known = record {
    absent = λ k e. elim (ℕ_discrete (unique_core_id lp) k) [
      | yes same ↦ absurd (omega (arith, ap (λ n. count n seen) same))
      | no other ↦ joined-absent k other e
    ];
    present = λ k pos. joined-present k (omega arith);
  }

module _ (seen : List ℕ) (lp : LogicalProcessor) (lps : List LogicalProcessor) where
  pub core_count-new :
      count (unique_core_id lp) seen ≡ 0
      → core_count seen (lp ∷ lps) ≡ suc (core_count (unique_core_id lp ∷ seen) lps)
  core_count-new new = ground arith

  pub core_count-old :
      count (unique_core_id lp) seen ≢ 0 → core_count seen (lp ∷ lps) ≡ core_count seen lps
  core_count-old old = ground arith

module _ (lp : LogicalProcessor) (i : ℕ) (cores : CoreMap) where
  joined-length_new :
      lookup (unique_core_id lp) cores ≡ none → length (joined lp i cores) ≡ suc (length cores)
  joined-length_new absent = omega (
    arith,
    length-eq_weigh cores,
    length-eq_weigh (joined lp i cores),
    weigh-assign_new ℕ_discrete (λ _. 1) (unique_core_id lp) (entry lp i cores) cores absent,
  )

  joined-length_old :
      (c : CoreThreads)
      → lookup (unique_core_id lp) cores ≡ some c
      → length (joined lp i cores) ≡ length cores
  joined-length_old c there = omega (
    arith,
    length-eq_weigh cores,
    length-eq_weigh (joined lp i cores),
    weigh-assign_old ℕ_discrete (λ _. 1) (unique_core_id lp) (entry lp i cores) c cores there,
  )

assign_threads-length :
    (lps : List LogicalProcessor) (i : ℕ) (seen : List ℕ) (cores : CoreMap)
    → Agree seen cores
    → length (assign_threads lps i cores) ≡ length cores + core_count seen lps
unfolding assign_threads
assign_threads-length [] i seen cores h = omega arith
assign_threads-length (lp ∷ lps) i seen cores h =
    elim (ℕ_discrete (count (unique_core_id lp) seen) 0) [
      | yes new ↦ rw (core_count-new seen lp lps new) (
          omega (
            arith,
            assign_threads-length lps (suc i) (unique_core_id lp ∷ seen) (joined lp i cores)
                (joined-Agree_new seen cores lp i h),
            joined-length_new lp i cores (h.absent (unique_core_id lp) new),
          ))
      | no old ↦
          let (c, there) = h.present (unique_core_id lp) (omega arith) in
          rw (core_count-old seen lp lps old) (
            omega (
              arith,
              assign_threads-length lps (suc i) seen (joined lp i cores)
                  (joined-Agree_old seen cores lp i h (omega arith)),
              joined-length_old lp i cores c there,
            ))
    ]

-- From no map at all, as many entries as the list has cores.
pub assign_threads-length_start :
    (lps : List LogicalProcessor) → length (assign_threads lps 0 []) ≡ core_count [] lps
assign_threads-length_start lps =
    let from =
      assign_threads-length lps 0 [] []
        (record { absent = λ k e. refl; present = λ k pos. elim pos [ ] }) in
    omega arith
