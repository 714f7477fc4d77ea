-- ===== src/Manager/Start.antt =====
-- `initialize(existingConfig)` of proc.cpp: a manager in which every thread is on offer.
pub mod Numbering
pub mod Copies
pub mod Counts
pub mod Fresh
mod Census
pub mod Detected
pub mod Uncounted
mod Tests
use native.Mathlib.Decide.{ℕ_discrete}
use tailslayer_win.Common.{
  ℕ, zero, suc, ◌+◌, ◌-◌, ◌^◌, ◌≤◌, ◌<◌, ◌≡◌, ◌≢◌, ◌⊎◌, inl, inr, refl, sym, ap, ◌∙◌, arith, Bool,
  true, false, List, [], ◌∷◌, ◌++◌, append-nil, append_assoc, Option, none, some, length,
  length-append, get_elem?, find?, find?-assign, find?-assign_inv, assign, assign-new, Option-cases,
  Distinct, Distinct-assign, weigh, weigh-assign_new, weigh-assign_old, count, some_injective,
}
use tailslayer_win.Processors.{LogicalProcessor, Configuration, unique_core_id}
use tailslayer_win.Manager.{
  Manager, CoreThreads, ThreadMap, threads_of, assign_threads, count_threads, add_free_cores,
  initialize_with,
}
use tailslayer_win.Manager.Valid.{
  IsValid, CoresOk, CoreMap, lookup, available, IsThread, threads_of-eq, threads_of-none,
  lookup-assign_self,
}
use tailslayer_win.Manager.Exclusive.{lookup-head, lookup-tail}
use tailslayer_win.Manager.Start.Numbering.{threads_at, threads_at-hit, threads_at-miss}

-- The entry the first loop leaves at the core of `lp`.
abbrev pub entry : LogicalProcessor → ℕ → CoreMap → CoreThreads
entry lp i cores =
    let old = threads_of (unique_core_id lp) cores in record old { threads = old.threads ++ i ∷ [] }

abbrev pub joined : LogicalProcessor → ℕ → CoreMap → CoreMap
joined lp i cores = assign ℕ_discrete (unique_core_id lp) (entry lp i cores) cores

module _ (lp : LogicalProcessor) (i : ℕ) (cores : CoreMap) where
  joined-same :
      (threads_of (unique_core_id lp) (joined lp i cores)).threads
      ≡ (threads_of (unique_core_id lp) cores).threads ++ i ∷ []
  joined-same =
      ap (λ c. c.threads)
        (threads_of-eq (unique_core_id lp) (entry lp i cores) (joined lp i cores)
          (lookup-assign_self (unique_core_id lp) (entry lp i cores) cores))

  joined-other :
      (k : ℕ) → unique_core_id lp ≢ k → threads_of k (joined lp i cores) ≡ threads_of k cores
  joined-other k miss =
      ground (arith, find?-assign ℕ_discrete (unique_core_id lp) k (entry lp i cores) cores)

joined-threads :
    (lp : LogicalProcessor) (i : ℕ) (cores : CoreMap) (k : ℕ) (lps : List LogicalProcessor)
    → (threads_of k (joined lp i cores)).threads ++ threads_at k (suc i) lps
      ≡ (threads_of k cores).threads ++ threads_at k i (lp ∷ lps)
joined-threads lp i cores k lps = elim (ℕ_discrete (unique_core_id lp) k) [
  | no miss ↦ rw (threads_at-miss k i lp lps miss, joined-other lp i cores k miss) refl
  | yes hit ↦
      rw (threads_at-hit k i lp lps hit, ← hit, joined-same lp i cores)
        (append_assoc (threads_of (unique_core_id lp) cores).threads (i ∷ [])
          (threads_at (unique_core_id lp) (suc i) lps))
]

-- The first loop leaves each core the threads it had and then those of the rest of the list.
pub assign_threads-threads :
    (lps : List LogicalProcessor) (i : ℕ) (cores : CoreMap) (k : ℕ)
    → (threads_of k (assign_threads lps i cores)).threads
      ≡ (threads_of k cores).threads ++ threads_at k i lps
unfolding assign_threads
assign_threads-threads [] i cores k = sym (append-nil (threads_of k cores).threads)
assign_threads-threads (lp ∷ lps) i cores k =
    assign_threads-threads lps (suc i) (joined lp i cores) k ∙ joined-threads lp i cores k lps

pub assign_threads-Distinct :
    (lps : List LogicalProcessor) (i : ℕ) (cores : CoreMap)
    → Distinct ℕ_discrete cores
    → Distinct ℕ_discrete (assign_threads lps i cores)
unfolding assign_threads
assign_threads-Distinct [] i cores d = d
assign_threads-Distinct (lp ∷ lps) i cores d =
    assign_threads-Distinct lps (suc i) (joined lp i cores)
      (Distinct-assign ℕ_discrete (unique_core_id lp) (entry lp i cores) cores d)

abbrev pub Inhabited : CoreMap → Type 0
Inhabited cores = (k : ℕ) (c : CoreThreads) → lookup k cores ≡ some c → 0 < length c.threads

joined-Inhabited :
    (lp : LogicalProcessor) (i : ℕ) (cores : CoreMap)
    → Inhabited cores
    → Inhabited (joined lp i cores)
joined-Inhabited lp i cores h k c e =
    let key = unique_core_id lp in
    let old = threads_of key cores in
    elim (find?-assign_inv ℕ_discrete key k (entry lp i cores) c cores e) [
      | inl (_, same) ↦
          omega (arith, ap (λ c. length c.threads) same, length-append old.threads (i ∷ []))
      | inr (_, before) ↦ h k c before
    ]

pub assign_threads-Inhabited :
    (lps : List LogicalProcessor) (i : ℕ) (cores : CoreMap)
    → Inhabited cores
    → Inhabited (assign_threads lps i cores)
unfolding assign_threads
assign_threads-Inhabited [] i cores h = h
assign_threads-Inhabited (lp ∷ lps) i cores h =
    assign_threads-Inhabited lps (suc i) (joined lp i cores) (joined-Inhabited lp i cores h)

joined-weigh :
    (lp : LogicalProcessor) (i : ℕ) (cores : CoreMap)
    → weigh (λ c. length c.threads) (joined lp i cores) ≡ suc (weigh (λ c. length c.threads) cores)
joined-weigh lp i cores = elim (Option-cases (lookup key cores)) [
  | inl absent ↦ omega (
    arith,
    weigh-assign_new ℕ_discrete (λ c. length c.threads) key (entry lp i cores) cores absent,
    length-append old.threads (i ∷ []),
    ap (λ c. length c.threads) (threads_of-none key cores absent),
  )
  | inr (c, found) ↦ omega (
    arith,
    weigh-assign_old ℕ_discrete (λ c. length c.threads) key (entry lp i cores) c cores found,
    length-append old.threads (i ∷ []),
    ap (λ c. length c.threads) (threads_of-eq key c cores found),
  )
]
  where
    key : ℕ
    key = unique_core_id lp

    old : CoreThreads
    old = threads_of key cores

-- The first loop assigns each thread once.
pub assign_threads-weigh :
    (lps : List LogicalProcessor) (i : ℕ) (cores : CoreMap)
    → weigh (λ c. length c.threads) (assign_threads lps i cores)
      ≡ length lps + weigh (λ c. length c.threads) cores
unfolding assign_threads
assign_threads-weigh [] i cores = omega arith
assign_threads-weigh (lp ∷ lps) i cores =
    omega (arith, assign_threads-weigh lps (suc i) (joined lp i cores), joined-weigh lp i cores)
