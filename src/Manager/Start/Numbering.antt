-- ===== src/Manager/Start/Numbering.antt =====
-- The threads of one core, by their place in the list of processors: what `initialize` of proc.cpp
-- is to collect.
use native.Mathlib.Decide.{ℕ_discrete}
use mathlib.Core.Logic.{ite}
use tailslayer_win.Common.{
  ℕ, zero, suc, ◌+◌, ◌≤◌, ◌<◌, ◌≡◌, ◌≢◌, refl, ap, ◌∙◌, arith, List, [], ◌∷◌, some, get_elem?,
  count, one_at, one_at_self, one_at_ne, one_at-le-one, some_injective, subst,
}
use tailslayer_win.Processors.{LogicalProcessor, unique_core_id}

-- The first processor of the list has number `i`.
abbrev pub threads_at : ℕ → ℕ → List LogicalProcessor → List ℕ
threads_at k i [] = []
threads_at k i (lp ∷ lps) =
    ite (ℕ_discrete (unique_core_id lp) k) (i ∷ threads_at k (suc i) lps) (threads_at k (suc i) lps)

module _ (k i : ℕ) (lp : LogicalProcessor) (lps : List LogicalProcessor) where
  pub threads_at-hit :
      unique_core_id lp ≡ k → threads_at k i (lp ∷ lps) ≡ i ∷ threads_at k (suc i) lps
  threads_at-hit hit = ground arith

  pub threads_at-miss : unique_core_id lp ≢ k → threads_at k i (lp ∷ lps) ≡ threads_at k (suc i) lps
  threads_at-miss miss = ground arith

threads_at-later :
    (k i j : ℕ) (lps : List LogicalProcessor) → j < i → count j (threads_at k i lps) ≡ 0
threads_at-later k i j [] lt = refl
threads_at-later k i j (lp ∷ lps) lt = elim (ℕ_discrete (unique_core_id lp) k) [
  | yes hit ↦
      rw (threads_at-hit k i lp lps hit)
        (omega (arith, threads_at-later k (suc i) j lps (omega arith), one_at_ne i j (omega arith)))
  | no miss ↦ rw (threads_at-miss k i lp lps miss) (threads_at-later k (suc i) j lps (omega arith))
]

pub threads_at-once : (k i j : ℕ) (lps : List LogicalProcessor) → count j (threads_at k i lps) ≤ 1
threads_at-once k i j [] = omega arith
threads_at-once k i j (lp ∷ lps) = elim (ℕ_discrete (unique_core_id lp) k) [
  | no miss ↦ rw (threads_at-miss k i lp lps miss) (threads_at-once k (suc i) j lps)
  | yes hit ↦ rw (threads_at-hit k i lp lps hit) (elim (ℕ_discrete i j) [
    | yes same ↦ omega (arith, threads_at-later k (suc i) j lps (omega arith), one_at-le-one i j)
    | no other ↦ omega (arith, threads_at-once k (suc i) j lps, one_at_ne i j other)
  ])
]

-- Only processors of the core are among them.
pub threads_at_sound :
    (k i j : ℕ) (lps : List LogicalProcessor)
    → 0 < count j (threads_at k i lps)
    → (d : ℕ) × (lp : LogicalProcessor) × (j ≡ i + d)
      × (get_elem? lps d ≡ some lp)
      × (unique_core_id lp ≡ k)
threads_at_sound k i j [] pos = elim pos [ ]
threads_at_sound k i j (lp ∷ lps) pos = elim (ℕ_discrete (unique_core_id lp) k) [
  | no miss ↦ later (
      threads_at_sound k (suc i) j lps
        (subst (λ ts. 0 < count j ts) (threads_at-miss k i lp lps miss) pos))
  | yes hit ↦ elim (ℕ_discrete i j) [
    | yes same ↦ (0, lp, omega arith, refl, hit)
    | no other ↦
        let pos' = subst (λ ts. 0 < count j ts) (threads_at-hit k i lp lps hit) pos in
        later (threads_at_sound k (suc i) j lps (omega (arith, one_at_ne i j other)))
  ]
]
  where
    later :
        (d : ℕ) × (lq : LogicalProcessor) × (j ≡ suc i + d)
          × (get_elem? lps d ≡ some lq)
          × (unique_core_id lq ≡ k)
        → (d : ℕ) × (lq : LogicalProcessor) × (j ≡ i + d)
          × (get_elem? (lp ∷ lps) d ≡ some lq)
          × (unique_core_id lq ≡ k)
    later (d, lq, e, at, of_core) = (suc d, lq, omega arith, at, of_core)

-- And all of them are.
pub threads_at_complete :
    (k i d : ℕ) (lps : List LogicalProcessor) (lp : LogicalProcessor)
    → get_elem? lps d ≡ some lp
    → unique_core_id lp ≡ k
    → 0 < count (i + d) (threads_at k i lps)
threads_at_complete k i d [] lp e of_core = absurd (cc)
threads_at_complete k i zero (lq ∷ lps) lp e of_core =
    let same : lq ≡ lp = some_injective e in
    let start : i ≡ i + 0 = omega arith in
    rw (threads_at-hit k i lq lps (ap unique_core_id same ∙ of_core)) (
      subst (λ n. 0 < one_at i n + count n (threads_at k (suc i) lps)) start
        (omega (arith, one_at_self i)))
threads_at_complete k i (suc d) (lq ∷ lps) lp e of_core =
    let rest = threads_at_complete k (suc i) d lps lp e of_core in
    let next : suc i + d ≡ i + suc d = omega arith in
    let there = subst (λ n. 0 < count n (threads_at k (suc i) lps)) next rest in
    elim (ℕ_discrete (unique_core_id lq) k) [
      | yes hit ↦ rw (threads_at-hit k i lq lps hit) (omega arith)
      | no miss ↦ rw (threads_at-miss k i lq lps miss) there
    ]
