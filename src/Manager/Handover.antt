-- ===== src/Manager/Handover.antt =====
-- What `allocateThread` of proc.cpp hands out.
use native.Mathlib.Decide.{ℕ_discrete}
use tailslayer_win.Common.{
  ℕ, suc, ◌+◌, ◌<◌, ◌≡◌, ◌⊎◌, inl, inr, refl, sym, ap, ◌∙◌, arith, List, [], ◌∷◌, ◌++◌, some, false,
  length, get_elem?, assign, begin, begin-find?, split_last, weigh, weigh-entry, length-append,
  count, count-append, one_at, one_at_self, Outcome, ok, ◌>>=◌, ne→==,
}
use tailslayer_win.Processors.{LogicalProcessor, is_empty}
use tailslayer_win.Manager.{Manager, ThreadMap}
use tailslayer_win.Manager.Allocate.{move_core, take_back, allocate_thread}
use tailslayer_win.Manager.Valid.{IsValid, lookup, available, threads-bounded}
use tailslayer_win.Manager.Exclusive.{available-le-one}
use tailslayer_win.Manager.Threads.{
  moved, move_core-eq_moved, moved-IsValid, moved-available, taken, taken-IsValid, taken-available,
  take_back-eq_taken,
}

-- A run that hands out a thread of `m`, which is then on offer once less.
abbrev pub Handed : Manager → Outcome (LogicalProcessor × Manager) → Type 0
Handed m run =
    (lp : LogicalProcessor) × (n : Manager) × (run ≡ ok (lp, n))
    × (get_elem? m.config.proc lp.global_id ≡ some lp)
    × IsValid n
    × (n.config ≡ m.config)
    × (suc n.free_thread_count ≡ m.free_thread_count)
    × ((j : ℕ) → available j m ≡ available j n + one_at lp.global_id j)

-- The thread was on offer once and is not any longer.
abbrev pub Once : Manager → Outcome (LogicalProcessor × Manager) → Type 0
Once m run =
    (lp : LogicalProcessor) × (n : Manager) × (run ≡ ok (lp, n))
    × (get_elem? m.config.proc lp.global_id ≡ some lp)
    × IsValid n
    × (n.config ≡ m.config)
    × (suc n.free_thread_count ≡ m.free_thread_count)
    × (available lp.global_id m ≡ 1)
    × (available lp.global_id n ≡ 0)
    × ((j : ℕ) → available j m ≡ available j n + one_at lp.global_id j)

nonempty-cases : {A : Type 0} (xs : List A) → (xs ≡ []) ⊎ (0 < length xs)
nonempty-cases [] = inl refl
nonempty-cases (x ∷ xs) = inr (omega arith)

assign-nonempty : (k : ℕ) (ts : List ℕ) (m : ThreadMap) → 0 < length (assign ℕ_discrete k ts m)
assign-nonempty k ts [] = omega arith
assign-nonempty k ts ((j, us) ∷ m) = ground arith

empty_weighs : (m : ThreadMap) → length m ≡ 0 → weigh length m ≡ 0
empty_weighs [] e = refl
empty_weighs (x ∷ m) e = absurd (omega arith)

pub is_empty-nonempty : {A : Type 0} (xs : List A) → 0 < length xs → is_empty xs ≡ false
is_empty-nonempty [] h = elim h [ ]
is_empty-nonempty (x ∷ xs) h = refl

module _ (order : ThreadMap → ℕ) {m : Manager} (v : IsValid m) where
  -- Moving a core changes neither the offer nor the invariant.
  move_core_lem :
      0 < length m.free_cores
      → (n : Manager) × (move_core order m ≡ ok n)
        × IsValid n
        × (0 < length n.partially_free)
        × ((i : ℕ) → available i n ≡ available i m)
        × (n.config ≡ m.config)
        × (n.free_thread_count ≡ m.free_thread_count)
  unfolding moved
  move_core_lem pos =
      let (k, ts, first, found) = begin-find? ℕ_discrete order m.free_cores v.free.distinct pos in
      (
        moved order v k ts first found,
        move_core-eq_moved order v k ts first found,
        moved-IsValid order v k ts first found,
        assign-nonempty k ts m.partially_free,
        moved-available order v k ts first found,
        refl,
        refl,
      )

  take_back-from :
      (k : ℕ) (rest : List ℕ) (i : ℕ)
      → begin order m.partially_free ≡ some (k, rest ++ i ∷ [])
      → lookup k m.partially_free ≡ some (rest ++ i ∷ [])
      → Handed m (take_back order m)
  unfolding taken
  take_back-from k rest i first found =
      let (c, core, _, counts) = v.partial.entries k (rest ++ i ∷ []) found in
      let here : 0 < count i c.threads =
        omega (arith, counts i, count-append i rest (i ∷ []), one_at_self i) in
      let (lp, at, same, _) = v.cores.indexed k c i core here in
      (
        lp,
        taken order v k rest i found,
        take_back-eq_taken order v k rest i found lp first at,
        ap (get_elem? m.config.proc) same ∙ at,
        taken-IsValid order v k rest i found,
        refl,
        omega (
          arith,
          v.threads_counted,
          weigh-entry ℕ_discrete length k (rest ++ i ∷ []) m.partially_free found,
          length-append rest (i ∷ []),
          threads-bounded v,
          v.cores.bounded,
        ),
        λ j.
            taken-available order v k rest i found j
            ∙ ap (λ g. available j (taken order v k rest i found) + one_at g j) (sym same),
      )

  take_back_lem : 0 < length m.partially_free → Handed m (take_back order m)
  take_back_lem pos =
      let (k, ts, first, found) =
        begin-find? ℕ_discrete order m.partially_free v.partial.distinct pos in
      let (_, _, some_left, _) = v.partial.entries k ts found in
      let (rest, i, split) = split_last ts some_left in
      take_back-from k rest i (first ∙ ap (λ t. some (k, t)) split) (found ∙ ap some split)

  handed : {run : Outcome (LogicalProcessor × Manager)} → Handed m run → Once m run
  handed (lp, n, e, at, valid, config, fewer, counts) =
      let here = counts lp.global_id in
      let le = available-le-one v lp.global_id in
      let one = one_at_self lp.global_id in
      (lp, n, e, at, valid, config, fewer, omega arith, omega arith, counts)

  allocate_thread-partial :
      0 < m.free_thread_count
      → 0 < length m.partially_free
      → allocate_thread order m ≡ take_back order m
  unfolding allocate_thread
  allocate_thread-partial pos some_partial =
      rw
        (ne→== m.free_thread_count 0 (omega arith), is_empty-nonempty m.partially_free some_partial)

  allocate_thread-move :
      0 < m.free_thread_count
      → m.partially_free ≡ []
      → 0 < length m.free_cores
      → allocate_thread order m ≡ (move_core order m >>= take_back order)
  unfolding allocate_thread
  allocate_thread-move pos no_partial some_core = rw (
    ne→== m.free_thread_count 0 (omega arith),
    no_partial,
    is_empty-nonempty m.free_cores some_core,
  )

  some_free_core : 0 < m.free_thread_count → m.partially_free ≡ [] → 0 < length m.free_cores
  some_free_core pos no_partial = elim (nonempty-cases m.free_cores) [
    | inr h ↦ h
    | inl none_free ↦ absurd (
        omega (arith, v.threads_counted, ap (weigh length) no_partial, ap (weigh length) none_free))
  ]

  allocate-moved :
      (n : Manager)
      → move_core order m ≡ ok n
      → ((i : ℕ) → available i n ≡ available i m)
      → n.config ≡ m.config
      → n.free_thread_count ≡ m.free_thread_count
      → Handed n (take_back order n)
      → Handed m (move_core order m >>= take_back order)
  allocate-moved n e same config total (lp, n', e', at, valid, config', fewer, counts) = (
    lp,
    n',
    rw e e',
    rw (← config) at,
    valid,
    config' ∙ config,
    fewer ∙ total,
    λ j. sym (same j) ∙ counts j,
  )

-- A valid manager with a free thread hands out a logical processor of the machine that was on offer
-- exactly once and is then not on offer; every other thread stays on offer as before, the counter of
-- free threads drops by one, the description of the machine stays, and so does validity. This holds whichever order the maps are iterated in.
pub allocate_thread-Handed :
    (order : ThreadMap → ℕ) (m : Manager)
    → IsValid m
    → 0 < m.free_thread_count
    → (lp : LogicalProcessor) × (n : Manager) × (allocate_thread order m ≡ ok (lp, n))
      × (get_elem? m.config.proc lp.global_id ≡ some lp)
      × IsValid n
      × (n.config ≡ m.config)
      × (suc n.free_thread_count ≡ m.free_thread_count)
      × (available lp.global_id m ≡ 1)
      × (available lp.global_id n ≡ 0)
      × ((j : ℕ) → available j m ≡ available j n + one_at lp.global_id j)
allocate_thread-Handed order m v pos = elim (nonempty-cases m.partially_free) [
  | inr some_partial ↦
      rw (allocate_thread-partial order v pos some_partial)
        (handed order v (take_back_lem order v some_partial))
  | inl no_partial ↦
      let some_core = some_free_core order v pos no_partial in
      let (n, e, valid, some_partial, same, config, total) = move_core_lem order v some_core in
      rw (allocate_thread-move order v pos no_partial some_core) (
        handed order v
          (allocate-moved order v n e same config total (take_back_lem order valid some_partial)))
]
