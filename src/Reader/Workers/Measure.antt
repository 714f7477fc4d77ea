-- ===== src/Reader/Workers/Measure.antt =====
-- How many steps the workers of hedged_reader.hpp and their owner still have before them.
use native.Mathlib.Decide.{ℕ_discrete, dec_lt}
use tailslayer_win.Common.{
  ℕ, zero, suc, ◌+◌, ◌-◌, ◌*◌, ◌≤◌, ◌<◌, ◌≡◌, ◌≢◌, refl, sym, ap, arith, Bool, true, false,
  if◌then◌else◌, get_or, subst,
}
use tailslayer_win.Platform.Host.{set_current_thread_processor_id}
use tailslayer_win.Reader.{Reader, worker_read}
use tailslayer_win.Reader.Workers.{
  Affinity, Phase, absent, created, pinned, reading, finished, dangling, Owner, starting, joining,
  destroyed, State, update, start_worker, after_delay, pin_worker, take_index, read_value,
  after_join, release_page, Step, start, delay, pin, wait, read, join, pass, release, Run, here,
  next, first_state,
}
use tailslayer_win.Reader.Workers.Phases.{IsPresent, IsFinished}
use tailslayer_win.Reader.Workers.Runs.{Inv, Run-Inv, OwnerOk}

-- The steps a worker, and the owner, still have before them.
abbrev steps_left {ℓ} : {A : Type ℓ} → Phase A → ℕ
steps_left absent = 3
steps_left created = 3
steps_left (pinned affinity) = 2
steps_left (reading affinity read_index) = 1
steps_left (finished affinity read_index value) = 0
steps_left dangling = 0

abbrev owner_steps : ℕ → Owner → ℕ
owner_steps n (starting k) = (n - k) + n + 2
owner_steps n (joining k) = (n - k) + 1
owner_steps n destroyed = 0

module _ {ℓ} {A : Type ℓ} where
  -- Over the workers below `k`.
  total : ℕ → (ℕ → Phase A) → ℕ
  total zero worker = 0
  total (suc k) worker = steps_left (worker k) + total k worker

  update_self : (i : ℕ) (p : Phase A) (worker : ℕ → Phase A) → update i p worker i ≡ p
  update_self i p worker = ground arith

  update_other :
      (i j : ℕ) (p : Phase A) (worker : ℕ → Phase A) → i ≢ j → update i p worker j ≡ worker j
  update_other i j p worker other = ground arith

  total_above :
      (k i : ℕ) (p : Phase A) (worker : ℕ → Phase A)
      → k ≤ i
      → total k (update i p worker) ≡ total k worker
  unfolding total
  total_above zero i p worker le = refl
  total_above (suc k) i p worker le = omega (
    arith,
    ap steps_left (update_other i k p worker (λ e. absurd (omega arith))),
    total_above k i p worker (omega arith),
  )

  total-update :
      (k i : ℕ) (p : Phase A) (worker : ℕ → Phase A)
      → i < k
      → total k (update i p worker) + steps_left (worker i) ≡ total k worker + steps_left p
  unfolding total
  total-update zero i p worker lt = absurd (omega arith)
  total-update (suc k) i p worker lt = elim (ℕ_discrete i k) [
    | yes last ↦ omega (
      arith,
      ap (λ j. steps_left (update i p worker j)) last,
      ap (λ j. steps_left (worker j)) last,
      ap steps_left (update_self i p worker),
      total_above k i p worker (omega arith),
    )
    | no other ↦ omega (
      arith,
      ap steps_left (update_other i k p worker other),
      total-update k i p worker (omega arith),
    )
  ]

  pub measure : ℕ → State A → ℕ
  measure n s = total n s.worker + owner_steps n s.owner

  finished_last :
      (k : ℕ) (worker : ℕ → Phase A)
      → ((j : ℕ) → j < k → IsFinished (worker j))
      → total k worker ≡ 0
  unfolding total
  finished_last zero worker h = refl
  finished_last (suc k) worker h = omega (
    arith,
    none_left (worker k) (h k (omega arith)),
    finished_last k worker (λ j lt. h j (omega arith)),
  )
    where
      none_left : (p : Phase A) → IsFinished p → steps_left p ≡ 0
      none_left absent f = absurd f
      none_left created f = absurd f
      none_left (pinned affinity) f = absurd f
      none_left (reading affinity read_index) f = absurd f
      none_left (finished affinity read_index value) f = refl
      none_left dangling f = absurd f

total_first {ℓ} : (A : Type ℓ) (k : ℕ) → total k (first_state {A = A}).worker ≡ 3 * k
unfolding total
total_first A zero = refl
total_first A (suc k) = omega (arith, total_first A k)

module _ {ℓ} {A : Type ℓ} (size_of n : ℕ) (r : Reader A) (Signals : ℕ → Type 0) where
  -- A worker that has a thread is one of the `n`.
  pub in_range :
      (owner : Owner) (worker : ℕ → Phase A) (live : Bool) (i : ℕ)
      → OwnerOk size_of n r Signals owner worker live
      → IsPresent (worker i)
      → i < n
  in_range (starting k) worker live i (_, le, _, gone) p = elim (dec_lt i n) [
    | yes lt ↦ lt
    | no ge ↦ absurd (subst IsPresent (gone i (omega arith)) p)
  ]
  in_range (joining k) worker live i (_, _, _, gone, _) p = elim (dec_lt i n) [
    | yes lt ↦ lt
    | no ge ↦ absurd (subst IsPresent (gone i (omega arith)) p)
  ]
  in_range destroyed worker live i (_, gone) p = elim (dec_lt i n) [
    | yes lt ↦ lt
    | no ge ↦ absurd (subst IsPresent (gone i (omega arith)) p)
  ]

  moved-measure :
      (i : ℕ) (p q : Phase A) (s : State A)
      → Inv size_of n r Signals s
      → s.worker i ≡ p
      → IsPresent p
      → steps_left p ≡ suc (steps_left q)
      → measure n s ≡ suc (measure n (record s { worker = update i q s.worker }))
  unfolding measure
  moved-measure i p q s h e present down =
      let lt =
        in_range s.owner s.worker s.page_live i h.owner_ok (subst IsPresent (sym e) present) in
      omega (arith, total-update n i q s.worker lt, ap steps_left e)

  read-down :
      (i : ℕ) (affinity : Affinity) (read_index : ℕ) (live : Bool)
      → let before : Phase A = reading affinity read_index in
        steps_left before
        ≡ suc (
            steps_left (
              if live
              then finished affinity read_index (worker_read size_of r i read_index)
              else dangling))
  read-down i affinity read_index true = refl
  read-down i affinity read_index false = refl

  -- Each step is one step less to go.
  pub Step-measure :
      {s t : State A}
      → Step size_of n r Signals s t
      → Inv size_of n r Signals s
      → measure n s ≡ suc (measure n t)
  unfolding measure start_worker after_delay pin_worker take_index read_value after_join
      release_page
  Step-measure {s = s} (start i e lt) h =
      let (l, le, there, gone) =
        subst (λ o. OwnerOk size_of n r Signals o s.worker s.page_live) e h.owner_ok in
      omega (
        arith,
        ap (owner_steps n) e,
        ap steps_left (gone i (omega arith)),
        total-update n i created s.worker lt,
      )
  Step-measure {s = s} (delay e) h = omega (arith, ap (owner_steps n) e)
  Step-measure {s = s} (pin accepted i e) h =
      let affinity = set_current_thread_processor_id accepted (get_or r.cores i 0) in
      moved-measure i created (pinned affinity) s h e tt refl
  Step-measure {s = s} (wait i affinity read_index e signal) h =
      moved-measure i (pinned affinity) (reading affinity read_index) s h e tt refl
  Step-measure {s = s} (read i affinity read_index e) h =
      moved-measure i (reading affinity read_index) _ s h e tt
        (read-down i affinity read_index s.page_live)
  Step-measure {s = s} (join i e lt back) h = omega (arith, ap (owner_steps n) e)
  Step-measure {s = s} (pass i e lt gone) h = omega (arith, ap (owner_steps n) e)
  Step-measure {s = s} (release e) h =
      let (l, le, there, gone, joined) =
        subst (λ o. OwnerOk size_of n r Signals o s.worker s.page_live) e h.owner_ok in
      omega (arith, ap (owner_steps n) e, finished_last n s.worker joined)

  pub Run-measure :
      {s : State A} {k : ℕ} {t : State A}
      → Run size_of n r Signals s k t
      → Inv size_of n r Signals s
      → measure n s ≡ k + measure n t
  Run-measure here h = omega arith
  Run-measure (next run step) h =
      omega (arith, Run-measure run h, Step-measure step (Run-Inv size_of n r Signals run h))

  pub measure_first : measure n (first_state {A = A}) ≡ 5 * n + 2
  unfolding measure
  measure_first = omega (arith, total_first A n)

  pub destroyed-measure :
      (s : State A) → Inv size_of n r Signals s → s.owner ≡ destroyed → measure n s ≡ 0
  unfolding measure
  destroyed-measure s h over =
      let (joined, gone) =
        subst (λ o. OwnerOk size_of n r Signals o s.worker s.page_live) over h.owner_ok in
      omega (arith, ap (owner_steps n) over, finished_last n s.worker joined)
