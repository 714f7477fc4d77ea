-- ===== src/Reader/Workers/Ends.antt =====
-- Every run of the workers of hedged_reader.hpp and of their owner comes to its end.
use native.Mathlib.Decide.{ℕ_discrete}
use tailslayer_win.Common.{
  ℕ, zero, suc, ◌+◌, ◌*◌, ◌≤◌, ◌<◌, ◌≡◌, ◌≢◌, ◌⊎◌, true, inl, inr, refl, ap, ◌∙◌, arith, subst,
}
use tailslayer_win.Reader.{Reader}
use tailslayer_win.Reader.Workers.{
  Phase, absent, created, pinned, reading, finished, dangling, Owner, starting, joining, destroyed,
  State, HasReturned, start_worker, after_delay, pin_worker, take_index, read_value, after_join,
  release_page, Step, start, delay, pin, wait, read, join, release, Run, here, next, first_state,
}
use tailslayer_win.Reader.Workers.Phases.{IsPresent, IsBusy, IsFinished}
use tailslayer_win.Reader.Workers.Runs.{
  Inv, Step-Inv, Run-Inv, reached-Inv, first_state-Inv, OwnerOk,
}
use tailslayer_win.Reader.Workers.Measure.{
  destroyed-measure, measure, Step-measure, Run-measure, measure_first,
}

module _ {ℓ} {A : Type ℓ} (size_of n : ℕ) (r : Reader A) (Signals : ℕ → Type 0) where
  -- A worker that has not returned can go on.
  worker_step :
      (read_index : ℕ)
      → Signals read_index
      → (i : ℕ) (s : State A) (p : Phase A) → s.worker i ≡ p
      → IsBusy p
      → (t : State A) × Step size_of n r Signals s t
  worker_step read_index signal i s absent e busy = absurd busy
  worker_step read_index signal i s created e busy = (pin_worker r true i s, pin true i e)
  worker_step read_index signal i s (pinned affinity) e busy =
      (take_index i affinity read_index s, wait i affinity read_index e signal)
  worker_step read_index signal i s (reading affinity index) e busy =
      (read_value size_of r i affinity index s, read i affinity index e)
  worker_step read_index signal i s (finished affinity index value) e busy = absurd busy
  worker_step read_index signal i s dangling e busy = absurd busy

  Phase-cases : (p : Phase A) → IsPresent p → HasReturned p ⊎ IsBusy p
  Phase-cases absent h = absurd h
  Phase-cases created h = inr tt
  Phase-cases (pinned affinity) h = inr tt
  Phase-cases (reading affinity read_index) h = inr tt
  Phase-cases (finished affinity read_index value) h = inl tt
  Phase-cases dangling h = inl tt

  -- Whoever is to move can, if `wait_work` can return.
  progress :
      (read_index : ℕ)
      → Signals read_index
      → (s : State A) (o : Owner) → s.owner ≡ o
      → OwnerOk size_of n r Signals o s.worker s.page_live
      → (o ≡ destroyed) ⊎ ((t : State A) × Step size_of n r Signals s t)
  progress read_index signal s (starting k) e (l, le, there, gone) = elim (ℕ_discrete k n) [
    | yes all ↦ inr (after_delay s, delay (e ∙ ap starting all))
    | no some_left ↦ inr (start_worker k s, start k e (strict k le some_left))
  ]
    where
      strict : (k : ℕ) → k ≤ n → k ≢ n → k < n
      strict k le other = ground arith
  progress read_index signal s (joining k) e (l, le, there, gone, joined) = elim (ℕ_discrete k n) [
    | yes all ↦ inr (release_page s, release (e ∙ ap joining all))
    | no some_left ↦
        let lt = strict k le some_left in
        elim (Phase-cases (s.worker k) (there k lt)) [
          | inl back ↦ inr (after_join k s, join k e lt back)
          | inr busy ↦ inr (worker_step read_index signal k s (s.worker k) refl busy)
        ]
  ]
    where
      strict : (k : ℕ) → k ≤ n → k ≢ n → k < n
      strict k le other = ground arith
  progress read_index signal s destroyed e ok = inl refl

  Run-after :
      {s t : State A}
      → Step size_of n r Signals s t
      → {k : ℕ} {u : State A} → Run size_of n r Signals t k u
      → Run size_of n r Signals s (suc k) u
  Run-after step here = next here step
  Run-after step (next run last) = next (Run-after step run) last

  finish :
      (read_index : ℕ)
      → Signals read_index
      → (left : ℕ) (s : State A) → Inv size_of n r Signals s
      → measure n s ≡ left
      → (t : State A) × Run size_of n r Signals s left t × (t.owner ≡ destroyed)
  finish read_index signal zero s h m =
      elim (progress read_index signal s s.owner refl h.owner_ok) [
        | inl over ↦ (s, here, over)
        | inr (t, step) ↦ absurd (omega (arith, Step-measure size_of n r Signals step h))
      ]
  finish read_index signal (suc left) s h m =
      elim (progress read_index signal s s.owner refl h.owner_ok) [
        | inl over ↦ absurd (omega (arith, destroyed-measure size_of n r Signals s h over))
        | inr (t, step) ↦
            let (u, run, over) =
              finish read_index signal left t (Step-Inv size_of n r Signals step h)
                (omega (arith, Step-measure size_of n r Signals step h)) in
            (u, Run-after step run, over)
      ]

  -- If `wait_work` can return, then from every state that is reached the run can be carried on until
  -- the reader is destroyed, `5 n + 2` steps from the start; then each worker has read.
  pub workers_end :
      (read_index : ℕ)
      → Signals read_index
      → {k : ℕ} {s : State A} → Run size_of n r Signals first_state k s
      → (left : ℕ) × (t : State A) × (k + left ≡ 5 * n + 2)
        × Run size_of n r Signals s left t
        × (t.owner ≡ destroyed)
        × ((i : ℕ) → i < n → IsFinished (t.worker i))
  workers_end read_index signal {k = k} {s = s} run =
      let h = reached-Inv size_of n r Signals run in
      let (t, rest, over) = finish read_index signal (measure n s) s h refl in
      let last = Run-Inv size_of n r Signals rest h in
      let (joined, gone) =
        subst (λ o. OwnerOk size_of n r Signals o t.worker t.page_live) over last.owner_ok in
      (
        measure n s,
        t,
        omega (
          arith,
          Run-measure size_of n r Signals run (first_state-Inv size_of n r Signals),
          measure_first size_of n r Signals,
        ),
        rest,
        over,
        joined,
      )
