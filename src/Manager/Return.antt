-- ===== src/Manager/Return.antt =====
-- `freeThread` of proc.cpp gives back exactly the thread it is handed.
use native.Mathlib.Decide.{dec_lt}
use tailslayer_win.Manager.Exclusive.{available-le-one}
use tailslayer_win.Manager.Grown.{put_back_lem}
use tailslayer_win.Manager.Search.{free-map_has, partial-map_has}
use tailslayer_win.Common.{
  ℕ, ◌+◌, ◌<◌, ◌≡◌, ◌≢◌, refl, ap, ◌∙◌, arith, some, get_elem?, weigh, count, one_at, one_at_self,
  one_at_ne, ok, lt→ltb,
}
use tailslayer_win.Processors.{LogicalProcessor, unique_core_id}
use tailslayer_win.Manager.{Manager}
use tailslayer_win.Manager.Release.{put_back, free_thread}
use tailslayer_win.Manager.Valid.{IsValid, available}

module _ {m : Manager} (v : IsValid m) (lp : LogicalProcessor) where
  free_thread-on : 0 < available lp.global_id m → free_thread lp m ≡ ok m
  unfolding free_thread
  free_thread-on on = elim (dec_lt 0 (weigh (count lp.global_id) m.partially_free)) [
    | yes partly ↦
        rw
          (
            partial-map_has v lp.global_id,
            lt→ltb 0 (weigh (count lp.global_id) m.partially_free) partly,
          )
          refl
    | no not_partly ↦
        let nothing : weigh (count lp.global_id) m.partially_free ≡ 0 = omega arith in
        rw
          (
            partial-map_has v lp.global_id,
            nothing,
            free-map_has v lp.global_id,
            lt→ltb 0 (weigh (count lp.global_id) m.free_cores) (omega arith),
          )
          refl
  ]

  free_thread-off : available lp.global_id m ≡ 0 → free_thread lp m ≡ ok (put_back lp m)
  unfolding free_thread
  free_thread-off off =
      let nothing : weigh (count lp.global_id) m.partially_free ≡ 0 = omega arith in
      let none_free : weigh (count lp.global_id) m.free_cores ≡ 0 = omega arith in
      rw (partial-map_has v lp.global_id, nothing, free-map_has v lp.global_id, none_free) refl

-- Freeing a logical processor of the machine in a valid manager changes nothing if its thread is on
-- offer already; otherwise the thread is on offer afterwards. Every other thread is on offer as
-- often as before, and the manager stays valid.
pub free_thread_lem :
    (lp : LogicalProcessor) (m : Manager)
    → IsValid m
    → get_elem? m.config.proc lp.global_id ≡ some lp
    → (n : Manager) × (free_thread lp m ≡ ok n)
      × IsValid n
      × (available lp.global_id n ≡ 1)
      × ((j : ℕ) → lp.global_id ≢ j → available j n ≡ available j m)
      × (available lp.global_id m ≡ 1 → n ≡ m)
free_thread_lem lp m v at = elim (dec_lt 0 (available lp.global_id m)) [
  | yes on ↦
      let le = available-le-one v lp.global_id in
      (m, free_thread-on v lp on, v, omega arith, λ j other. refl, λ h. refl)
  | no off ↦
      let zero_now : available lp.global_id m ≡ 0 = omega arith in
      let (c, core, here) =
        v.cores.complete (unique_core_id lp) lp.global_id (lp, at, refl, refl) in
      given_back zero_now
        (put_back_lem v (unique_core_id lp) lp.global_id c core here zero_now lp refl refl)
]
  where
    given_back :
        available lp.global_id m ≡ 0
        → (n : Manager) × (put_back lp m ≡ n)
          × IsValid n
          × ((j : ℕ) → available j n ≡ available j m + one_at lp.global_id j)
        → (n : Manager) × (free_thread lp m ≡ ok n)
          × IsValid n
          × (available lp.global_id n ≡ 1)
          × ((j : ℕ) → lp.global_id ≢ j → available j n ≡ available j m)
          × (available lp.global_id m ≡ 1 → n ≡ m)
    given_back off (n, e, valid, counts) =
        let one = one_at_self lp.global_id in
        let now = counts lp.global_id in
        (
          n,
          free_thread-off v lp off ∙ ap ok e,
          valid,
          omega arith,
          λ j other. omega (arith, counts j, one_at_ne lp.global_id j other),
          λ on. absurd (omega arith),
        )
