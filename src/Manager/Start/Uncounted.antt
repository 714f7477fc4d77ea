-- ===== src/Manager/Start/Uncounted.antt =====
-- `initialize` of `DynamicThreadManager` in proc.cpp, with what `ProcessCurrentConfiguration` leaves on
-- Linux, where it sets no count.
use tailslayer_win.Common.{
  ℕ, suc, ◌<◌, ◌≡◌, refl, ap, Bool, true, ok, length, tabulate, length-tabulate, arith, ◌==◌,
  if◌then◌else◌, ◌>>=◌, Outcome,
}
use tailslayer_win.Processors.{
  LogicalProcessor, Configuration, no_processor, is_empty, destroy, logical_core_count,
}
use tailslayer_win.Processors.Linux.{System, entry, initialize_configuration}
use tailslayer_win.Processors.Linux.Topology.{IsTopology, initialize_configuration-eq}
use tailslayer_win.Manager.{Manager, ThreadMap, initialize_with, destroy_manager}
use tailslayer_win.Manager.Handover.{is_empty-nonempty}
use tailslayer_win.Manager.Allocate.{allocate_thread, move_core, take_back}

module _ (c : Configuration) (m : Manager) where
  abbrev started : Manager
  started = (initialize_with c (destroy_manager m)).0

  uncounted : c.thread_count ≡ 0 → 0 < length c.proc → started.free_thread_count ≡ 0
  unfolding initialize_with destroy_manager destroy logical_core_count
  uncounted none_counted pos = rw (is_empty-nonempty c.proc pos) none_counted

  started-eq : initialize_with c (destroy_manager m) ≡ (started, true)
  unfolding initialize_with destroy_manager destroy
  started-eq = refl

  started-config : started.config ≡ c
  unfolding initialize_with destroy_manager destroy
  started-config = refl

allocate_thread-uncounted :
    (order : ThreadMap → ℕ) (n : Manager)
    → n.free_thread_count ≡ 0
    → allocate_thread order n ≡ ok (no_processor, n)
unfolding allocate_thread
allocate_thread-uncounted order n e =
    ap (λ b. if b then ok (no_processor, n) else rest) (ap (λ k. k == 0) e)
  where
    rest : Outcome (LogicalProcessor × Manager)
    rest =
        if is_empty n.partially_free
        then (if is_empty n.free_cores
            then ok (no_processor, n)
            else (move_core order n >>= λ m'. take_back order m'))
        else take_back order n

-- On Linux, from a description with no threads counted: the topology files of a processor at least
-- are read, and `initialize` with the result succeeds, but the manager hands out no thread.
pub initialize_with-uncounted :
    (order : ThreadMap → ℕ) (os : System) (k : ℕ) (allowed : ℕ → Bool) (core package_of : ℕ → ℕ)
    (before : Configuration) (m : Manager)
    → IsTopology os (suc k) allowed core package_of
    → before.thread_count ≡ 0
    → (c : Configuration) × (initialize_configuration os before ≡ (c, true))
      × (length c.proc ≡ suc k)
      × (n : Manager) × (initialize_with c (destroy_manager m) ≡ (n, true))
      × (n.config ≡ c)
      × (allocate_thread order n ≡ ok (no_processor, n))
initialize_with-uncounted order os k allowed core package_of before m h none_counted =
    let c : Configuration = record before { proc = tabulate (suc k) 0 (entry os allowed) } in
    (
      c,
      initialize_configuration-eq os (suc k) allowed core package_of h before,
      length-tabulate (suc k) 0 (entry os allowed),
      started c m,
      started-eq c m,
      started-config c m,
      allocate_thread-uncounted order (started c m) (uncounted c m none_counted (omega arith)),
    )
