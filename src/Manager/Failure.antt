-- ===== src/Manager/Failure.antt =====
-- `initialize()` of proc.cpp stores the machine's description before `initialize(existingConfig)`
-- tests that none is stored.
use tailslayer_win.Common.{ℕ, ◌<◌, ◌≡◌, refl, true, false, length, ok}
use tailslayer_win.Processors.{Configuration, no_processor, destroy}
use tailslayer_win.Manager.{Manager, ThreadMap, initialize, initialize_with, destroy_manager}
use tailslayer_win.Manager.Allocate.{allocate_thread}
use tailslayer_win.Manager.Handover.{is_empty-nonempty}

-- On a manager that was destroyed, `initialize()` fails whenever the operating system describes a
-- processor at least, and the manager it leaves hands out none.
pub initialize-fails :
    (order : ThreadMap → ℕ) (detected : Configuration) (m : Manager)
    → 0 < length detected.proc
    → (n : Manager) × (initialize (detected, true) (destroy_manager m) ≡ (n, false))
      × (n.config ≡ detected)
      × (allocate_thread order n ≡ ok (no_processor, n))
unfolding initialize initialize_with destroy_manager destroy allocate_thread
initialize-fails order detected m pos = (
  record (destroy_manager m) { config = detected },
  rw (is_empty-nonempty detected.proc pos) refl,
  refl,
  refl,
)
