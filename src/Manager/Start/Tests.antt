-- ===== src/Manager/Start/Tests.antt =====
-- A manager started with what is detected on Windows, and on Linux.
use tailslayer_win.Common.{ℕ, ◌<◌, ◌≡◌, refl, arith, Bool, true, [], ◌∷◌, ◌++◌, some, length, ok}
use tailslayer_win.Processors.{Configuration, no_processor}
use tailslayer_win.Processors.Windows
use tailslayer_win.Processors.Windows.Sample.{
  two_cores, answers, nothing_known, core_zero, answers-Answered, core_zero-IsCore,
  two_cores-IsMachine,
}
use tailslayer_win.Processors.Linux
use tailslayer_win.Processors.Linux.{System}
use tailslayer_win.Processors.Linux.Topology.{IsTopology}
use tailslayer_win.Processors.Sysfs.Decimal.{decimal}
use tailslayer_win.Manager.{Manager, ThreadMap, initialize_with, destroy_manager}
use tailslayer_win.Manager.Allocate.{allocate_thread}
use tailslayer_win.Manager.Valid.{IsValid, available}
use tailslayer_win.Manager.Start.Detected.{initialize_with-detected}
use tailslayer_win.Manager.Start.Uncounted.{initialize_with-uncounted}

abbrev idle : Manager
idle = record {
  config = nothing_known;
  core_to_threads = [];
  partially_free = [];
  free_cores = [];
  free_thread_count = 0;
  free_core_count = 0;
}

initialize_with-detected_example :
    (d : Configuration) × (Windows.initialize_configuration answers nothing_known ≡ (d, true))
    × (n : Manager) × (initialize_with d (destroy_manager idle) ≡ (n, true))
    × IsValid n
    × ((i : ℕ) → i < length d.proc → available i n ≡ 1)
initialize_with-detected_example =
    initialize_with-detected answers 7 two_cores nothing_known idle core_zero answers-Answered
      two_cores-IsMachine core_zero-IsCore

abbrev everywhere : ℕ → Bool
everywhere i = true

abbrev single : System
single = record {
  processors = some 1;
  allowed = some everywhere;
  core_file = λ i. some (decimal 18 0 ++ b'\n' ∷ []);
  package_file = λ i. some (decimal 18 0 ++ b'\n' ∷ []);
}

single-IsTopology : IsTopology single 1 everywhere (λ i. 0) (λ i. 0)
single-IsTopology = record {
  configured = refl;
  affinity = refl;
  core_printed = λ i lt. refl;
  package_printed = λ i lt. refl;
  core_fits = λ i lt. omega arith;
  package_fits = λ i lt. omega arith;
}

abbrev first : ThreadMap → ℕ
first m = 0

initialize_with-uncounted_example :
    (c : Configuration) × (Linux.initialize_configuration single nothing_known ≡ (c, true))
    × (length c.proc ≡ 1)
    × (n : Manager) × (initialize_with c (destroy_manager idle) ≡ (n, true))
    × (n.config ≡ c)
    × (allocate_thread first n ≡ ok (no_processor, n))
initialize_with-uncounted_example =
    initialize_with-uncounted first single 0 everywhere (λ i. 0) (λ i. 0) nothing_known idle
      single-IsTopology refl
