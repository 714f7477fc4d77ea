-- ===== src/Manager/Release.antt =====
-- `freeProcessor` and `freeThread` of proc.cpp.
use native.Mathlib.Decide.{ℕ_discrete}
use tailslayer_win.Common.{
  ℕ, Bool, true, false, ◌||◌, if◌then◌else◌, ◌==◌, List, [], ◌∷◌, ◌++◌, length, get_elem?, max32,
  find?, assign, erase, Outcome, ok, access, ◌>>=◌,
}
use tailslayer_win.Processors.{LogicalProcessor, unique_core_id}
use tailslayer_win.Manager.{Manager, ThreadMap, add32, threads_of, list_of, touch, is_some}

unfoldable pub free_processor : ℕ → ℕ → Manager → Manager
unfolding unique_core_id
free_processor core_id package_id m =
    let id = unique_core_id (record {
      global_id = max32;
      core_id = core_id;
      pkg_id = package_id;
      usable = 1;
      affinity_mask = record { group = 0; mask = 0 };
    }) in
    if length m.free_cores == length m.core_to_threads || is_some (find? ℕ_discrete id m.free_cores)
    then m
    else (let c = threads_of id m.core_to_threads in
        record m {
          partially_free = erase ℕ_discrete id m.partially_free;
          core_to_threads = touch id m.core_to_threads;
          free_cores = assign ℕ_discrete id c.threads m.free_cores;
          free_thread_count = add32 m.free_thread_count c.thread_count;
          free_core_count = add32 m.free_core_count 1;
        })

-- The two searches of `freeThread`, which stop at the first thread with the identity sought.
unfoldable pub list_has : List LogicalProcessor → ℕ → List ℕ → Outcome Bool
list_has proc id [] = ok false
list_has proc id (i ∷ is) = do
  lp ← access (get_elem? proc i)
  (let rest = list_has proc id is in if lp.global_id == id then ok true else rest)

unfoldable pub map_has : List LogicalProcessor → ℕ → ThreadMap → Outcome Bool
unfolding list_has
map_has proc id [] = ok false
map_has proc id ((k, ts) ∷ m) = do
  found ← list_has proc id ts
  (let rest = map_has proc id m in if found then ok true else rest)

-- `freeThread` once neither search has found the thread.
unfoldable pub put_back : LogicalProcessor → Manager → Manager
unfolding unique_core_id
put_back id m =
    let key = unique_core_id id in
    let ts = list_of key m.partially_free ++ id.global_id ∷ [] in
    let kept = assign ℕ_discrete key ts m.partially_free in
    let c = threads_of key m.core_to_threads in
    let added = record m {
      core_to_threads = touch key m.core_to_threads;
      partially_free = kept;
      free_thread_count = add32 m.free_thread_count 1;
    } in
    if length ts == c.thread_count
    then record added {
      partially_free = erase ℕ_discrete key kept;
      free_cores = assign ℕ_discrete key c.threads m.free_cores;
      free_core_count = add32 m.free_core_count 1;
    }
    else added

unfoldable pub free_thread : LogicalProcessor → Manager → Outcome Manager
unfolding map_has put_back
free_thread id m = do
  partly ← map_has m.config.proc id.global_id m.partially_free
  (if partly then ok m else (do
    free ← map_has m.config.proc id.global_id m.free_cores
    (if free then ok m else ok (put_back id m))))
