-- ===== src/Manager/Allocate.antt =====
-- `allocateProcessor` and `allocateThread` of proc.cpp.
use native.Mathlib.Decide.{ℕ_discrete}
use tailslayer_win.Common.{
  ℕ, Bool, true, false, if◌then◌else◌, ◌==◌, List, [], ◌∷◌, ◌++◌, length, get_elem?, get_last?,
  drop_last, assign, erase, begin, Outcome, ok, access, ◌>>=◌,
}
use tailslayer_win.Processors.{LogicalProcessor, no_processor, is_empty}
use tailslayer_win.Manager.{Manager, ThreadMap, decrement32, list_of}

-- The loop of `allocateProcessor` over the threads of the core.
unfoldable pub take_threads :
    List ℕ → List LogicalProcessor → ℕ → List LogicalProcessor → Outcome (List LogicalProcessor × ℕ)
take_threads [] proc count out = ok (out, count)
take_threads (i ∷ is) proc count out = do
  lp ← access (get_elem? proc i)
  take_threads is proc (decrement32 count) (out ++ lp ∷ [])

module _ (order : ThreadMap → ℕ) where
  -- `allocateProcessor(out)`: the result, `out` and the new state.
  unfoldable pub allocate_processor :
      List LogicalProcessor → Manager → Outcome (Bool × List LogicalProcessor × Manager)
  unfolding take_threads
  allocate_processor out m = if m.free_core_count == 0 then ok (false, out, m) else (do
    (key, val) ← access (begin order m.free_cores)
    (taken, count) ← take_threads val m.config.proc m.free_thread_count out
    ok (
      true,
      taken,
      record m {
        free_thread_count = count;
        free_cores = erase ℕ_discrete key m.free_cores;
        free_core_count = decrement32 m.free_core_count;
      },
    ))

  -- `allocateProcessor()`.
  unfoldable pub allocate_first : Manager → Outcome (LogicalProcessor × Manager)
  unfolding allocate_processor no_processor
  allocate_first m = do
    (status, result, m') ← allocate_processor [] m
    lp ← (if status then access (get_elem? result 0) else ok no_processor)
    ok (lp, m')

  -- `allocateThread` moves a free core to the partially free ones first, if it has none of those.
  unfoldable pub move_core : Manager → Outcome Manager
  move_core m = do
    (key, _) ← access (begin order m.free_cores)
    ok (record m {
      partially_free = assign ℕ_discrete key (list_of key m.free_cores) m.partially_free;
      free_cores = erase ℕ_discrete key m.free_cores;
      free_core_count = decrement32 m.free_core_count;
    })

  -- The rest of `allocateThread`: the last thread of the first partially free core.
  unfoldable pub take_back : Manager → Outcome (LogicalProcessor × Manager)
  take_back m = do
    (key, ts) ← access (begin order m.partially_free)
    idx ← access (get_last? ts)
    let rest = drop_last ts
    let kept = assign ℕ_discrete key rest m.partially_free
    lp ← access (get_elem? m.config.proc idx)
    ok (
      lp,
      record m {
        partially_free = if length rest == 0 then erase ℕ_discrete key kept else kept;
        free_thread_count = decrement32 m.free_thread_count;
      },
    )

  unfoldable pub allocate_thread : Manager → Outcome (LogicalProcessor × Manager)
  unfolding move_core take_back no_processor
  allocate_thread m =
      if m.free_thread_count == 0
      then ok (no_processor, m)
      else (if is_empty m.partially_free
          then (if is_empty m.free_cores
              then ok (no_processor, m)
              else (do m' ← move_core m; take_back m'))
          else take_back m)
