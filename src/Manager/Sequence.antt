-- ===== src/Manager/Sequence.antt =====
-- Calls of `allocateThread` and `freeThread` of proc.cpp in a row.
use native.Mathlib.Decide.{ℕ_discrete}
use tailslayer_win.Common.{
  ℕ, zero, suc, ◌+◌, ◌≤◌, ◌<◌, ◌≡◌, ◌≢◌, refl, ap, ◌∙◌, arith, List, [], ◌∷◌, map, length,
  get_elem?, count, one_at, one_at_self, one_at_ne, Outcome, ok, ◌>>=◌,
}
use tailslayer_win.Processors.{LogicalProcessor, no_processor}
use tailslayer_win.Manager.{Manager, ThreadMap}
use tailslayer_win.Manager.Allocate.{allocate_thread}
use tailslayer_win.Manager.Release.{free_thread}
use tailslayer_win.Manager.Valid.{IsValid, available}
use tailslayer_win.Manager.Exclusive.{available-le-one}
use tailslayer_win.Manager.Handover.{allocate_thread-Handed}
use tailslayer_win.Manager.Return.{free_thread_lem}

-- `n` calls of `allocateThread`, and what they return.
unfoldable pub allocate_threads :
    (ThreadMap → ℕ) → ℕ → Manager → Outcome (List LogicalProcessor × Manager)
allocate_threads order zero m = ok ([], m)
allocate_threads order (suc n) m = do
  (lp, m') ← allocate_thread order m
  (lps, m'') ← allocate_threads order n m'
  ok (lp ∷ lps, m'')

allocate_threads-counts :
    (order : ThreadMap → ℕ) (n : ℕ) (m : Manager)
    → IsValid m
    → n ≤ m.free_thread_count
    → (lps : List LogicalProcessor) × (m' : Manager) × (allocate_threads order n m ≡ ok (lps, m'))
      × (length lps ≡ n)
      × IsValid m'
      × (m'.free_thread_count + n ≡ m.free_thread_count)
      × ((j : ℕ) → available j m ≡ available j m' + count j (map (λ lp. lp.global_id) lps))
unfolding allocate_threads
allocate_threads-counts order zero m v le = ([], m, refl, refl, v, omega arith, λ j. omega arith)
allocate_threads-counts order (suc n) m v le =
    let (lp, m', e, at, v', config, fewer, _, _, counts) =
      allocate_thread-Handed order m v (omega arith) in
    let (lps, m'', e', len, v'', total, counts') =
      allocate_threads-counts order n m' v' (omega arith) in
    (
      lp ∷ lps,
      m'',
      rw (e, e') refl,
      ap suc len,
      v'',
      omega arith,
      λ j. omega (arith, counts j, counts' j),
    )

-- As many calls of `allocateThread` in a row as there are free threads hand out that many logical
-- processors, no two with the same identity, and the next call hands out none and changes nothing.
pub allocate_threads-Distinct :
    (order : ThreadMap → ℕ) (m : Manager)
    → IsValid m
    → (lps : List LogicalProcessor) × (m' : Manager) × (allocate_threads order m.free_thread_count m
        ≡ ok (lps, m'))
      × (length lps ≡ m.free_thread_count)
      × ((j : ℕ) → count j (map (λ lp. lp.global_id) lps) ≤ 1)
      × IsValid m'
      × (allocate_thread order m' ≡ ok (no_processor, m'))
unfolding allocate_thread
allocate_threads-Distinct order m v =
    let (lps, m', e, len, v', total, counts) =
      allocate_threads-counts order m.free_thread_count m v (omega arith) in
    let nothing : m'.free_thread_count ≡ 0 = omega arith in
    (lps, m', e, len, λ j. omega (arith, counts j, available-le-one v j), v', rw nothing refl)

-- In a valid manager with a free thread, `allocateThread` followed by `freeThread` of the result
-- leaves every thread on offer as often as before, and the manager valid.
pub allocate_free-available :
    (order : ThreadMap → ℕ) (m : Manager)
    → IsValid m
    → 0 < m.free_thread_count
    → (lp : LogicalProcessor) × (n n' : Manager) × (allocate_thread order m ≡ ok (lp, n))
      × (free_thread lp n ≡ ok n')
      × IsValid n'
      × ((j : ℕ) → available j n' ≡ available j m)
allocate_free-available order m v pos =
    let (lp, n, e, at, valid, config, _, _, off, counts) = allocate_thread-Handed order m v pos in
    let (n', e', valid', on, same, _) =
      free_thread_lem lp n valid (ap (λ c. get_elem? c.proc lp.global_id) config ∙ at) in
    (lp, n, n', e, e', valid', λ j. restored lp n n' counts off on same j)
  where
    restored :
        (lp : LogicalProcessor) (n n' : Manager)
        → ((j : ℕ) → available j m ≡ available j n + one_at lp.global_id j)
        → available lp.global_id n ≡ 0
        → available lp.global_id n' ≡ 1
        → ((j : ℕ) → lp.global_id ≢ j → available j n' ≡ available j n)
        → (j : ℕ) → available j n' ≡ available j m
    restored lp n n' counts off on same j = elim (ℕ_discrete lp.global_id j) [
      | yes here ↦ rw (← here) (omega (arith, counts lp.global_id, one_at_self lp.global_id))
      | no other ↦ omega (arith, counts j, same j other, one_at_ne lp.global_id j other)
    ]
