-- ===== src/Reader/Vector.antt =====
-- The reader as a bounded vector: when `insert` of hedged_reader.hpp succeeds, and what the workers
-- then read.
use native.Mathlib.Decide.{dec_lt}
use tailslayer_win.Common.{
  ℕ, ◌+◌, ◌≤◌, ◌<◌, ◌≡◌, refl, arith, true, List, [], ◌∷◌, ◌++◌, some, get_elem?, length,
  length-append, ok, aborted,
}
use tailslayer_win.Reader.{Reader, size, insert, worker_read, insert_all}
use tailslayer_win.Reader.Layout.{IsLaid}
use tailslayer_win.Reader.Contents.{Holds, insert-Holds, insert_all-Holds, next_index, inserted}

module _ {ℓ} {A : Type ℓ} {size_of n k base : ℕ} (v : A) {r : Reader A}
    (laid : IsLaid size_of n k base r) {vals : List A} (holds : Holds size_of n r vals) where
  insert-ok : length vals + 1 < r.capacity → insert size_of n true v r ≡ ok (inserted size_of n v r)
  unfolding insert inserted
  insert-ok room = ground (arith, next_index v laid holds)

  insert-full : r.capacity ≤ length vals + 1 → insert size_of n true v r ≡ aborted
  unfolding insert
  insert-full full = ground (arith, next_index v laid holds)

-- Starting from `vals`, inserting all of `vs` succeeds if there is a slot to spare at the end.
insert_all-ok {ℓ} :
    {A : Type ℓ} {size_of n k base : ℕ} (vs vals : List A) (r : Reader A)
    → IsLaid size_of n k base r
    → Holds size_of n r vals
    → length vals + length vs < r.capacity
    → (r' : Reader A) × (insert_all size_of n true vs r ≡ ok r')
unfolding insert_all inserted
insert_all-ok [] vals r laid holds room = (r, refl)
insert_all-ok {size_of} {n} (v ∷ vs) vals r laid holds room =
    let first = insert-ok v laid holds (omega arith) in
    let (laid1, holds1) = insert-Holds v laid holds true _ first in
    rw first (
      insert_all-ok vs (vals ++ v ∷ []) (inserted size_of n v r) laid1 holds1
        (omega (arith, length-append vals (v ∷ []))))

-- If the values would reach the last slot, some `insert` on the way fails its assert.
insert_all-full {ℓ} :
    {A : Type ℓ} {size_of n k base : ℕ} (v : A) (vs vals : List A) (r : Reader A)
    → IsLaid size_of n k base r
    → Holds size_of n r vals
    → r.capacity ≤ length vals + length (v ∷ vs)
    → insert_all size_of n true (v ∷ vs) r ≡ aborted
unfolding insert_all inserted
insert_all-full v [] vals r laid holds full = rw (insert-full v laid holds (omega arith))
insert_all-full {size_of} {n} v (w ∷ vs) vals r laid holds full =
    elim (dec_lt (length vals + 1) r.capacity) [
      | no tight ↦ rw (insert-full v laid holds (omega arith))
      | yes room ↦
          let first = insert-ok v laid holds room in
          let (laid1, holds1) = insert-Holds v laid holds true _ first in
          rw first (
            insert_all-full w vs (vals ++ v ∷ []) (inserted size_of n v r) laid1 holds1
              (omega (arith, length-append vals (v ∷ []))))
    ]

module _ {ℓ} {A : Type ℓ} {size_of n k base : ℕ} (r : Reader A) (laid : IsLaid size_of n k base r)
    (empty : r.logical_index ≡ 0) where
  Holds-empty : Holds size_of n r []
  Holds-empty = record { count = empty; within = omega arith; stored = λ i logical v h e. cc }

  -- On an empty laid-out reader with the lock privilege, inserting fewer values than the capacity
  -- succeeds; afterwards `size` is their number, and each of the `n` workers reads at every index
  -- the value inserted there.
  pub insert_all-reads :
      (vs : List A)
      → length vs < r.capacity
      → (r' : Reader A) × (insert_all size_of n true vs r ≡ ok r')
        × (size r' ≡ length vs)
        × ((i logical : ℕ) (v : A)
            → i < n
            → get_elem? vs logical ≡ some v
            → worker_read size_of r' i logical ≡ v)
  unfolding size
  insert_all-reads vs room =
      let (r', run) = insert_all-ok vs [] r laid Holds-empty (omega arith) in
      let (_, holds) = insert_all-Holds vs [] r r' true laid Holds-empty run in
      (r', run, holds.count, holds.stored)

  -- On an empty laid-out reader, inserting as many values as the capacity, or more, fails an assert:
  -- the last slot that the page has room for can never be filled.
  pub insert_all-aborts :
      (v : A) (vs : List A)
      → r.capacity ≤ length (v ∷ vs)
      → insert_all size_of n true (v ∷ vs) r ≡ aborted
  insert_all-aborts v vs full = insert_all-full v vs [] r laid Holds-empty (omega arith)
