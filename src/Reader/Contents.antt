-- ===== src/Reader/Contents.antt =====
-- `insert` and the workers' reads of hedged_reader.hpp, against the plain vector of the values
-- inserted so far.
use native.Mathlib.Decide.{ℕ_discrete, dec_lt}
use tailslayer_win.Common.{
  ℕ, zero, suc, ◌+◌, ◌^◌, ◌≤◌, ◌<◌, ◌≡◌, ◌≢◌, inr, append-nil, append_assoc, ok_injective,
  >>=-eq-ok, refl, sym, ◌∙◌, arith, ==_refl, ne→==, Bool, true, List, [], ◌∷◌, ◌++◌, some,
  get_elem?, length, length-append, get_elem?-append_left, get_elem?-append_last, get_elem?-lt,
  add64, ok,
}
use tailslayer_win.Reader.{
  Reader, hugepage_size, get_next_logical_index_address, store, store_replicas, insert, worker_read,
  insert_all,
}
use tailslayer_win.Reader.Layout.{IsLaid, addresses_apart}
use tailslayer_win.Reader.Layout.Grid.{capacity_fits}

module _ {ℓ} {A : Type ℓ} where
  store-hit : (memory : ℕ → A) (a : ℕ) (v : A) → store memory a v a ≡ v
  unfolding store
  store-hit memory a v = rw (==_refl a)

  store-miss : (memory : ℕ → A) (a b : ℕ) (v : A) → b ≢ a → store memory a v b ≡ memory b
  unfolding store
  store-miss memory a b v h = rw (ne→== b a h)

module _ {ℓ} {A : Type ℓ} (size_of : ℕ) (val : A) (r : Reader A) where
  keeps_val :
      (left i a : ℕ) (memory : ℕ → A)
      → memory a ≡ val
      → store_replicas size_of left i val r memory a ≡ val
  unfolding store_replicas
  keeps_val zero i a memory h = h
  keeps_val (suc left) i a memory h =
      keeps_val left (suc i) a (store memory target val) (ground arith)
    where
      target : ℕ
      target = get_next_logical_index_address size_of r i r.logical_index

  -- Each replica's slot for the next index receives the value.
  store_replicas-hit :
      (left i j : ℕ) (memory : ℕ → A)
      → i ≤ j
      → j < i + left
      → store_replicas size_of left i val r memory
          (get_next_logical_index_address size_of r j r.logical_index)
        ≡ val
  unfolding store_replicas
  store_replicas-hit zero i j memory h k = absurd (omega arith)
  store_replicas-hit (suc left) i j memory h k = elim (ℕ_discrete i j) [
    | yes e ↦ keeps_val left (suc i) _ _ (rw e (store-hit memory _ val))
    | no ne ↦ store_replicas-hit left (suc i) j _ (omega arith) (omega arith)
  ]

  -- No other address changes.
  store_replicas-miss :
      (left i a : ℕ) (memory : ℕ → A)
      → ((j : ℕ)
          → i ≤ j
          → j < i + left
          → a ≢ get_next_logical_index_address size_of r j r.logical_index)
      → store_replicas size_of left i val r memory a ≡ memory a
  unfolding store_replicas
  store_replicas-miss zero i a memory h = refl
  store_replicas-miss (suc left) i a memory h =
      store_replicas-miss left (suc i) a _ (λ j p q. h j (omega arith) (omega arith))
      ∙ store-miss memory _ a val (h i (omega arith) (omega arith))

-- The reader stands for the vector `vals`: every replica of every index holds its value.
pub record Holds {ℓ} {A : Type ℓ} (size_of n : ℕ) (r : Reader A) (vals : List A) : Type ℓ where
  pub count : r.logical_index ≡ length vals
  pub within : length vals ≤ r.capacity
  pub stored :
      (i logical : ℕ) (v : A)
      → i < n
      → get_elem? vals logical ≡ some v
      → worker_read size_of r i logical ≡ v

-- What an `insert` that passes its asserts leaves.
unfoldable pub inserted {ℓ} : {A : Type ℓ} → ℕ → ℕ → A → Reader A → Reader A
inserted size_of n val r = record r {
  memory = store_replicas size_of n 0 val r r.memory;
  logical_index = add64 r.logical_index 1;
}

insert-eq_inserted {ℓ} :
    {A : Type ℓ} (size_of n : ℕ) (locked : Bool) (val : A) (r r' : Reader A)
    → insert size_of n locked val r ≡ ok r'
    → (r' ≡ inserted size_of n val r) × (add64 r.logical_index 1 < r.capacity) × (locked ≡ true)
unfolding insert inserted
insert-eq_inserted size_of n locked val r r' e = ground arith

module _ {ℓ} {A : Type ℓ} {size_of n k base : ℕ} (val : A) {r : Reader A}
    (laid : IsLaid size_of n k base r) {vals : List A} (holds : Holds size_of n r vals) where
  inserted-IsLaid : IsLaid size_of n k base (inserted size_of n val r)
  unfolding inserted
  inserted-IsLaid = record {
    shift = laid.shift;
    mask = laid.mask;
    offset = laid.offset;
    stride = laid.stride;
    capacity = laid.capacity;
    page = laid.page;
    replicas = laid.replicas;
    few = laid.few;
    sized = laid.sized;
  }

  capacity_small : r.capacity ≤ hugepage_size
  capacity_small =
      omega (
        arith,
        laid.capacity,
        capacity_fits hugepage_size r.num_channels size_of (2 ^ k) laid.sized,
      )

  pub next_index : add64 r.logical_index 1 ≡ length vals + 1
  next_index = omega (arith, holds.count, holds.within, capacity_small)

  module _ (room : add64 r.logical_index 1 < r.capacity) where
    new_value :
        (i : ℕ) → i < n → worker_read size_of (inserted size_of n val r) i r.logical_index ≡ val
    unfolding worker_read inserted
    new_value i replica =
        store_replicas-hit size_of val r n 0 i r.memory (omega arith) (omega arith)

    old_value :
        (i logical : ℕ)
        → i < n
        → logical < r.logical_index
        → worker_read size_of (inserted size_of n val r) i logical ≡ worker_read size_of r i logical
    unfolding worker_read inserted
    old_value i logical replica older =
        store_replicas-miss size_of val r n 0 _ r.memory (λ j low high same. omega (
          arith,
          laid.sized,
          addresses_apart laid {i = i} {j = j} {logical = logical} {logical' = r.logical_index}
              (omega (arith, room, next_index, holds.count))
              (omega (arith, room, next_index, holds.count)) replica (omega arith)
              (inr (omega arith)),
        ))

    read_back :
        (i logical : ℕ) (v : A)
        → i < n
        → get_elem? (vals ++ val ∷ []) logical ≡ some v
        → worker_read size_of (inserted size_of n val r) i logical ≡ v
    read_back i logical v replica e = elim (dec_lt logical (length vals)) [
      | yes older ↦
          old_value i logical replica (omega (arith, holds.count))
          ∙ holds.stored i logical v replica
              (sym (get_elem?-append_left vals (val ∷ []) logical older) ∙ e)
      | no newest ↦
          let last : logical ≡ length vals =
            omega
              (arith, get_elem?-lt (vals ++ val ∷ []) logical e, length-append vals (val ∷ [])) in
          let value : some val ≡ some v = sym (get_elem?-append_last vals val logical last) ∙ e in
          rw (last ∙ sym holds.count) (new_value i replica ∙ (cc))
    ]

    inserted-Holds : Holds size_of n (inserted size_of n val r) (vals ++ val ∷ [])
    unfolding inserted
    inserted-Holds = record {
      count = next_index ∙ sym (length-append vals (val ∷ []));
      within = omega (arith, room, next_index, length-append vals (val ∷ []));
      stored = read_back;
    }

  -- An `insert` that passes its asserts appends its value, on every replica, and keeps the layout.
  pub insert-Holds :
      (locked : Bool) (r' : Reader A)
      → insert size_of n locked val r ≡ ok r'
      → IsLaid size_of n k base r' × Holds size_of n r' (vals ++ val ∷ [])
  insert-Holds locked r' e =
      let (same, room, _) = insert-eq_inserted size_of n locked val r r' e in
      rw same (inserted-IsLaid, inserted-Holds room)

pub insert_all-Holds {ℓ} :
    {A : Type ℓ} {size_of n k base : ℕ} (vs vals : List A) (r r' : Reader A) (locked : Bool)
    → IsLaid size_of n k base r
    → Holds size_of n r vals
    → insert_all size_of n locked vs r ≡ ok r'
    → IsLaid size_of n k base r' × Holds size_of n r' (vals ++ vs)
unfolding insert_all
insert_all-Holds [] vals r r' locked laid holds e = rw (append-nil, ← ok_injective e) (laid, holds)
insert_all-Holds {size_of} {n} (v ∷ vs) vals r r' locked laid holds e =
    let (r1, first, rest) = >>=-eq-ok (insert size_of n locked v r) _ e in
    let (laid1, holds1) = insert-Holds v laid holds locked r1 first in
    rw (← append_assoc vals (v ∷ []) vs)
      (insert_all-Holds vs (vals ++ v ∷ []) r1 r' locked laid1 holds1 rest)
