-- ===== src/Manager/Threads.antt =====
-- `allocateThread` of proc.cpp keeps the invariant and takes one thread off the offer.
use native.Mathlib.Decide.{ℕ_discrete}
use tailslayer_win.Common.{
  ℕ, suc, ◌+◌, ◌<◌, ◌≡◌, ◌⊎◌, inl, inr, refl, arith, List, [], ◌∷◌, ◌++◌, none, some, length,
  length-append, get_elem?, get_last?-last, drop_last-last, assign, erase, begin, weigh,
  weigh-erase, weigh-assign_new, weigh-assign_old, length-eq_weigh, count, count-append, one_at,
  Distinct, Distinct-assign, Distinct-erase, find?-assign_inv, find?-erase_inv, ok, if◌then◌else◌,
  ◌==◌, ne→==,
}
use tailslayer_win.Processors.{LogicalProcessor}
use tailslayer_win.Manager.{Manager, ThreadMap, decrement32}
use tailslayer_win.Manager.Allocate.{move_core, take_back}
use tailslayer_win.Manager.Valid.{
  IsValid, lookup, available, MapOk-erase, MapOk-assign, Apart-erase_right, Apart-assign_left,
  PartialEntry, Apart, lookup-assign_self, list_of-eq, lookup-erase_self, Apart-none,
  threads-bounded, cores-bounded,
}

-- The partially free cores once core `k` is left with `rest`: a core with none is not kept.
abbrev shrunk : ℕ → List ℕ → ThreadMap → ThreadMap
shrunk k [] partial = erase ℕ_discrete k (assign ℕ_discrete k [] partial)
shrunk k (x ∷ rest) partial = assign ℕ_discrete k (x ∷ rest) partial

shrunk_lem :
    (k : ℕ) (rest : List ℕ) (partial : ThreadMap)
    → (if length rest == 0
        then erase ℕ_discrete k (assign ℕ_discrete k rest partial)
        else assign ℕ_discrete k rest partial)
      ≡ shrunk k rest partial
shrunk_lem k [] partial = refl
shrunk_lem k (x ∷ rest) partial = rw (ne→== (suc (length rest)) 0 (omega arith))

module _ (k : ℕ) (partial : ThreadMap) (distinct : Distinct ℕ_discrete partial) where
  shrunk-weigh :
      (rest ts : List ℕ) (f : List ℕ → ℕ)
      → f [] ≡ 0
      → lookup k partial ≡ some ts
      → weigh f (shrunk k rest partial) + f ts ≡ f rest + weigh f partial
  shrunk-weigh [] ts f empty found = omega (
    arith,
    empty,
    weigh-assign_old ℕ_discrete f k [] ts partial found,
    weigh-erase ℕ_discrete f k [] (assign ℕ_discrete k [] partial)
        (Distinct-assign ℕ_discrete k [] partial distinct) (lookup-assign_self k [] partial),
  )
  shrunk-weigh (x ∷ rest) ts f empty found =
      weigh-assign_old ℕ_discrete f k (x ∷ rest) ts partial found

  shrunk-Distinct : (rest : List ℕ) → Distinct ℕ_discrete (shrunk k rest partial)
  shrunk-Distinct [] =
      Distinct-erase ℕ_discrete k (assign ℕ_discrete k [] partial)
        (Distinct-assign ℕ_discrete k [] partial distinct)
  shrunk-Distinct (x ∷ rest) = Distinct-assign ℕ_discrete k (x ∷ rest) partial distinct

  -- An entry that is left is the shrunk one, not empty, or was there before.
  shrunk_inv :
      (rest us : List ℕ) (j : ℕ)
      → lookup j (shrunk k rest partial) ≡ some us
      → ((k ≡ j) × (rest ≡ us) × (0 < length rest)) ⊎ (lookup j partial ≡ some us)
  shrunk_inv [] us j e =
      let (ne, kept) = find?-erase_inv ℕ_discrete k j us (assign ℕ_discrete k [] partial) e in
      elim (find?-assign_inv ℕ_discrete k j [] us partial kept) [
        | inl (same, _) ↦ absurd (ne same)
        | inr (_, old) ↦ inr old
      ]
  shrunk_inv (x ∷ rest) us j e = elim (find?-assign_inv ℕ_discrete k j (x ∷ rest) us partial e) [
    | inl (same, eq) ↦ inl (same, eq, omega arith)
    | inr (_, old) ↦ inr old
  ]

module _ (order : ThreadMap → ℕ) {m : Manager} (v : IsValid m) where
  module _ (k : ℕ) (ts : List ℕ) (first : begin order m.free_cores ≡ some (k, ts))
      (found : lookup k m.free_cores ≡ some ts) where
    unfoldable pub moved : Manager
    moved = record m {
      partially_free = assign ℕ_discrete k ts m.partially_free;
      free_cores = erase ℕ_discrete k m.free_cores;
      free_core_count = decrement32 m.free_core_count;
    }

    pub move_core-eq_moved : move_core order m ≡ ok moved
    unfolding move_core moved
    move_core-eq_moved = rw (first, list_of-eq k ts m.free_cores found)

    absent : lookup k m.partially_free ≡ none
    absent = Apart-none m.partially_free m.free_cores k ts v.apart found

    entry : PartialEntry m.core_to_threads k ts
    entry =
        let (c, core, same) = v.free.entries k ts found in
        (c, core, rw (← same) (v.cores.inhabited k c core), λ i. rw same (omega arith))

    pub moved-IsValid : IsValid moved
    unfolding moved
    moved-IsValid = record {
      cores = v.cores;
      free = MapOk-erase v.free k;
      partial = MapOk-assign v.partial k ts entry;
      apart =
          Apart-assign_left m.partially_free (erase ℕ_discrete k m.free_cores)
            (Apart-erase_right m.partially_free m.free_cores v.apart k) k ts
            (lookup-erase_self k m.free_cores);
      threads_counted = omega (
        arith,
        v.threads_counted,
        weigh-erase ℕ_discrete length k ts m.free_cores v.free.distinct found,
        weigh-assign_new ℕ_discrete length k ts m.partially_free absent,
      );
      cores_counted = omega (
        arith,
        v.cores_counted,
        cores-bounded v,
        v.cores.bounded,
        length-eq_weigh m.free_cores,
        length-eq_weigh (erase ℕ_discrete k m.free_cores),
        weigh-erase ℕ_discrete (λ _. 1) k ts m.free_cores v.free.distinct found,
      );
    }

    pub moved-available : (i : ℕ) → available i moved ≡ available i m
    unfolding moved
    moved-available i = omega (
      arith,
      weigh-erase ℕ_discrete (count i) k ts m.free_cores v.free.distinct found,
      weigh-assign_new ℕ_discrete (count i) k ts m.partially_free absent,
    )

  module _ (k : ℕ) (rest : List ℕ) (i : ℕ)
      (found : lookup k m.partially_free ≡ some (rest ++ i ∷ [])) where
    unfoldable pub taken : Manager
    taken = record m {
      partially_free = shrunk k rest m.partially_free;
      free_thread_count = decrement32 m.free_thread_count;
    }

    shrunk_entry :
        (j : ℕ) (us : List ℕ)
        → lookup j (shrunk k rest m.partially_free) ≡ some us
        → PartialEntry m.core_to_threads j us
    shrunk_entry j us e = elim (shrunk_inv k m.partially_free v.partial.distinct rest us j e) [
      | inr old ↦ v.partial.entries j us old
      | inl (same, eq, pos) ↦
          let (c, core, _, counts) = v.partial.entries k (rest ++ i ∷ []) found in
          rw (← same, ← eq)
            (c, core, pos, λ n. omega (arith, counts n, count-append n rest (i ∷ [])))
    ]

    shrunk-Apart : Apart (shrunk k rest m.partially_free) m.free_cores
    shrunk-Apart j us e = elim (shrunk_inv k m.partially_free v.partial.distinct rest us j e) [
      | inr old ↦ v.apart j us old
      | inl (same, _, _) ↦ rw (← same) (v.apart k (rest ++ i ∷ []) found)
    ]

    pub taken-IsValid : IsValid taken
    unfolding taken
    taken-IsValid = record {
      cores = v.cores;
      free = v.free;
      partial = record {
        distinct = shrunk-Distinct k m.partially_free v.partial.distinct rest;
        entries = shrunk_entry;
      };
      apart = shrunk-Apart;
      threads_counted = omega (
        arith,
        v.threads_counted,
        threads-bounded v,
        v.cores.bounded,
        shrunk-weigh k m.partially_free v.partial.distinct rest (rest ++ i ∷ []) length refl found,
        length-append rest (i ∷ []),
      );
      cores_counted = v.cores_counted;
    }

    pub taken-available : (j : ℕ) → available j m ≡ available j taken + one_at i j
    unfolding taken
    taken-available j = omega (
      arith,
      shrunk-weigh k m.partially_free v.partial.distinct rest (rest ++ i ∷ []) (count j) refl found,
      count-append j rest (i ∷ []),
    )

    pub take_back-eq_taken :
        (lp : LogicalProcessor)
        → begin order m.partially_free ≡ some (k, rest ++ i ∷ [])
        → get_elem? m.config.proc i ≡ some lp
        → take_back order m ≡ ok (lp, taken)
    unfolding take_back taken
    take_back-eq_taken lp first e =
        rw (
          first,
          get_last?-last rest i,
          drop_last-last rest i,
          e,
          shrunk_lem k rest m.partially_free,
        )
