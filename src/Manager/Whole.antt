-- ===== src/Manager/Whole.antt =====
-- `allocateProcessor` and `freeProcessor` of proc.cpp: whole cores.
use native.Mathlib.Decide.{ℕ_discrete}
use tailslayer_win.Common.{
  ℕ, suc, get_elem?, ◌+◌, ◌-◌, ◌%◌, ◌^◌, ◌≤◌, ◌<◌, ◌≡◌, refl, ap, ap₂, ◌∙◌, arith, List, [], ◌∷◌,
  ◌++◌, map, append-nil, append_assoc, none, some, true, length, assign, erase, begin, erase_absent,
  weigh, weigh-erase, weigh-assign_new, weigh-entry, assign-same, length-eq_weigh, count,
  one_at_self, Covered, weigh-le_of_apart, ok, ne→==, All, max32,
}
use tailslayer_win.Processors.{LogicalProcessor, unique_core_id}
use tailslayer_win.Manager.{Manager, CoreThreads, ThreadMap, decrement32, add32}
use tailslayer_win.Manager.Allocate.{take_threads, allocate_processor}
use tailslayer_win.Manager.Release.{free_processor}
use tailslayer_win.Manager.Valid.{
  IsValid, lookup, available, IsThread, MapOk-erase, MapOk-assign, Apart-erase_right,
  Apart-assign_right, threads_of-eq, threads-bounded, cores-bounded,
}

-- The loop of `allocateProcessor` appends the threads' processors in order.
take_threads_lem :
    (k : ℕ) (proc : List LogicalProcessor) (ts : List ℕ) (n : ℕ) (out : List LogicalProcessor)
    → ((i : ℕ) → 0 < count i ts → IsThread proc k i)
    → length ts ≤ n
    → n < 2 ^ 32
    → (lps : List LogicalProcessor) × (take_threads ts proc n out ≡ ok (out ++ lps, n - length ts))
      × (map (λ lp. lp.global_id) lps ≡ ts)
      × All (λ lp. (get_elem? proc lp.global_id ≡ some lp) × (unique_core_id lp ≡ k)) lps
unfolding take_threads
take_threads_lem k proc [] n out known le fits =
    ([], rw (append-nil out) (ap (λ r. ok (out, r)) (omega arith)), refl, tt)
take_threads_lem k proc (i ∷ is) n out known le fits =
    let (lp, at, same, of_core) = known i (omega (arith, one_at_self i)) in
    let (lps, e, ids, all) =
      take_threads_lem k proc is (n - 1) (out ++ lp ∷ []) (λ j h. known j (omega arith))
        (omega arith) (omega arith) in
    let next : decrement32 n ≡ n - 1 = omega arith in
    (
      lp ∷ lps,
      rw (at, next) (e ∙ ap₂ (λ a b. ok (a, b)) (append_assoc out (lp ∷ []) lps) (omega arith)),
      ap₂ (◌∷◌) same ids,
      ((ap (get_elem? proc) same ∙ at, of_core), all),
    )

module _ {m : Manager} (v : IsValid m) (k : ℕ) (c : CoreThreads)
    (core : lookup k m.core_to_threads ≡ some c) where
  module _ (found : lookup k m.free_cores ≡ some c.threads) where
    unfoldable pub without : Manager
    without = record m {
      free_thread_count = m.free_thread_count - length c.threads;
      free_cores = erase ℕ_discrete k m.free_cores;
      free_core_count = m.free_core_count - 1;
    }

    pub without-IsValid : IsValid without
    unfolding without
    without-IsValid = record {
      cores = v.cores;
      free = MapOk-erase v.free k;
      partial = v.partial;
      apart = Apart-erase_right m.partially_free m.free_cores v.apart k;
      threads_counted = omega (
        arith,
        v.threads_counted,
        weigh-erase ℕ_discrete length k c.threads m.free_cores v.free.distinct found,
      );
      cores_counted = omega (
        arith,
        v.cores_counted,
        length-eq_weigh m.free_cores,
        length-eq_weigh (erase ℕ_discrete k m.free_cores),
        weigh-erase ℕ_discrete (λ _. 1) k c.threads m.free_cores v.free.distinct found,
      );
    }

    pub without-available : (j : ℕ) → available j m ≡ available j without + count j c.threads
    unfolding without
    without-available j =
        omega
          (arith, weigh-erase ℕ_discrete (count j) k c.threads m.free_cores v.free.distinct found)

    pub allocate_processor-eq :
        (order : ThreadMap → ℕ) (out : List LogicalProcessor)
        → begin order m.free_cores ≡ some (k, c.threads)
        → (lps : List LogicalProcessor) × (allocate_processor order out m
            ≡ ok (true, out ++ lps, without))
          × (map (λ lp. lp.global_id) lps ≡ c.threads)
          × All
              (λ lp. (get_elem? m.config.proc lp.global_id ≡ some lp) × (unique_core_id lp ≡ k))
              lps
          × (without.config ≡ m.config)
          × (suc without.free_core_count ≡ m.free_core_count)
          × (without.free_thread_count + length c.threads ≡ m.free_thread_count)
    unfolding allocate_processor without
    allocate_processor-eq order out first =
        let weight = weigh-entry ℕ_discrete length k c.threads m.free_cores found in
        let one = weigh-entry ℕ_discrete (λ _. 1) k c.threads m.free_cores found in
        let (lps, e, ids, all) =
          take_threads_lem k m.config.proc c.threads m.free_thread_count out
            (λ i here. v.cores.indexed k c i core here) (omega (arith, v.threads_counted))
            (omega (arith, threads-bounded v, v.cores.bounded)) in
        let some_core : 0 < m.free_core_count =
          omega (arith, v.cores_counted, length-eq_weigh m.free_cores) in
        let step : decrement32 m.free_core_count ≡ m.free_core_count - 1 =
          omega (arith, cores-bounded v, v.cores.bounded) in
        (
          lps,
          rw (ne→== m.free_core_count 0 (omega arith), first, e, step) refl,
          ids,
          all,
          refl,
          omega arith,
          omega (arith, v.threads_counted),
        )

  module _ (free : lookup k m.free_cores ≡ none) where
    some_core_taken : length m.free_cores < length m.core_to_threads
    some_core_taken = omega (
      arith,
      length-eq_weigh m.free_cores,
      length-eq_weigh m.core_to_threads,
      weigh-le_of_apart ℕ_discrete (λ (_ : List ℕ). 1) (λ (_ : CoreThreads). 1) m.free_cores
          ((k, []) ∷ []) m.core_to_threads v.free.distinct (refl, tt) v.cores.distinct
          (λ j ts e. only j ts e)
          (λ j ts e. let (b, there, _) = v.free.entries j ts e in (b, there, omega arith)) one_more,
    )
      where
        only :
            (j : ℕ) (ts : List ℕ) → lookup j ((k, []) ∷ []) ≡ some ts → lookup j m.free_cores ≡ none
        only j ts e = elim (ℕ_discrete k j) [
          | yes same ↦ rw (← same) free
          | no other ↦ absurd (ground arith)
        ]

        one_more :
            Covered ℕ_discrete
              (λ (_ : List ℕ). 1)
              (λ (_ : CoreThreads). 1)
              ((k, []) ∷ [])
              m.core_to_threads
        one_more j ts e = elim (ℕ_discrete k j) [
          | yes same ↦ rw (← same) (c, core, omega arith)
          | no other ↦ absurd (ground arith)
        ]

    unfoldable pub given_back : Manager
    given_back = record m {
      partially_free = erase ℕ_discrete k m.partially_free;
      free_cores = assign ℕ_discrete k c.threads m.free_cores;
      free_thread_count = add32 m.free_thread_count (length c.threads);
      free_core_count = add32 m.free_core_count 1;
    }

    pub free_processor-eq :
        (core_id package_id : ℕ)
        → unique_core_id (record {
          global_id = max32;
          core_id = core_id;
          pkg_id = package_id;
          usable = 1;
          affinity_mask = record { group = 0; mask = 0 };
        })
          ≡ k
        → free_processor core_id package_id m ≡ given_back
    unfolding free_processor given_back
    free_processor-eq core_id package_id same_core =
        rw
          (
            same_core,
            ne→== (length m.free_cores) (length m.core_to_threads) (omega (arith, some_core_taken)),
            free,
            threads_of-eq k c m.core_to_threads core,
            assign-same ℕ_discrete k c m.core_to_threads core,
            v.cores.counted k c core,
          )
          refl

    -- What `given_back` is once the core has no thread on offer.
    module _ (partial : lookup k m.partially_free ≡ none) where
      kept : erase ℕ_discrete k m.partially_free ≡ m.partially_free
      kept = erase_absent ℕ_discrete k m.partially_free partial

      unbounded : Manager
      unbounded = record m {
        free_cores = assign ℕ_discrete k c.threads m.free_cores;
        free_thread_count = m.free_thread_count + length c.threads;
        free_core_count = m.free_core_count + 1;
      }

      unbounded-IsValid : IsValid unbounded
      unfolding unbounded
      unbounded-IsValid = record {
        cores = v.cores;
        free = MapOk-assign v.free k c.threads (c, core, refl);
        partial = v.partial;
        apart = Apart-assign_right m.partially_free m.free_cores v.apart k c.threads partial;
        threads_counted = omega (
          arith,
          v.threads_counted,
          weigh-assign_new ℕ_discrete length k c.threads m.free_cores free,
        );
        cores_counted = omega (
          arith,
          v.cores_counted,
          length-eq_weigh m.free_cores,
          length-eq_weigh (assign ℕ_discrete k c.threads m.free_cores),
          weigh-assign_new ℕ_discrete (λ _. 1) k c.threads m.free_cores free,
        );
      }

      given_back-eq : given_back ≡ unbounded
      unfolding given_back unbounded
      given_back-eq =
          let threads : add32 m.free_thread_count (length c.threads)
              ≡ m.free_thread_count + length c.threads =
            omega (arith, threads-bounded unbounded-IsValid, v.cores.bounded) in
          let cores : add32 m.free_core_count 1 ≡ m.free_core_count + 1 =
            omega (arith, cores-bounded unbounded-IsValid, v.cores.bounded) in
          rw (kept, threads, cores) refl

      pub given_back-IsValid : IsValid given_back
      given_back-IsValid = rw given_back-eq unbounded-IsValid

      pub given_back-available :
          (j : ℕ) → available j given_back ≡ available j m + count j c.threads
      unfolding unbounded
      given_back-available j =
          rw given_back-eq
            (omega (arith, weigh-assign_new ℕ_discrete (count j) k c.threads m.free_cores free))

    pub given_back-count :
        (ts : List ℕ)
        → lookup k m.partially_free ≡ some ts
        → given_back.free_thread_count
          ≡ (weigh length given_back.free_cores
              + weigh length given_back.partially_free
              + length ts)
            % 2 ^ 32
    unfolding given_back
    given_back-count ts found = omega (
      arith,
      v.threads_counted,
      weigh-assign_new ℕ_discrete length k c.threads m.free_cores free,
      weigh-erase ℕ_discrete length k ts m.partially_free v.partial.distinct found,
    )
