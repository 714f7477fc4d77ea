-- ===== src/Manager/Grown.antt =====
-- The state in which `freeThread` of proc.cpp leaves a thread that was not on offer.
use native.Mathlib.Decide.{ℕ_discrete}
use tailslayer_win.Common.{
  ℕ, suc, ◌+◌, ◌≤◌, ◌<◌, ◌≡◌, ◌≢◌, inl, inr, refl, sym, ap, ◌∙◌, arith, List, [], ◌∷◌, ◌++◌, none,
  some, length, length-append, assign, erase, Option-cases, Distinct-assign, weigh, weigh-erase,
  weigh-assign_new, weigh-assign_old, weigh-entry, assign-same, length-eq_weigh, count,
  count-append, one_at, one_at_self, one_at_ne, counts-eq_of_length, some_injective, ==_refl, ne→==,
}
use tailslayer_win.Processors.{LogicalProcessor, unique_core_id}
use tailslayer_win.Manager.{Manager, CoreThreads, ThreadMap, list_of, add32}
use tailslayer_win.Manager.Release.{put_back}
use tailslayer_win.Manager.Valid.{
  IsValid, lookup, available, MapOk-erase, MapOk-assign, Apart-erase_left, Apart-assign_left,
  Apart-assign_right, PartialEntry, lookup-assign_self, lookup-erase_self, list_of-eq, list_of-none,
  threads_of-eq, threads-bounded, cores-bounded,
}

module _ (k : ℕ) (partial : ThreadMap) where
  -- Replacing a list, where no list counts as an empty one.
  pub weigh-replace :
      (f : List ℕ → ℕ) (ts : List ℕ)
      → f [] ≡ 0
      → weigh f (assign ℕ_discrete k ts partial) + f (list_of k partial) ≡ f ts + weigh f partial
  weigh-replace f ts empty = elim (Option-cases (lookup k partial)) [
    | inl absent ↦
        rw (list_of-none k partial absent)
          (omega (arith, empty, weigh-assign_new ℕ_discrete f k ts partial absent))
    | inr (us, found) ↦
        rw (list_of-eq k us partial found) (weigh-assign_old ℕ_discrete f k ts us partial found)
  ]

  pub weigh-list_of : (f : List ℕ → ℕ) → f [] ≡ 0 → f (list_of k partial) ≤ weigh f partial
  weigh-list_of f empty = elim (Option-cases (lookup k partial)) [
    | inl absent ↦ rw (list_of-none k partial absent, empty) (omega arith)
    | inr (us, found) ↦
        rw (list_of-eq k us partial found) (weigh-entry ℕ_discrete f k us partial found)
  ]

module _ {m : Manager} (v : IsValid m) (k i : ℕ) (c : CoreThreads)
    (core : lookup k m.core_to_threads ≡ some c) (here : 0 < count i c.threads)
    (off : available i m ≡ 0) where
  absent : lookup k m.free_cores ≡ none
  absent = elim (Option-cases (lookup k m.free_cores)) [
    | inl e ↦ e
    | inr (ts, e) ↦
        let (b, other, same) = v.free.entries k ts e in
        let one_core : b ≡ c = some_injective (sym other ∙ core) in
        absurd (
          omega (
            arith,
            weigh-entry ℕ_discrete (count i) k ts m.free_cores e,
            ap (count i) (sym same ∙ ap (λ b. b.threads) one_core),
          ))
  ]

  old : List ℕ
  old = list_of k m.partially_free

  old-counts : (j : ℕ) → count j old ≤ count j c.threads
  unfolding old
  old-counts j = elim (Option-cases (lookup k m.partially_free)) [
    | inl e ↦ rw (list_of-none k m.partially_free e) (omega arith)
    | inr (ts, e) ↦
        let (b, other, _, counts) = v.partial.entries k ts e in
        let one_core : b ≡ c = some_injective (sym other ∙ core) in
        rw (list_of-eq k ts m.partially_free e, ← one_core) (counts j)
  ]

  old-off : count i old ≡ 0
  unfolding old
  old-off = omega (arith, weigh-list_of k m.partially_free (count i) refl)

  -- The threads of the core that are on offer with `i`.
  grown : List ℕ
  grown = old ++ i ∷ []

  grown-counts : (j : ℕ) → count j grown ≤ count j c.threads
  unfolding grown
  grown-counts j = elim (ℕ_discrete i j) [
    | yes same ↦ rw (← same) (omega (arith, count-append i old (i ∷ []), old-off, one_at_self i))
    | no other ↦ omega (arith, count-append j old (i ∷ []), one_at_ne i j other, old-counts j)
  ]

  -- The state `freeThread` leaves, with counters that do not wrap.
  partly : Manager
  partly = record m {
    partially_free = assign ℕ_discrete k grown m.partially_free;
    free_thread_count = suc m.free_thread_count;
  }

  wholly : Manager
  wholly = record m {
    partially_free = erase ℕ_discrete k (assign ℕ_discrete k grown m.partially_free);
    free_cores = assign ℕ_discrete k c.threads m.free_cores;
    free_thread_count = suc m.free_thread_count;
    free_core_count = suc m.free_core_count;
  }

  grown-weigh :
      (f : List ℕ → ℕ)
      → f [] ≡ 0
      → weigh f (assign ℕ_discrete k grown m.partially_free) + f old
        ≡ f grown + weigh f m.partially_free
  unfolding old
  grown-weigh f empty = weigh-replace k m.partially_free f grown empty

  grown-entry : PartialEntry m.core_to_threads k grown
  unfolding grown
  grown-entry = (c, core, omega (arith, length-append old (i ∷ [])), grown-counts)

  partly-IsValid : IsValid partly
  unfolding partly grown
  partly-IsValid = record {
    cores = v.cores;
    free = v.free;
    partial = MapOk-assign v.partial k grown grown-entry;
    apart = Apart-assign_left m.partially_free m.free_cores v.apart k grown absent;
    threads_counted =
        omega (arith, v.threads_counted, grown-weigh length refl, length-append old (i ∷ []));
    cores_counted = v.cores_counted;
  }

  partly-available : (j : ℕ) → available j partly ≡ available j m + one_at i j
  unfolding partly grown
  partly-available j = omega (arith, grown-weigh (count j) refl, count-append j old (i ∷ []))

  wholly-weigh :
      (f : List ℕ → ℕ)
      → f [] ≡ 0
      → weigh f (erase ℕ_discrete k (assign ℕ_discrete k grown m.partially_free)) + f old
        ≡ weigh f m.partially_free
  wholly-weigh f empty = omega (
    arith,
    grown-weigh f empty,
    weigh-erase ℕ_discrete f k grown (assign ℕ_discrete k grown m.partially_free)
        (Distinct-assign ℕ_discrete k grown m.partially_free v.partial.distinct)
        (lookup-assign_self k grown m.partially_free),
  )

  wholly-IsValid : length grown ≡ length c.threads → IsValid wholly
  unfolding wholly grown partly
  wholly-IsValid full = record {
    cores = v.cores;
    free = MapOk-assign v.free k c.threads (c, core, refl);
    partial = MapOk-erase partly-IsValid.partial k;
    apart =
        Apart-assign_right (erase ℕ_discrete k kept) m.free_cores
          (Apart-erase_left kept m.free_cores partly-IsValid.apart k) k c.threads
          (lookup-erase_self k kept);
    threads_counted = omega (
      arith,
      v.threads_counted,
      full,
      wholly-weigh length refl,
      weigh-assign_new ℕ_discrete length k c.threads m.free_cores absent,
      length-append old (i ∷ []),
    );
    cores_counted = omega (
      arith,
      v.cores_counted,
      length-eq_weigh m.free_cores,
      length-eq_weigh (assign ℕ_discrete k c.threads m.free_cores),
      weigh-assign_new ℕ_discrete (λ _. 1) k c.threads m.free_cores absent,
    );
  }
    where
      kept : ThreadMap
      kept = assign ℕ_discrete k grown m.partially_free

  wholly-available :
      length grown ≡ length c.threads → (j : ℕ) → available j wholly ≡ available j m + one_at i j
  unfolding wholly grown
  wholly-available full j = omega (
    arith,
    wholly-weigh (count j) refl,
    weigh-assign_new ℕ_discrete (count j) k c.threads m.free_cores absent,
    count-append j old (i ∷ []),
    counts-eq_of_length grown c.threads grown-counts full j,
  )

  module _ (lp : LogicalProcessor) (of_core : unique_core_id lp ≡ k) (at : lp.global_id ≡ i) where
    put_back-eq_partly : length grown ≢ length c.threads → put_back lp m ≡ partly
    unfolding put_back partly grown old
    put_back-eq_partly some_out =
        let step : add32 m.free_thread_count 1 ≡ suc m.free_thread_count =
          omega (arith, threads-bounded partly-IsValid, v.cores.bounded) in
        rw
          (
            of_core,
            at,
            threads_of-eq k c m.core_to_threads core,
            assign-same ℕ_discrete k c m.core_to_threads core,
            v.cores.counted k c core,
            ne→== (length (list_of k m.partially_free ++ i ∷ [])) (length c.threads) some_out,
            step,
          )
          refl

    put_back-eq_wholly : length grown ≡ length c.threads → put_back lp m ≡ wholly
    unfolding put_back wholly partly grown old
    put_back-eq_wholly full =
        let step : add32 m.free_thread_count 1 ≡ suc m.free_thread_count =
          omega (arith, threads-bounded partly-IsValid, v.cores.bounded) in
        let core_step : add32 m.free_core_count 1 ≡ suc m.free_core_count =
          omega (arith, cores-bounded (wholly-IsValid full), v.cores.bounded) in
        rw
          (
            of_core,
            at,
            threads_of-eq k c m.core_to_threads core,
            assign-same ℕ_discrete k c m.core_to_threads core,
            v.cores.counted k c core,
            full,
            ==_refl (length c.threads),
            step,
            core_step,
          )
          refl

    pub put_back_lem :
        (n : Manager) × (put_back lp m ≡ n)
        × IsValid n
        × ((j : ℕ) → available j n ≡ available j m + one_at i j)
    put_back_lem = elim (ℕ_discrete (length grown) (length c.threads)) [
      | yes full ↦ (wholly, put_back-eq_wholly full, wholly-IsValid full, wholly-available full)
      | no some_out ↦ (partly, put_back-eq_partly some_out, partly-IsValid, partly-available)
    ]
