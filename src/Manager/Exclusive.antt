-- ===== src/Manager/Exclusive.antt =====
-- No thread of a valid `DynamicThreadManager` is on offer twice.
use native.Mathlib.Decide.{ℕ_discrete, dec_lt}
use native.Mathlib.Nat.{le_trans}
use tailslayer_win.Common.{
  ℕ, ◌≤◌, ◌<◌, ◌≡◌, ◌≢◌, refl, sym, ap, ◌∙◌, arith, List, [], ◌∷◌, none, some, Distinct, weigh,
  weigh-le_of_apart, count, Covered, some_injective,
}
use tailslayer_win.Processors.{LogicalProcessor, unique_core_id}
use tailslayer_win.Manager.{Manager}
use tailslayer_win.Manager.Valid.{IsValid, lookup, available, IsThread}

-- The index of a thread fixes its core.
IsThread-key :
    (proc : List LogicalProcessor) (k j i : ℕ) → IsThread proc k i → IsThread proc j i → k ≡ j
IsThread-key proc k j i (lp, e, _, u) (lq, f, _, w) =
    let same : lp ≡ lq = some_injective (sym e ∙ f) in sym u ∙ ap unique_core_id same ∙ w

module _ {V : Type 0} (k : ℕ) (v : V) (m : List (ℕ × V)) where
  pub lookup-head : lookup k ((k, v) ∷ m) ≡ some v
  lookup-head = ground arith

  pub lookup-tail :
      (j : ℕ) (w : V) → lookup k m ≡ none → lookup j m ≡ some w → lookup j ((k, v) ∷ m) ≡ some w
  lookup-tail j w absent e = ground arith

module _ {V : Type 0} (f : V → ℕ) where
  -- A measure of at most 1 that is positive under one key at most.
  record IsSingle (m : List (ℕ × V)) : Type 0 where
    small : (k : ℕ) (v : V) → lookup k m ≡ some v → f v ≤ 1
    unique :
        (k j : ℕ) (v w : V) → lookup k m ≡ some v → lookup j m ≡ some w → 0 < f v → 0 < f w → k ≡ j

  IsSingle-tail :
      (k : ℕ) (v : V) (m : List (ℕ × V)) → lookup k m ≡ none → IsSingle ((k, v) ∷ m) → IsSingle m
  IsSingle-tail k v m absent s = record {
    small = λ j w e. s.small j w (lookup-tail k v m j w absent e);
    unique = λ j i w u e g.
        s.unique j i w u (lookup-tail k v m j w absent e) (lookup-tail k v m i u absent g);
  }

  pub weigh-zero :
      (m : List (ℕ × V))
      → Distinct ℕ_discrete m
      → ((k : ℕ) (v : V) → lookup k m ≡ some v → f v ≡ 0)
      → weigh f m ≡ 0
  weigh-zero [] d h = refl
  weigh-zero ((k, v) ∷ m) d h = omega (
    arith,
    h k v (lookup-head k v m),
    weigh-zero m d.1 (λ j w e. h j w (lookup-tail k v m j w d.0 e)),
  )

  weigh-le-one : (m : List (ℕ × V)) → Distinct ℕ_discrete m → IsSingle m → weigh f m ≤ 1
  weigh-le-one [] d s = omega arith
  weigh-le-one ((k, v) ∷ m) d s = elim (dec_lt 0 (f v)) [
    | no none_here ↦ omega (arith, weigh-le-one m d.1 (IsSingle-tail k v m d.0 s))
    | yes here ↦ omega (arith, s.small k v (lookup-head k v m), weigh-zero m d.1 (others here))
  ]
    where
      others : 0 < f v → (j : ℕ) (w : V) → lookup j m ≡ some w → f w ≡ 0
      others here j w e = elim (dec_lt 0 (f w)) [
        | no none_there ↦ omega arith
        | yes there ↦
            let same =
              s.unique k j v w (lookup-head k v m) (lookup-tail k v m j w d.0 e) here there in
            absurd (elsewhere (sym d.0 ∙ ap (λ n. lookup n m) same ∙ e))
      ]
        where
          elsewhere : none ≢ some w
          elsewhere h = cc

module _ {m : Manager} (v : IsValid m) (i : ℕ) where
  open v use {cores}

  thread-IsSingle : IsSingle (λ c. count i c.threads) m.core_to_threads
  thread-IsSingle = record {
    small = λ k c e. cores.once k c i e;
    unique = λ k j c b e g here there.
        IsThread-key m.config.proc k j i (cores.indexed k c i e here) (cores.indexed j b i g there);
  }

  -- In a valid manager every thread is on offer once at most.
  pub available-le-one : available i m ≤ 1
  available-le-one =
      le_trans
        (weigh-le_of_apart ℕ_discrete (count i) (λ c. count i c.threads) m.free_cores
          m.partially_free m.core_to_threads v.free.distinct v.partial.distinct cores.distinct
          v.apart free-Covered partial-Covered)
        (weigh-le-one (λ c. count i c.threads) m.core_to_threads cores.distinct thread-IsSingle)
    where
      free-Covered :
          Covered ℕ_discrete (count i) (λ c. count i c.threads) m.free_cores m.core_to_threads
      free-Covered k ts e =
          let (c, found, same) = v.free.entries k ts e in (c, found, rw same (omega arith))

      partial-Covered :
          Covered ℕ_discrete (count i) (λ c. count i c.threads) m.partially_free m.core_to_threads
      partial-Covered k ts e =
          let (c, found, _, counts) = v.partial.entries k ts e in (c, found, counts i)
