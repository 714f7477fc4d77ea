-- ===== src/Manager/Search.antt =====
-- The two searches of `freeThread` in proc.cpp decide whether a thread is on offer.
use native.Mathlib.Decide.{ℕ_discrete, dec_lt}
use tailslayer_win.Common.{
  ℕ, ◌+◌, ◌≤◌, ◌<◌, ◌≡◌, refl, ap, arith, List, [], ◌∷◌, some, true, get_elem?, Distinct, weigh,
  count, one_at, one_at_self, one_at_ne, ok, ltb, lt→ltb, ◌==◌, ==_refl, ne→==, if◌then◌else◌,
}
use tailslayer_win.Processors.{LogicalProcessor}
use tailslayer_win.Manager.{Manager, ThreadMap, CoreThreads}
use tailslayer_win.Manager.Release.{list_has, map_has}
use tailslayer_win.Manager.Valid.{IsValid, lookup}
use tailslayer_win.Manager.Exclusive.{lookup-head, lookup-tail}

-- Each number of the list is the place of the processor with that identity.
abbrev pub Known : List LogicalProcessor → List ℕ → Type 0
Known proc ts =
    (i : ℕ)
    → 0 < count i ts
    → (lp : LogicalProcessor) × (get_elem? proc i ≡ some lp) × (lp.global_id ≡ i)

module _ (proc : List LogicalProcessor) (id : ℕ) where
  pub list_has_lem : (ts : List ℕ) → Known proc ts → list_has proc id ts ≡ ok (ltb 0 (count id ts))
  unfolding list_has
  list_has_lem [] known = refl
  list_has_lem (i ∷ is) known =
      let (lp, at, same) = known i (omega (arith, one_at_self i)) in
      let rest = list_has_lem is (λ j h. known j (omega arith)) in rw (at, rest) (step lp same)
    where
      step :
          (lp : LogicalProcessor)
          → lp.global_id ≡ i
          → (if lp.global_id == id then ok true else ok (ltb 0 (count id is)))
            ≡ ok (ltb 0 (one_at i id + count id is))
      step lp same = elim (ℕ_discrete i id) [
        | yes hit ↦
            rw
              (
                same,
                ← hit,
                ==_refl i,
                lt→ltb 0 (one_at i i + count i is) (omega (arith, one_at_self i)),
              )
              refl
        | no miss ↦
            rw (same, ne→== i id miss, one_at_ne i id miss) (ap (λ n. ok (ltb 0 n)) (omega arith))
      ]

  pub map_has_lem :
      (m : ThreadMap)
      → Distinct ℕ_discrete m
      → ((k : ℕ) (ts : List ℕ) → lookup k m ≡ some ts → Known proc ts)
      → map_has proc id m ≡ ok (ltb 0 (weigh (count id) m))
  unfolding map_has
  map_has_lem [] d known = refl
  map_has_lem ((k, ts) ∷ m) d known =
      let here = list_has_lem ts (known k ts (lookup-head k ts m)) in
      let rest = map_has_lem m d.1 (λ j us e. known j us (lookup-tail k ts m j us d.0 e)) in
      rw (here, rest) (either (count id ts) (weigh (count id) m))
    where
      either : (a b : ℕ) → (if ltb 0 a then ok true else ok (ltb 0 b)) ≡ ok (ltb 0 (a + b))
      either a b = elim (dec_lt 0 a) [
        | yes pos ↦ rw (lt→ltb 0 a pos, lt→ltb 0 (a + b) (omega arith)) refl
        | no none_here ↦
            let nothing : a ≡ 0 = omega arith in rw nothing (ap (λ n. ok (ltb 0 n)) (omega arith))
      ]

module _ {m : Manager} (v : IsValid m) (id : ℕ) where
  core-Known :
      (k : ℕ) (c : CoreThreads) (ts : List ℕ)
      → lookup k m.core_to_threads ≡ some c
      → ((i : ℕ) → count i ts ≤ count i c.threads)
      → Known m.config.proc ts
  core-Known k c ts core counts i pos =
      let (lp, at, same, _) = v.cores.indexed k c i core (omega (arith, counts i)) in (lp, at, same)

  pub free-map_has :
      map_has m.config.proc id m.free_cores ≡ ok (ltb 0 (weigh (count id) m.free_cores))
  free-map_has = map_has_lem m.config.proc id m.free_cores v.free.distinct known
    where
      known : (k : ℕ) (ts : List ℕ) → lookup k m.free_cores ≡ some ts → Known m.config.proc ts
      known k ts e =
          let (c, core, same) = v.free.entries k ts e in
          core-Known k c ts core (λ i. rw same (omega arith))

  pub partial-map_has :
      map_has m.config.proc id m.partially_free ≡ ok (ltb 0 (weigh (count id) m.partially_free))
  partial-map_has = map_has_lem m.config.proc id m.partially_free v.partial.distinct known
    where
      known : (k : ℕ) (ts : List ℕ) → lookup k m.partially_free ≡ some ts → Known m.config.proc ts
      known k ts e =
          let (c, core, _, counts) = v.partial.entries k ts e in core-Known k c ts core counts
