-- ===== src/Reader/Workers/Reads.antt =====
-- What the workers of hedged_reader.hpp read, for a reader that was filled before they were started.
use tailslayer_win.Common.{
  ℕ, zero, suc, ◌<◌, ◌≡◌, refl, sym, ap, ◌∙◌, arith, Bool, true, false, List, [], ◌∷◌, some,
  get_elem?, get_or, length, ok, subst, ◌≤◌, ◌⊎◌, inl, inr, ◌^◌, ◌-◌, none, undefined, lt→ltb,
  ne→==, le→ltb, if◌then◌else◌,
}
use tailslayer_win.Platform.Host.{affinity_mask, set_current_thread_processor_id}
use tailslayer_win.Reader.{Reader, insert_all}
use tailslayer_win.Reader.Layout.{IsLaid}
use tailslayer_win.Reader.Vector.{insert_all-reads}
use tailslayer_win.Reader.Workers.{
  Affinity, Phase, finished, dangling, Owner, starting, joining, destroyed, State, Run, first_state,
}
use tailslayer_win.Reader.Workers.Phases.{IsPresent, IsFinished}
use tailslayer_win.Reader.Workers.Runs.{RunsOn, IsSound, OwnerOk, reached-Inv}
use tailslayer_win.Reader.Workers.Measure.{in_range}

get_elem?-total {ℓ} :
    {A : Type ℓ} (xs : List A) (i : ℕ) → i < length xs → (v : A) × (get_elem? xs i ≡ some v)
get_elem?-total [] i lt = absurd (omega arith)
get_elem?-total (x ∷ xs) zero lt = (x, refl)
get_elem?-total (x ∷ xs) (suc i) lt = get_elem?-total xs i (omega arith)

-- Where a thread whose core is given may run: as any new thread, or as the mask says.
abbrev pub AllowedOn : ℕ → Affinity → Type 0
AllowedOn core affinity =
    (core < 31 → (affinity ≡ ok none) ⊎ (affinity ≡ ok (some (2 ^ core))))
    × (core ≡ 31 → (affinity ≡ ok none) ⊎ (affinity ≡ ok (some (2 ^ 64 - 2 ^ 31))))
    × (32 ≤ core → affinity ≡ undefined)

refused_or :
    (accepted : Bool) (affinity : Affinity) (mask : ℕ)
    → affinity ≡ ok (if accepted then some mask else none)
    → (affinity ≡ ok none) ⊎ (affinity ≡ ok (some mask))
refused_or true affinity mask e = inr e
refused_or false affinity mask e = inl e

runs_on : (core : ℕ) (affinity : Affinity) → RunsOn core affinity → AllowedOn core affinity
unfolding set_current_thread_processor_id affinity_mask
runs_on core affinity (accepted, e) = (
  λ low.
      refused_or accepted affinity (2 ^ core)
        (e ∙ rw (lt→ltb core 32 (omega arith), ne→== core 31 (λ same. absurd (omega arith))) refl),
  λ last. refused_or accepted affinity (2 ^ 64 - 2 ^ 31) (e ∙ rw last refl),
  λ high. e ∙ rw (le→ltb core 32 high) refl,
)

module _ {ℓ} {A : Type ℓ} (size_of n : ℕ) (r : Reader A) (Signals : ℕ → Type 0) where
  page_given_back :
      (owner : Owner) (worker : ℕ → Phase A) (live : Bool)
      → OwnerOk size_of n r Signals owner worker live
      → live ≡ false
      → (i : ℕ) → i < n
      → IsFinished (worker i)
  page_given_back (starting k) worker live (l, _, _, _) gone i lt = absurd (cc)
  page_given_back (joining k) worker live (l, _, _, _, _) gone i lt = absurd (cc)
  page_given_back destroyed worker live (joined, _) gone i lt = joined i lt

-- On an empty laid-out reader with the lock privilege, inserting fewer values than the capacity
-- succeeds. Then, in whatever order the owner and the `n` workers take their steps, and whichever
-- indices of these values `wait_work` returns: a worker that has read handed on the value inserted at
-- its index, and its thread has either the affinity of a new thread or that of its core: of the core
-- alone below 31, of the processors 31 to 63 for core 31, and from core 32 on it is undefined;
-- no worker reads the page after it was given back;
-- and when it was, all `n` workers had read.
pub workers-read {ℓ} :
    {A : Type ℓ} {size_of n k base : ℕ} (r : Reader A) (vs : List A)
    → IsLaid size_of n k base r
    → r.logical_index ≡ 0
    → length vs < r.capacity
    → (r' : Reader A) × (insert_all size_of n true vs r ≡ ok r')
      × ((steps : ℕ) (s : State A)
          → Run size_of n r' (λ i. i < length vs) first_state steps s
          → ((i : ℕ) (affinity : Affinity) (read_index : ℕ) (value : A)
              → s.worker i ≡ finished affinity read_index value
              → (i < n)
                × AllowedOn (get_or r'.cores i 0) affinity
                × (get_elem? vs read_index ≡ some value))
            × ((i : ℕ) → s.worker i ≡ dangling → ⊥)
            × (s.page_live ≡ false → (i : ℕ) → i < n → IsFinished (s.worker i)))
workers-read {size_of = size_of} {n = n} r vs laid empty room =
    let (r', run, count, reads) = insert_all-reads r laid empty vs room in
    (
      r',
      run,
      λ steps s reached.
          let h = reached-Inv size_of n r' (λ i. i < length vs) reached in
          (
            λ i affinity read_index value e.
                let (on_core, signal, same) =
                  subst (IsSound size_of n r' (λ i. i < length vs) i) e (h.sound i) in
                let lt =
                  in_range size_of n r' (λ i. i < length vs) s.owner s.worker s.page_live i
                    h.owner_ok (subst IsPresent (sym e) tt) in
                let (v, at) = get_elem?-total vs read_index signal in
                (
                  lt,
                  runs_on (get_or r'.cores i 0) affinity on_core,
                  at ∙ ap some (sym (reads i read_index v lt at) ∙ sym same),
                ),
            λ i e. (subst (IsSound size_of n r' (λ i. i < length vs) i) e (h.sound i)).0,
            page_given_back size_of n r' (λ i. i < length vs) s.owner s.worker s.page_live
                h.owner_ok,
          ),
    )
