-- ===== src/Common/UnorderedMap.antt =====
-- `std::unordered_map` as an association list. Its iteration order is unspecified, so `begin` takes
-- the position of the first element from a function that may be any.
use Prim.Native.Nat.{ℕ, zero, suc, ◌+◌, ◌%◌, ◌≤◌, ◌<◌}
use native.Mathlib.Nat.{mod-lt}
use native.Mathlib.Omega.{arith}
use mathlib.Core.Path.{◌≡◌, refl}
use mathlib.Core.Logic.{◌≢◌, ◌⊎◌, inl, inr, ite}
use mathlib.Core.Option.{Option, none, some}
use mathlib.Core.List.{List, [], ◌∷◌, ◌++◌}
use tailslayer_win.Common.Booleans.{Option-cases}
use tailslayer_win.Common.Lists.{length, get_elem?}

module _ {ℓ} {K V : Type ℓ} where
  -- The sum of a measure over the values.
  abbrev pub weigh : (V → ℕ) → List (K × V) → ℕ
  weigh f [] = 0
  weigh f ((k, v) ∷ m) = f v + weigh f m

  module _ (d : Discrete K) where
    abbrev pub find? : K → List (K × V) → Option V
    find? k [] = none
    find? k ((j, v) ∷ m) = ite (d j k) (some v) (find? k m)

    -- `m[k] = v`.
    abbrev pub assign : K → V → List (K × V) → List (K × V)
    assign k v [] = (k, v) ∷ []
    assign k v ((j, w) ∷ m) = ite (d j k) ((k, v) ∷ m) ((j, w) ∷ assign k v m)

    -- `m.erase(k)`.
    abbrev pub erase : K → List (K × V) → List (K × V)
    erase k [] = []
    erase k ((j, w) ∷ m) = ite (d j k) (erase k m) ((j, w) ∷ erase k m)

    -- No key occurs twice.
    abbrev pub Distinct : List (K × V) → Type ℓ
    Distinct [] = Unit
    Distinct ((k, v) ∷ m) = (find? k m ≡ none) × Distinct m

    pub find?-assign :
        (k j : K) (v : V) (m : List (K × V))
        → find? j (assign k v m) ≡ ite (d k j) (some v) (find? j m)
    find?-assign k j v [] = refl
    find?-assign k j v ((i, w) ∷ m) = ground (arith, find?-assign k j v m)

    pub find?-erase :
        (k j : K) (m : List (K × V)) → find? j (erase k m) ≡ ite (d k j) none (find? j m)
    find?-erase k j [] = ground arith
    find?-erase k j ((i, w) ∷ m) = ground (arith, find?-erase k j m)

    pub Distinct-assign : (k : K) (v : V) (m : List (K × V)) → Distinct m → Distinct (assign k v m)
    Distinct-assign k v [] h = (refl, tt)
    Distinct-assign k v ((i, w) ∷ m) h =
        ground (arith, find?-assign k i v m, Distinct-assign k v m h.1)

    pub Distinct-erase : (k : K) (m : List (K × V)) → Distinct m → Distinct (erase k m)
    Distinct-erase k [] h = tt
    Distinct-erase k ((i, w) ∷ m) h = ground (arith, find?-erase k i m, Distinct-erase k m h.1)

    pub erase_absent : (k : K) (m : List (K × V)) → find? k m ≡ none → erase k m ≡ m
    erase_absent k [] h = refl
    erase_absent k ((i, w) ∷ m) h = ground (arith, erase_absent k m)

    pub weigh-erase :
        (f : V → ℕ) (k : K) (v : V) (m : List (K × V))
        → Distinct m
        → find? k m ≡ some v
        → weigh f m ≡ f v + weigh f (erase k m)
    weigh-erase f k v [] h e = absurd (cc)
    weigh-erase f k v ((i, w) ∷ m) h e = ground (arith, erase_absent k m, weigh-erase f k v m h.1)

    pub weigh-assign_new :
        (f : V → ℕ) (k : K) (v : V) (m : List (K × V))
        → find? k m ≡ none
        → weigh f (assign k v m) ≡ f v + weigh f m
    weigh-assign_new f k v [] e = omega arith
    weigh-assign_new f k v ((i, w) ∷ m) e = ground (arith, weigh-assign_new f k v m)

    pub weigh-assign_old :
        (f : V → ℕ) (k : K) (v w : V) (m : List (K × V))
        → find? k m ≡ some w
        → weigh f (assign k v m) + f w ≡ f v + weigh f m
    weigh-assign_old f k v w [] e = absurd (cc)
    weigh-assign_old f k v w ((i, u) ∷ m) e = ground (arith, weigh-assign_old f k v w m)

    pub weigh-entry :
        (f : V → ℕ) (k : K) (v : V) (m : List (K × V)) → find? k m ≡ some v → f v ≤ weigh f m
    weigh-entry f k v [] e = absurd (cc)
    weigh-entry f k v ((i, w) ∷ m) e = ground (arith, weigh-entry f k v m)

    pub assign-same : (k : K) (v : V) (m : List (K × V)) → find? k m ≡ some v → assign k v m ≡ m
    assign-same k v [] e = absurd (cc)
    assign-same k v ((i, w) ∷ m) e = ground (arith, assign-same k v m)

    pub assign-new :
        (k : K) (v : V) (m : List (K × V)) → find? k m ≡ none → assign k v m ≡ m ++ (k, v) ∷ []
    assign-new k v [] e = refl
    assign-new k v ((i, w) ∷ m) e = ground (arith, assign-new k v m)

    -- What an entry of a changed map was before.
    pub find?-erase_inv :
        (k j : K) (v : V) (m : List (K × V))
        → find? j (erase k m) ≡ some v
        → (k ≢ j) × (find? j m ≡ some v)
    find?-erase_inv k j v m e = ground (arith, find?-erase k j m)

    pub find?-assign_inv :
        (k j : K) (v w : V) (m : List (K × V))
        → find? j (assign k v m) ≡ some w
        → ((k ≡ j) × (v ≡ w)) ⊎ ((k ≢ j) × (find? j m ≡ some w))
    find?-assign_inv k j v w m e = ground (arith, find?-assign k j v m)

    pub find?-of_elem :
        (m : List (K × V)) (i : ℕ) {k : K} {v : V}
        → Distinct m
        → get_elem? m i ≡ some (k, v)
        → find? k m ≡ some v
    find?-of_elem [] i h e = absurd (cc)
    find?-of_elem ((j, w) ∷ m) zero {k} {v} h e = ground arith
    find?-of_elem ((j, w) ∷ m) (suc i) h e = ground (arith, find?-of_elem m i h.1 e)

  -- `m.begin()`, where `order` picks the position; `none` is `m.end()`.
  abbrev pub begin : (List (K × V) → ℕ) → List (K × V) → Option (K × V)
  begin order m = get_elem? m (order m % length m)

  get_elem?-total :
      (m : List (K × V)) (i : ℕ) → i < length m → (e : K × V) × (get_elem? m i ≡ some e)
  get_elem?-total [] i h = elim h [ ]
  get_elem?-total (x ∷ m) zero h = (x, refl)
  get_elem?-total (x ∷ m) (suc i) h = get_elem?-total m i (omega arith)

  -- A map with entries has a first one, and it is the entry of its key.
  pub begin-find? :
      (d : Discrete K) (order : List (K × V) → ℕ) (m : List (K × V))
      → Distinct d m
      → 0 < length m
      → (k : K) × (v : V) × (begin order m ≡ some (k, v)) × (find? d k m ≡ some v)
  begin-find? d order m h pos =
      let ((k, v), e) = get_elem?-total m (order m % length m) (mod-lt (order m) pos) in
      (k, v, e, find?-of_elem d m (order m % length m) h e)

module _ {ℓ} {K V W : Type ℓ} (d : Discrete K) (f : V → ℕ) (g : W → ℕ) where
  -- Every entry of `a` has an entry in `b` under the same key that weighs no less.
  abbrev pub Covered : List (K × V) → List (K × W) → Type ℓ
  Covered a b =
      (k : K) (v : V) → find? d k a ≡ some v → (w : W) × (find? d k b ≡ some w) × (f v ≤ g w)

  Covered-erase :
      (k : K) (a : List (K × V)) (b : List (K × W))
      → find? d k a ≡ none
      → Covered a b
      → Covered a (erase d k b)
  Covered-erase k a b absent h j v e =
      let (w, found, le) = h j v e in (w, ground (arith, find?-erase d k j b), le)

  Covered-tail :
      (k : K) (v : V) (a : List (K × V)) (b : List (K × W))
      → find? d k a ≡ none
      → Covered ((k, v) ∷ a) b
      → Covered a b
  Covered-tail k v a b absent h j w e = h j w (ground arith)

  Covered-head :
      (k : K) (v : V) (a : List (K × V)) (b : List (K × W))
      → Covered ((k, v) ∷ a) b
      → (w : W) × (find? d k b ≡ some w) × (f v ≤ g w)
  Covered-head k v a b h = h k v (ground arith)

  pub weigh-le :
      (a : List (K × V)) (b : List (K × W))
      → Distinct d a
      → Distinct d b
      → Covered a b
      → weigh f a ≤ weigh g b
  weigh-le [] b da db h = omega arith
  weigh-le ((k, v) ∷ a) b da db h =
      let (w, found, le) = Covered-head k v a b h in
      omega (
        arith,
        weigh-erase d g k w b db found,
        weigh-le a (erase d k b) da.1 (Distinct-erase d k b db)
            (Covered-erase k a b da.0 (Covered-tail k v a b da.0 h)),
      )

  -- Two maps without a common key, both covered by `b`, weigh no more than `b` together.
  pub weigh-le_of_apart :
      (a a' : List (K × V)) (b : List (K × W))
      → Distinct d a
      → Distinct d a'
      → Distinct d b
      → ((k : K) (v : V) → find? d k a' ≡ some v → find? d k a ≡ none)
      → Covered a b
      → Covered a' b
      → weigh f a + weigh f a' ≤ weigh g b
  weigh-le_of_apart [] a' b da da' db apart h h' = omega (arith, weigh-le a' b da' db h')
  weigh-le_of_apart ((k, v) ∷ a) a' b da da' db apart h h' =
      let (w, found, le) = Covered-head k v a b h in
      omega (
        arith,
        weigh-erase d g k w b db found,
        weigh-le_of_apart a a' (erase d k b) da.1 da' (Distinct-erase d k b db)
            (λ j u e. ground (arith, apart j u e))
            (Covered-erase k a b da.0 (Covered-tail k v a b da.0 h))
            (Covered-erase k a' b not_there h'),
      )
    where
      not_there : find? d k a' ≡ none
      not_there = elim (Option-cases (find? d k a')) [
        | inl e ↦ e
        | inr (u, e) ↦ absurd (ground (arith, apart k u e))
      ]

-- The number of entries, as a weight.
pub length-eq_weigh {ℓ} : {K V : Type ℓ} (m : List (K × V)) → length m ≡ weigh (λ _. 1) m
length-eq_weigh [] = refl
length-eq_weigh ((k, v) ∷ m) = omega (arith, length-eq_weigh m)
