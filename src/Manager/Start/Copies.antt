-- ===== src/Manager/Start/Copies.antt =====
-- The second loop of `initialize` in proc.cpp: the counts, and the free cores.
use native.Mathlib.Decide.{ℕ_discrete}
use tailslayer_win.Common.{
  clash, ℕ, ◌%◌, ◌^◌, ◌≡◌, refl, sym, ap, ◌∙◌, arith, List, [], ◌∷◌, ◌++◌, append-nil, append_assoc,
  none, some, length, find?-assign, assign, assign-new, Distinct, weigh, subst,
}
use tailslayer_win.Manager.{CoreThreads, ThreadMap, count_threads, add_free_cores}
use tailslayer_win.Manager.Valid.{CoreMap, lookup}
use tailslayer_win.Manager.Exclusive.{lookup-head, lookup-tail}

abbrev pub counted : CoreThreads → CoreThreads
counted c = record c { thread_count = length c.threads % 2 ^ 32 }

pub count_threads-inv :
    (m : CoreMap) (k : ℕ) (c : CoreThreads)
    → lookup k (count_threads m) ≡ some c
    → (b : CoreThreads) × (lookup k m ≡ some b) × (counted b ≡ c)
unfolding count_threads
count_threads-inv [] k c e = absurd (cc)
count_threads-inv ((j, b) ∷ m) k c e = elim (ℕ_discrete j k) [
  | yes same ↦ (b, ground arith, ground arith)
  | no other ↦ let (d, there, eq) = count_threads-inv m k c (ground arith) in (d, ground arith, eq)
]

pub count_threads-none :
    (m : CoreMap) (k : ℕ) → lookup k m ≡ none → lookup k (count_threads m) ≡ none
unfolding count_threads
count_threads-none [] k e = refl
count_threads-none ((j, b) ∷ m) k e = ground (arith, count_threads-none m k)

pub count_threads-some :
    (m : CoreMap) (k : ℕ) (b : CoreThreads)
    → lookup k m ≡ some b
    → lookup k (count_threads m) ≡ some (counted b)
unfolding count_threads
count_threads-some [] k b e = absurd (cc)
count_threads-some ((j, d) ∷ m) k b e = ground (arith, count_threads-some m k b)

pub count_threads-Distinct :
    (m : CoreMap) → Distinct ℕ_discrete m → Distinct ℕ_discrete (count_threads m)
unfolding count_threads
count_threads-Distinct [] d = tt
count_threads-Distinct ((j, b) ∷ m) d = (count_threads-none m j d.0, count_threads-Distinct m d.1)

pub count_threads-weigh :
    (f : CoreThreads → ℕ) (m : CoreMap)
    → ((b : CoreThreads) → f (counted b) ≡ f b)
    → weigh f (count_threads m) ≡ weigh f m
unfolding count_threads
count_threads-weigh f [] h = refl
count_threads-weigh f ((j, b) ∷ m) h = omega (arith, h b, count_threads-weigh f m h)

-- The lists of the cores.
abbrev pub copies : CoreMap → ThreadMap
copies [] = []
copies ((k, c) ∷ m) = (k, c.threads) ∷ copies m

add_free_cores-copies :
    (m : CoreMap) (free : ThreadMap)
    → Distinct ℕ_discrete m
    → ((k : ℕ) (c : CoreThreads) → lookup k m ≡ some c → lookup k free ≡ none)
    → add_free_cores m free ≡ free ++ copies m
unfolding add_free_cores
add_free_cores-copies [] free d fresh = sym (append-nil free)
add_free_cores-copies ((k, c) ∷ m) free d fresh =
    let absent = fresh k c (lookup-head k c m) in
    add_free_cores-copies m (assign ℕ_discrete k c.threads free) d.1 still
    ∙ ap (λ l. l ++ copies m) (assign-new ℕ_discrete k c.threads free absent)
    ∙ append_assoc free ((k, c.threads) ∷ []) (copies m)
  where
    still :
        (j : ℕ) (b : CoreThreads)
        → lookup j m ≡ some b
        → lookup j (assign ℕ_discrete k c.threads free) ≡ none
    still j b e =
        let later = fresh j b (lookup-tail k c m j b d.0 e) in
        elim (ℕ_discrete k j) [
          | yes same ↦ absurd (clash (subst (λ n. lookup n m ≡ none) same d.0) e)
          | no other ↦ ground (arith, find?-assign ℕ_discrete k j c.threads free)
        ]

pub add_free_cores_lem : (m : CoreMap) → Distinct ℕ_discrete m → add_free_cores m [] ≡ copies m
add_free_cores_lem m d = add_free_cores-copies m [] d (λ k c e. refl)

pub copies-inv :
    (m : CoreMap) (k : ℕ) (ts : List ℕ)
    → lookup k (copies m) ≡ some ts
    → (c : CoreThreads) × (lookup k m ≡ some c) × (c.threads ≡ ts)
copies-inv [] k ts e = absurd (cc)
copies-inv ((j, b) ∷ m) k ts e = elim (ℕ_discrete j k) [
  | yes same ↦ (b, ground arith, ground arith)
  | no other ↦ let (d, there, eq) = copies-inv m k ts (ground arith) in (d, ground arith, eq)
]

copies-none : (m : CoreMap) (k : ℕ) → lookup k m ≡ none → lookup k (copies m) ≡ none
copies-none [] k e = refl
copies-none ((j, b) ∷ m) k e = ground (arith, copies-none m k)

pub copies-Distinct : (m : CoreMap) → Distinct ℕ_discrete m → Distinct ℕ_discrete (copies m)
copies-Distinct [] d = tt
copies-Distinct ((j, b) ∷ m) d = (copies-none m j d.0, copies-Distinct m d.1)

pub copies-weigh : (f : List ℕ → ℕ) (m : CoreMap) → weigh f (copies m) ≡ weigh (λ c. f c.threads) m
copies-weigh f [] = refl
copies-weigh f ((j, b) ∷ m) = omega (arith, copies-weigh f m)
