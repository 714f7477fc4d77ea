-- ===== src/Benchmark/Pairing.antt =====
-- `pair_samples_n2` of benchmark/source/benchmark.cpp keeps the least latency of each sample.
use native.Mathlib.Decide.{dec_lt}
use tailslayer_win.Common.{
  ℕ, zero, suc, ◌+◌, ◌%◌, ◌^◌, if◌then◌else◌, ltb, undefined, none, Option-cases, ◌≤◌, ◌<◌, ◌≡◌,
  ◌⊎◌, inl, inr, refl, sym, ap, ◌∙◌, arith, lt→ltb, le→ltb, List, [], ◌∷◌, ◌++◌, append_assoc,
  append-nil, subst, length, length-append, get_elem?, some, All, max64, ok,
}
use tailslayer_win.Benchmark.{
  Sample, Range, widen, channel_loop, pair_loop, pair_samples_from, pair_samples_n2,
}

-- `m` is the latency of sample `i` on some channel.
abbrev pub Attained : ℕ → ℕ → List (List Sample) → Type 0
Attained i m [] = ⊥
Attained i m (channel ∷ channels) =
    ((s : Sample) × (get_elem? channel i ≡ some s) × (s.latency ≡ m)) ⊎ Attained i m channels

-- And no larger than on any channel.
abbrev pub Least : ℕ → ℕ → List (List Sample) → Type 0
Least i m channels =
    All (λ channel. (s : Sample) × (get_elem? channel i ≡ some s) × (m ≤ s.latency)) channels

get_elem?-some :
    (channel : List Sample) (i : ℕ)
    → i < length channel
    → (s : Sample) × (get_elem? channel i ≡ some s)
get_elem?-some [] i lt = elim lt [ ]
get_elem?-some (s ∷ channel) zero lt = (s, refl)
get_elem?-some (s ∷ channel) (suc i) lt = get_elem?-some channel i (omega arith)

-- With a greatest latency there is a next one.
widen-ok :
    (latency least greatest : ℕ)
    → (next : ℕ) × (widen latency (record { min_latency = least; max_latency = some greatest })
        ≡ ok (record {
          min_latency = if ltb latency least then latency else least;
          max_latency = some next;
        }))
unfolding widen
widen-ok latency least greatest = (if ltb greatest latency then latency else greatest, refl)

channel_loop-cons :
    (i : ℕ) (channel : List Sample) (channels : List (List Sample)) (s : Sample) (r r' : Range)
    → get_elem? channel i ≡ some s
    → widen s.latency r ≡ ok r'
    → channel_loop i (channel ∷ channels) r ≡ channel_loop i channels r'
unfolding channel_loop
channel_loop-cons i channel channels s r r' at e = rw (at, e) refl

abbrev range : ℕ → ℕ → Range
range least greatest = record { min_latency = least; max_latency = some greatest }

-- What the loop over the channels leaves.
record Ends (i : ℕ) (channels : List (List Sample)) (least greatest : ℕ) : Type 0 where
  m : ℕ
  next : ℕ
  run : channel_loop i channels (range least greatest) ≡ ok (range m next)
  le : m ≤ least
  all : Least i m channels
  from : (m ≡ least) ⊎ Attained i m channels

channel_loop_lem :
    (i : ℕ) (channels : List (List Sample)) (least greatest : ℕ)
    → All (λ channel. i < length channel) channels
    → Ends i channels least greatest
unfolding channel_loop
channel_loop_lem i [] least greatest long = record {
  m = least;
  next = greatest;
  run = refl;
  le = omega arith;
  all = tt;
  from = inl refl;
}
channel_loop_lem i (channel ∷ channels) least greatest long =
    let (s, at) = get_elem?-some channel i long.0 in
    let (next, widened) = widen-ok s.latency least greatest in
    elim (dec_lt s.latency least) [
      | yes less ↦
          let rest = channel_loop_lem i channels s.latency next long.1 in
          let first : widen s.latency (range least greatest) ≡ ok (range s.latency next) =
            widened ∙ rw (lt→ltb s.latency least less) refl in
          record {
            m = rest.m;
            next = rest.next;
            run =
                channel_loop-cons i channel channels s (range least greatest) (range s.latency next)
                  at first
                ∙ rest.run;
            le = omega (arith, rest.le);
            all = ((s, at, rest.le), rest.all);
            from =
                inr (elim rest.from [ inl same ↦ inl (s, at, sym same) | inr later ↦ inr later ]);
          }
      | no more ↦
          let rest = channel_loop_lem i channels least next long.1 in
          let first : widen s.latency (range least greatest) ≡ ok (range least next) =
            widened ∙ rw (le→ltb s.latency least (omega arith)) refl in
          record {
            m = rest.m;
            next = rest.next;
            run =
                channel_loop-cons i channel channels s (range least greatest) (range least next) at
                  first
                ∙ rest.run;
            le = rest.le;
            all = ((s, at, omega (arith, rest.le)), rest.all);
            from = elim rest.from [ inl same ↦ inl same | inr later ↦ inr (inr later) ];
          }
    ]

-- The entry for sample `i`: no larger than on any channel, and that of a channel unless it is the
-- largest number there is.
abbrev pub IsEntry : List (List Sample) → ℕ → ℕ → Type 0
IsEntry channels i m = Least i m channels × ((m ≡ max64) ⊎ Attained i m channels)

All-longer :
    (channels : List (List Sample)) (i n : ℕ)
    → i < n
    → All (λ channel. n ≤ length channel) channels
    → All (λ channel. i < length channel) channels
All-longer [] i n lt long = tt
All-longer (channel ∷ channels) i n lt long =
    (omega (arith, long.0), All-longer channels i n lt long.1)

pair_loop_lem :
    (channels : List (List Sample)) (left i n greatest : ℕ) (out : List ℕ)
    → i + left ≡ n
    → All (λ channel. n ≤ length channel) channels
    → (ms : List ℕ) × (pair_loop channels left i (some greatest) out ≡ ok (out ++ ms))
      × (length ms ≡ left)
      × ((j : ℕ) → j < left → (m : ℕ) × (get_elem? ms j ≡ some m) × IsEntry channels (i + j) m)
unfolding pair_loop
pair_loop_lem channels zero i n greatest out e long =
    ([], ap ok (sym (append-nil out)), refl, λ j lt. elim lt [ ])
pair_loop_lem channels (suc left) i n greatest out e long =
    let first =
      channel_loop_lem i channels max64 greatest (All-longer channels i n (omega arith) long) in
    let (ms, run', len, entries) =
      pair_loop_lem channels left (suc i) n first.next (out ++ first.m ∷ []) (omega arith) long in
    (
      first.m ∷ ms,
      rw first.run (run' ∙ ap ok (append_assoc out (first.m ∷ []) ms)),
      ap suc len,
      entry first.m ms (first.all, first.from) entries,
    )
  where
    entry :
        (m : ℕ) (ms : List ℕ)
        → IsEntry channels i m
        → ((j : ℕ)
            → j < left
            → (m : ℕ) × (get_elem? ms j ≡ some m) × IsEntry channels (suc i + j) m)
        → (j : ℕ) → j < suc left
        → (r : ℕ) × (get_elem? (m ∷ ms) j ≡ some r) × IsEntry channels (i + j) r
    entry m ms first later zero lt =
        let same : i ≡ i + 0 = omega arith in
        (m, refl, subst (λ k. IsEntry channels k m) same first)
    entry m ms first later (suc j) lt =
        let (r, at, here) = later j (omega arith) in
        let same : suc i + j ≡ i + suc j = omega arith in
        (r, at, subst (λ k. IsEntry channels k r) same here)

-- The first read of a variable without a value.
uninitialised :
    (channel : List Sample) (channels : List (List Sample)) (i least : ℕ)
    → channel_loop i (channel ∷ channels) (record { min_latency = least; max_latency = none })
      ≡ undefined
unfolding channel_loop widen
uninitialised channel channels i least = elim (Option-cases (get_elem? channel i)) [
  | inl absent ↦ rw absent refl
  | inr (s, at) ↦ rw at refl
]

pair_samples_from-undefined :
    (channel : List Sample) (channels : List (List Sample)) (more : ℕ) (out : List ℕ)
    → pair_samples_from none (channel ∷ channels) (suc more) out ≡ undefined
unfolding pair_samples_from pair_loop
pair_samples_from-undefined channel channels more out =
    rw (uninitialised channel channels 0 max64) refl

-- With a channel and a sample at least, `pair_samples_n2` is undefined, since it reads `maxLatency`
-- before that has a value. Were it to start from any value, then with `num_samples` samples or more on
-- each channel: it reads no sample that is not there, appends one number per sample, in order, the
-- least of the latencies that the channels have for it, which is a latency of one of them or 2^64 - 1,
-- and returns the length of the list in 32 bits.
pub pair_samples_n2_lem :
    (channel : List Sample) (channels : List (List Sample)) (num_samples : ℕ) (out : List ℕ)
    → 0 < num_samples
    → All (λ c. num_samples ≤ length c) (channel ∷ channels)
    → (pair_samples_n2 (channel ∷ channels) num_samples out ≡ undefined)
      × ((max_latency : ℕ)
          → (ms : List ℕ) × (pair_samples_from
                (some max_latency)
                (channel ∷ channels)
                num_samples
                out
              ≡ ok ((length out + num_samples) % 2 ^ 32, out ++ ms))
            × (length ms ≡ num_samples)
            × ((j : ℕ)
                → j < num_samples
                → (m : ℕ) × (get_elem? ms j ≡ some m) × IsEntry (channel ∷ channels) j m))
unfolding pair_samples_n2 pair_samples_from
pair_samples_n2_lem channel channels zero out some_samples long = absurd (omega arith)
pair_samples_n2_lem channel channels (suc more) out some_samples long = (
  pair_samples_from-undefined channel channels more out,
  λ max_latency.
      let (ms, run, len, entries) =
        pair_loop_lem (channel ∷ channels) (suc more) 0 (suc more) max_latency out (omega arith)
          long in
      (
        ms,
        rw run (
            ap (λ l. ok (l % 2 ^ 32, out ++ ms))
              (length-append out ms ∙ ap (λ l. length out + l) len)),
        len,
        λ j lt.
            let (m, at, entry) = entries j lt in
            let same : 0 + j ≡ j = omega arith in
            (m, at, subst (λ k. IsEntry (channel ∷ channels) k m) same entry),
      ),
)
