-- ===== src/Benchmark.antt =====
-- benchmark/source/benchmark.cpp: `pair_samples_n2`. `maxLatency` is declared without a value: what it
-- holds is an argument of the loops, where `none` is that it holds none, which no read may see.
pub mod Pairing
mod Tests
use tailslayer_win.Common.{
  ℕ, zero, suc, ◌%◌, ◌^◌, if◌then◌else◌, ltb, List, [], ◌∷◌, ◌++◌, length, get_elem?, max64, Option,
  none, some, Outcome, ok, access, ◌>>=◌,
}

-- `sample`.
pub record Sample : Type 0 where
  pub timestamp : ℕ
  pub latency : ℕ

-- The two latencies of the loops.
pub record Range : Type 0 where
  pub min_latency : ℕ
  pub max_latency : Option ℕ

-- One sample. Both tests read the variable that they may set.
unfoldable pub widen : ℕ → Range → Outcome Range
widen latency r = do
  max_latency ← access r.max_latency
  ok (record {
    min_latency = if ltb latency r.min_latency then latency else r.min_latency;
    max_latency = some (if ltb max_latency latency then latency else max_latency);
  })

-- The loop over the channels, at sample `i`.
unfoldable pub channel_loop : ℕ → List (List Sample) → Range → Outcome Range
unfolding widen
channel_loop i [] r = ok r
channel_loop i (channel ∷ channels) r = do
  s ← access (get_elem? channel i)
  r' ← widen s.latency r
  channel_loop i channels r'

-- The loop over the samples: `left` of them from sample `i` on.
unfoldable pub pair_loop : List (List Sample) → ℕ → ℕ → Option ℕ → List ℕ → Outcome (List ℕ)
unfolding channel_loop
pair_loop channels zero i max_latency out = ok out
pair_loop channels (suc left) i max_latency out = do
  r ← channel_loop i channels (record { min_latency = max64; max_latency = max_latency })
  pair_loop channels left (suc i) r.max_latency (out ++ r.min_latency ∷ [])

-- The result, the 32-bit word of the `int` that the length is converted to, and `out_effective`. The
-- first argument is what `maxLatency` holds at its declaration.
unfoldable pub pair_samples_from : Option ℕ → List (List Sample) → ℕ → List ℕ → Outcome (ℕ × List ℕ)
unfolding pair_loop
pair_samples_from max_latency [] num_samples out = ok (0, out)
pair_samples_from max_latency (channel ∷ channels) num_samples out = do
  out' ← pair_loop (channel ∷ channels) num_samples 0 max_latency out
  ok (length out' % 2 ^ 32, out')

unfoldable pub pair_samples_n2 : List (List Sample) → ℕ → List ℕ → Outcome (ℕ × List ℕ)
unfolding pair_samples_from
pair_samples_n2 = pair_samples_from none
