-- ===== src/Benchmark/Tests.antt =====
-- Two channels of two samples.
use tailslayer_win.Common.{
  ℕ, ◌<◌, ◌≡◌, refl, arith, List, [], ◌∷◌, ◌++◌, length, get_elem?, some, ok, undefined,
}
use tailslayer_win.Benchmark.{
  Sample, widen, channel_loop, pair_loop, pair_samples_from, pair_samples_n2,
}
use tailslayer_win.Benchmark.Pairing.{IsEntry, pair_samples_n2_lem}

abbrev sample : ℕ → ℕ → Sample
sample timestamp latency = record { timestamp = timestamp; latency = latency }

abbrev first : List Sample
first = sample 10 300 ∷ sample 20 90 ∷ []

abbrev second : List Sample
second = sample 11 120 ∷ sample 21 400 ∷ []

paired : pair_samples_from (some 5) (first ∷ second ∷ []) 2 (7 ∷ []) ≡ ok (3, 7 ∷ 120 ∷ 90 ∷ [])
unfolding pair_samples_from pair_loop channel_loop widen
paired = refl

no_channel : pair_samples_n2 [] 2 (7 ∷ []) ≡ ok (0, 7 ∷ [])
unfolding pair_samples_n2 pair_samples_from
no_channel = refl

pair_samples_n2_lem_example :
    (pair_samples_n2 (first ∷ second ∷ []) 2 (7 ∷ []) ≡ undefined)
    × ((max_latency : ℕ)
        → (ms : List ℕ) × (pair_samples_from (some max_latency) (first ∷ second ∷ []) 2 (7 ∷ [])
            ≡ ok (3, (7 ∷ []) ++ ms))
          × (length ms ≡ 2)
          × ((j : ℕ)
              → j < 2
              → (m : ℕ) × (get_elem? ms j ≡ some m) × IsEntry (first ∷ second ∷ []) j m))
pair_samples_n2_lem_example =
    pair_samples_n2_lem first (second ∷ []) 2 (7 ∷ []) (omega arith)
      (omega arith, (omega arith, tt))
