-- ===== src/Probe/Latencies.antt =====
-- The range of the latencies in trefi_probe.cpp.
use tailslayer_win.Common.{
  ℕ, ◌≤◌, ◌≡◌, ◌⊎◌, inl, inr, refl, sym, arith, Bool, true, false, if◌then◌else◌, ltb, List, [],
  ◌∷◌, In, subst,
}
use tailslayer_win.Probe.{Spike}
use tailslayer_win.Probe.Analysis.{latency_range}

-- The range starts from a range that it only widens.
abbrev pub Covers : ℕ × ℕ → ℕ → ℕ → List Spike → Type 0
Covers r lat_min lat_max spikes =
    (r.0 ≤ lat_min)
    × (lat_max ≤ r.1)
    × ((s : Spike) → In s spikes → (r.0 ≤ s.latency) × (s.latency ≤ r.1))

pub latency_range-Covers :
    (spikes : List Spike) (lat_min lat_max : ℕ)
    → Covers (latency_range spikes lat_min lat_max) lat_min lat_max spikes
unfolding latency_range
latency_range-Covers [] lat_min lat_max = (omega arith, omega arith, λ s there. absurd there)
latency_range-Covers (t ∷ spikes) lat_min lat_max =
    let low = if ltb t.latency lat_min then t.latency else lat_min in
    let high = if ltb lat_max t.latency then t.latency else lat_max in
    let rest = latency_range-Covers spikes low high in
    let lower = least t.latency lat_min in
    let upper = greatest t.latency lat_max in
    (
      omega (arith, rest.0, lower.0),
      omega (arith, rest.1, upper.0),
      λ s there. elim there [
        | inl e ↦
            subst
              (λ x.
                ((latency_range spikes low high).0 ≤ x.latency)
                × (x.latency ≤ (latency_range spikes low high).1))
              e (omega (arith, rest.0, lower.1), omega (arith, rest.1, upper.1))
        | inr later ↦ rest.2 s later
      ],
    )
  where
    least : (a b : ℕ) → ((if ltb a b then a else b) ≤ b) × ((if ltb a b then a else b) ≤ a)
    least a b = ground arith

    greatest : (a b : ℕ) → (b ≤ (if ltb b a then a else b)) × (a ≤ (if ltb b a then a else b))
    greatest a b = ground arith

-- Each end of the range is where it started, or the latency of a spike.
abbrev pub Reached : ℕ → ℕ → List Spike → Type 0
Reached lat start spikes = (lat ≡ start) ⊎ ((s : Spike) × In s spikes × (s.latency ≡ lat))

later-Reached :
    (b : Bool) (t : Spike) (lat start : ℕ) (spikes : List Spike)
    → Reached lat (if b then t.latency else start) spikes
    → Reached lat start (t ∷ spikes)
later-Reached true t lat start spikes (inl e) = inr (t, inl refl, sym e)
later-Reached false t lat start spikes (inl e) = inl e
later-Reached b t lat start spikes (inr (s, there, e)) = inr (s, inr there, e)

pub latency_range-Reached :
    (spikes : List Spike) (lat_min lat_max : ℕ)
    → Reached (latency_range spikes lat_min lat_max).0 lat_min spikes
      × Reached (latency_range spikes lat_min lat_max).1 lat_max spikes
unfolding latency_range
latency_range-Reached [] lat_min lat_max = (inl refl, inl refl)
latency_range-Reached (t ∷ spikes) lat_min lat_max =
    let low = if ltb t.latency lat_min then t.latency else lat_min in
    let high = if ltb lat_max t.latency then t.latency else lat_max in
    let (least, greatest) = latency_range-Reached spikes low high in
    (
      later-Reached (ltb t.latency lat_min) t _ lat_min spikes least,
      later-Reached (ltb lat_max t.latency) t _ lat_max spikes greatest,
    )
