-- ===== src/Probe/Spikes.antt =====
-- The spikes that the main loop of trefi_probe.cpp records, and the time between them.
use tailslayer_win.Common.{
  ℕ, zero, suc, ◌+◌, ◌≡◌, refl, sym, ap, ◌∙◌, arith, true, false, if◌then◌else◌, ltb, lt→ltb,
  le→ltb, Bool-cases, inl, inr, List, [], ◌∷◌, ◌++◌, append-nil, append_assoc, take, sub64,
}
use tailslayer_win.Probe.{Spike, max_spikes, probe_loop}

-- The probes above the threshold.
abbrev pub spikes_of : ℕ → List (ℕ × ℕ) → List Spike
spikes_of threshold [] = []
spikes_of threshold ((t0, t1) ∷ readings) =
    let rest = spikes_of threshold readings in
    if ltb threshold (sub64 t1 t0) then record { tsc = t0; latency = sub64 t1 t0 } ∷ rest else rest

take_nothing : (left : ℕ) → take {A = Spike} left [] ≡ []
take_nothing zero = refl
take_nothing (suc left) = refl

probe_loop-take :
    (threshold : ℕ) (readings : List (ℕ × ℕ)) (n left : ℕ) (spikes : List Spike)
    → n + left ≡ max_spikes
    → probe_loop threshold readings n spikes ≡ spikes ++ take left (spikes_of threshold readings)
unfolding probe_loop
probe_loop-take threshold [] n left spikes e =
    sym (ap (λ l. spikes ++ l) (take_nothing left) ∙ append-nil spikes)
probe_loop-take threshold ((t0, t1) ∷ readings) n zero spikes e =
    let full : ltb n max_spikes ≡ false = le→ltb n max_spikes (omega arith) in
    elim (Bool-cases (ltb threshold (sub64 t1 t0))) [
      | inl above ↦ rw (above, full) (probe_loop-take threshold readings n zero spikes e)
      | inr below ↦ rw below (probe_loop-take threshold readings n zero spikes e)
    ]
probe_loop-take threshold ((t0, t1) ∷ readings) n (suc left) spikes e =
    let room : ltb n max_spikes ≡ true = lt→ltb n max_spikes (omega arith) in
    let spike : Spike = record { tsc = t0; latency = sub64 t1 t0 } in
    elim (Bool-cases (ltb threshold (sub64 t1 t0))) [
      | inl above ↦
          rw (above, room)
            (probe_loop-take threshold readings (n + 1) left (spikes ++ spike ∷ []) (omega arith)
              ∙ append_assoc spikes (spike ∷ []) (take left (spikes_of threshold readings)))
      | inr below ↦ rw below (probe_loop-take threshold readings n (suc left) spikes e)
    ]

-- The main loop records the probes that took longer than the threshold, in order, and of these the
-- first 2,000,000 at most.
pub probe_loop-eq_take :
    (threshold : ℕ) (readings : List (ℕ × ℕ))
    → probe_loop threshold readings 0 [] ≡ take max_spikes (spikes_of threshold readings)
probe_loop-eq_take threshold readings =
    probe_loop-take threshold readings 0 max_spikes [] (omega arith)

abbrev pub sum : List ℕ → ℕ
sum [] = 0
sum (x ∷ xs) = x + sum xs
