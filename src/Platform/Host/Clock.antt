-- ===== src/Platform/Host/Clock.antt =====
-- The monotonic clock of utilities.hpp counts nanoseconds.
use native.Mathlib.Nat.{div-add-mod, mod-lt, div-lt_iff_lt-mul, mul-add-div}
use tailslayer_win.Common.{
  ℕ, ◌+◌, ◌*◌, ◌/◌, ◌%◌, ◌^◌, ◌≤◌, ◌<◌, ◌≡◌, refl, ap, ◌∙◌, arith, true, false, ltb, lt→ltb, ne→==,
  ◌==◌, some, ok,
}
use tailslayer_win.Platform.Host.{TimeSpec, ns_per_sec, clock_gettime_monotonic}

module _ (freq ticks : ℕ) (pos : 0 < freq) where
  below_second : ticks % freq * ns_per_sec / freq < ns_per_sec
  below_second = (div-lt_iff_lt-mul pos).1 (omega (arith, mod-lt ticks pos))

  whole_time :
      ticks * ns_per_sec / freq ≡ ticks / freq * ns_per_sec + ticks % freq * ns_per_sec / freq
  whole_time =
      let split : ticks * ns_per_sec
          ≡ freq * (ticks / freq * ns_per_sec) + ticks % freq * ns_per_sec =
        omega (arith, ap (λ t. t * ns_per_sec) (div-add-mod ticks freq)) in
      ap (λ t. t / freq) split
      ∙ mul-add-div pos (ticks / freq * ns_per_sec) (ticks % freq * ns_per_sec)

-- With a frequency of at most 2^33 ticks a second, and fewer than 2^31 seconds: the clock succeeds,
-- its nanoseconds are less than a second, and both parts together are the nanoseconds of the ticks,
-- rounded down.
pub clock_gettime_monotonic_lem :
    (ticks_per_sec ticks : ℕ)
    → 0 < ticks_per_sec
    → ticks_per_sec ≤ 2 ^ 33
    → ticks / ticks_per_sec < 2 ^ 31
    → (t : TimeSpec) × (clock_gettime_monotonic ticks_per_sec ticks ≡ ok (some t))
      × (t.tv_nsec < ns_per_sec)
      × (t.tv_sec * ns_per_sec + t.tv_nsec ≡ ticks * ns_per_sec / ticks_per_sec)
unfolding clock_gettime_monotonic
clock_gettime_monotonic_lem freq ticks pos slow early =
    let running : (freq == 0) ≡ false = ne→== freq 0 (λ e. absurd (omega arith)) in
    let fits : ltb (ticks % freq * ns_per_sec) (2 ^ 63) ≡ true =
      lt→ltb (ticks % freq * ns_per_sec) (2 ^ 63) (omega (arith, mod-lt ticks pos)) in
    let nanos = below_second freq ticks pos in
    let sec_fits : ticks / freq % 2 ^ 32 ≡ ticks / freq = omega arith in
    let nsec_fits : ticks % freq * ns_per_sec / freq % 2 ^ 32 ≡ ticks % freq * ns_per_sec / freq =
      omega arith in
    (
      record {
        tv_sec = ticks / freq % 2 ^ 32;
        tv_nsec = ticks % freq * ns_per_sec / freq % 2 ^ 32;
      },
      rw (running, fits) refl,
      omega (arith, nsec_fits),
      omega (arith, nsec_fits, sec_fits, whole_time freq ticks pos),
    )
