-- ===== src/Processors/Windows/Sample.antt =====
-- A machine of two cores with two threads each, in one package and one processor group.
use native.Mathlib.Decide.{ℕ_discrete}
use mathlib.Core.Bool.{◌&&◌, not}
use tailslayer_win.Common.{
  ℕ, zero, suc, ◌^◌, ◌<◌, ◌≡◌, inl, inr, refl, sym, ap, ◌∙◌, arith, Bool, true, false,
  if◌then◌else◌, ◌==◌, bit_and, List, [], ◌∷◌, some, subst,
}
use tailslayer_win.Processors.{AffinityMask, Configuration}
use tailslayer_win.Processors.Windows.{
  Info, Relationship, processor_core, processor_package, Answers, insufficient_buffer, meets,
}
use tailslayer_win.Processors.Windows.Scan.{OfCore}
use tailslayer_win.Processors.Windows.Packages.{has_processor}
use tailslayer_win.Processors.Windows.Detected.{IsCore, IsPackage, Answered}
use tailslayer_win.Processors.Windows.Machine.{IsMachine}

abbrev info_of : Relationship → ℕ → Info
info_of r mask = record {
  relationship = r;
  group_count = 1;
  group_mask = λ _. record { group = 0; mask = mask };
}

abbrev pub core_zero : Info
core_zero = info_of processor_core 3

abbrev pub core_one : Info
core_one = info_of processor_core 12

abbrev pub socket : Info
socket = info_of processor_package 15

abbrev pub two_cores : List Info
two_cores = core_zero ∷ socket ∷ core_one ∷ []

-- The process may run on all threads but the last.
abbrev pub answers : Answers
answers = record {
  buffer_size = insufficient_buffer;
  information = some two_cores;
  process_affinity = some 7;
  current_group = 0;
  process_groups = 0 ∷ [];
}

abbrev pub nothing_known : Configuration
nothing_known = record {
  proc = [];
  thread_count = 0;
  physical_core_count = 0;
  core_package_count = 0;
}

pub answers-Answered : Answered answers 7 two_cores
answers-Answered = record { sized = λ e. cc; filled = refl; affinity = refl }

pub core_zero-IsCore : IsCore two_cores core_zero
core_zero-IsCore = (inl refl, refl)

clash_of : processor_package ≡ processor_core → ⊥
clash_of e = cc

-- Every bit of the core is one of the package.
inside : ℕ → Bool → Bool → Bool
inside n clear outside = if clear then true else not outside

covered : ℕ → ℕ → Bool
covered zero mask = true
covered (suc n) mask =
    inside n (bit_and mask (2 ^ n) == 0) (bit_and 15 (2 ^ n) == 0) && covered n mask

covered_sound :
    (n mask bit : ℕ)
    → covered n mask ≡ true
    → bit < n
    → (bit_and mask (2 ^ bit) == 0) ≡ false
    → (bit_and 15 (2 ^ bit) == 0) ≡ false
unfolding covered inside
covered_sound zero mask bit e lt there = absurd (omega arith)
covered_sound (suc n) mask bit e lt there = elim (ℕ_discrete bit n) [
  | yes last ↦
      ground (arith, ap (λ k. bit_and mask (2 ^ k)) last, ap (λ k. bit_and 15 (2 ^ k)) last)
  | no before ↦ ground (arith, covered_sound n mask bit)
]

covered_zero : covered 64 3 ≡ true
unfolding covered inside
covered_zero = refl

covered_one : covered 64 12 ≡ true
unfolding covered inside
covered_one = refl

in_socket :
    (r : Relationship) (mask : ℕ) (a : AffinityMask)
    → covered 64 mask ≡ true
    → OfCore (info_of r mask) a
    → has_processor socket a ≡ true
unfolding meets
in_socket r mask a e (g, bit, lt, small, (there, same)) =
    rw same (rw (covered_sound 64 mask bit e small there) refl)

core-in_socket :
    (c : Info)
    → IsCore two_cores c
    → (a : AffinityMask) → OfCore c a
    → has_processor socket a ≡ true
core-in_socket c (inl e, core) a of_core =
    in_socket processor_core 3 a covered_zero (subst (λ c. OfCore c a) (sym e) of_core)
core-in_socket c (inr (inl e), core) a of_core =
    absurd (clash_of (ap (λ x. x.relationship) e ∙ core))
core-in_socket c (inr (inr (inl e)), core) a of_core =
    in_socket processor_core 12 a covered_one (subst (λ c. OfCore c a) (sym e) of_core)
core-in_socket c (inr (inr (inr none_there)), core) a of_core = absurd none_there

inhabited : (c : Info) → IsCore two_cores c → (a : AffinityMask) × OfCore c a
inhabited c (inl e, core) =
    subst (λ c. (a : AffinityMask) × OfCore c a) e
      (record { group = 0; mask = 1 }, (0, 0, omega arith, omega arith, (refl, refl)))
inhabited c (inr (inl e), core) = absurd (clash_of (ap (λ x. x.relationship) e ∙ core))
inhabited c (inr (inr (inl e)), core) =
    subst (λ c. (a : AffinityMask) × OfCore c a) e
      (record { group = 0; mask = 4 }, (0, 2, omega arith, omega arith, (refl, refl)))
inhabited c (inr (inr (inr none_there)), core) = absurd none_there

package-eq_socket : (p : Info) → IsPackage two_cores p → p ≡ socket
package-eq_socket p (inl e, package_there) =
    absurd (clash_of (sym package_there ∙ ap (λ x. x.relationship) (sym e)))
package-eq_socket p (inr (inl e), package_there) = sym e
package-eq_socket p (inr (inr (inl e)), package_there) =
    absurd (clash_of (sym package_there ∙ ap (λ x. x.relationship) (sym e)))
package-eq_socket p (inr (inr (inr none_there)), package_there) = absurd none_there

pub two_cores-IsMachine : IsMachine two_cores
two_cores-IsMachine = record {
  few = omega arith;
  few_processors = omega arith;
  inhabited = inhabited;
  one_package = λ c d p core_c core_d package_p same a b of_c of_d.
      let socket_eq = package-eq_socket p package_p in
      rw socket_eq (core-in_socket c core_c a of_c ∙ sym (core-in_socket d core_d b of_d));
}
