-- ===== src/Processors/Windows/Allowed.antt =====
-- Which processors `ProcessCurrentConfiguration` of proc.cpp marks as usable on Windows.
use tailslayer_win.Common.{
  ℕ, ◌≡◌, ◌≢◌, ◌⊎◌, inl, inr, refl, true, false, ◌==◌, ==→eq, ==→ne, Bool-cases, bit_and, List, [],
  ◌∷◌, In,
}
use tailslayer_win.Processors.{AffinityMask}
use tailslayer_win.Processors.Windows.{Answers, contains, is_group_allowed, bool_to_int}

-- The group is one of the process's, and in the primary group the processor is one of the process's.
abbrev pub IsAllowed : Answers → ℕ → AffinityMask → Type 0
IsAllowed os process_mask a =
    In a.group os.process_groups × (a.group ≡ os.current_group → bit_and a.mask process_mask ≢ 0)

abbrev pub Decides : ℕ → Type 0 → Type 0
Decides usable P = ((usable ≡ 1) × P) ⊎ ((usable ≡ 0) × (P → ⊥))

contains_lem :
    (group : ℕ) (groups : List ℕ)
    → ((contains group groups ≡ true) × In group groups)
      ⊎ ((contains group groups ≡ false) × (In group groups → ⊥))
unfolding contains
contains_lem group [] = inr (refl, λ there. there)
contains_lem group (g ∷ groups) = elim (Bool-cases (g == group)) [
  | inl e ↦ inl (rw e refl, inl (==→eq g group e))
  | inr e ↦ elim (contains_lem group groups) [
    | inl (found, there) ↦ inl (rw (e, found) refl, inr there)
    | inr (missing, absent) ↦ inr (
      rw (e, missing) refl,
      λ there. elim there [ inl same ↦ ==→ne g group e same | inr later ↦ absent later ],
    )
  ]
]

pub usable-IsAllowed :
    (os : Answers) (process_mask : ℕ) (a : AffinityMask)
    → Decides
        (bool_to_int (is_group_allowed os process_mask a.group a.mask))
        (IsAllowed os process_mask a)
unfolding bool_to_int is_group_allowed
usable-IsAllowed os process_mask a = elim (contains_lem a.group os.process_groups) [
  | inr (missing, absent) ↦ elim (Bool-cases (a.group == os.current_group)) [
    | inl e ↦ inr (rw (e, missing) refl, λ h. absent h.0)
    | inr e ↦ inr (rw (e, missing) refl, λ h. absent h.0)
  ]
  | inl (found, there) ↦ elim (Bool-cases (a.group == os.current_group)) [
    | inr e ↦
        inl (rw (e, found) refl, (there, λ same. absurd (==→ne a.group os.current_group e same)))
    | inl e ↦ elim (Bool-cases (bit_and a.mask process_mask == 0)) [
      | inl none_left ↦ inr (
        rw (e, found, none_left) refl,
        λ h.
            h.1 (==→eq a.group os.current_group e)
              (==→eq (bit_and a.mask process_mask) 0 none_left),
      )
      | inr some_left ↦ inl (
        rw (e, found, some_left) refl,
        (there, λ _. ==→ne (bit_and a.mask process_mask) 0 some_left),
      )
    ]
  ]
]
