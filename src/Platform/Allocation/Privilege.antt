-- ===== src/Platform/Allocation/Privilege.antt =====
-- `SetLockMemoryPrivilege` of tailslayer/include/tailslayer/utilities.hpp sets its flag on every
-- success, also when it removes the privilege.
use mathlib.Core.Bool.{◌&&◌}
use tailslayer_win.Common.{◌≡◌, ◌⊎◌, inl, inr, refl, differ, not, if◌then◌else◌, Bool, true, false}
use tailslayer_win.Platform.Allocation.{TokenAnswers, set_lock_memory_privilege}

answered : (opened looked_up adjusted not_all_assigned : Bool) → TokenAnswers
answered opened looked_up adjusted not_all_assigned = record {
  opened = opened;
  looked_up = looked_up;
  adjusted = adjusted;
  not_all_assigned = not_all_assigned;
}

stale :
    (opened looked_up adjusted not_all_assigned enabled : Bool) (later : TokenAnswers)
    → (set_lock_memory_privilege
        (answered opened looked_up adjusted not_all_assigned)
        false
        enabled).0
      ≡ true
    → set_lock_memory_privilege later true
        (set_lock_memory_privilege
          (answered opened looked_up adjusted not_all_assigned)
          false
          enabled).1
      ≡ (true, true)
unfolding set_lock_memory_privilege answered
stale true true true false true later e = refl
stale true true true false false later e = refl
stale true true true true true later e = absurd (cc)
stale true true true true false later e = absurd (cc)
stale true true false n true later e = absurd (cc)
stale true true false n false later e = absurd (cc)
stale true false a n true later e = absurd (cc)
stale true false a n false later e = absurd (cc)
stale false l a n true later e = absurd (cc)
stale false l a n false later e = absurd (cc)

-- Once the privilege has been removed, the next request for it reports success and changes nothing,
-- whatever the operating system would answer.
pub set_lock_memory_privilege-stale :
    (removal later : TokenAnswers) (enabled : Bool)
    → (set_lock_memory_privilege removal false enabled).0 ≡ true
    → set_lock_memory_privilege later true (set_lock_memory_privilege removal false enabled).1
      ≡ (true, true)
unfolding answered
set_lock_memory_privilege-stale removal later enabled removed =
    stale removal.opened removal.looked_up removal.adjusted removal.not_all_assigned enabled later
      removed

-- Every call that changes the privilege succeeds, and the privilege is among those assigned.
abbrev pub IsGranted : TokenAnswers → Type 0
IsGranted os =
    (os.opened ≡ true)
    × (os.looked_up ≡ true)
    × (os.adjusted ≡ true)
    × (os.not_all_assigned ≡ false)

-- A call of `SetLockMemoryPrivilege` that returns at once, or is granted; or neither.
abbrev pub Settles : TokenAnswers → Bool → Bool → Type 0
Settles os skip result =
    ((result ≡ true) × ((skip ≡ true) ⊎ IsGranted os))
    ⊎ ((result ≡ false) × (skip ≡ false) × (IsGranted os → ⊥))

abbrev attempted : Bool → Bool → Bool → Bool → Bool → Bool → Bool × Bool
attempted skip opened looked_up adjusted not_all_assigned enabled =
    if skip
    then (true, enabled)
    else (if not opened
        then (false, enabled)
        else (if not looked_up
            then (false, enabled)
            else (if not adjusted
                then (false, enabled)
                else (if not_all_assigned then (false, enabled) else (true, true)))))

settles :
    (skip opened looked_up adjusted not_all_assigned enabled : Bool)
    → Settles
        (record {
          opened = opened;
          looked_up = looked_up;
          adjusted = adjusted;
          not_all_assigned = not_all_assigned;
        })
        skip
        (attempted skip opened looked_up adjusted not_all_assigned enabled).0
settles true opened looked_up adjusted not_all_assigned enabled = inl (refl, inl refl)
settles false true true true false enabled = inl (refl, inr (refl, refl, refl, refl))
settles false true true true true enabled = inr (refl, refl, λ (_, _, _, e). differ e refl)
settles false true true false n enabled = inr (refl, refl, λ (_, _, e, _). differ refl e)
settles false true false a n enabled = inr (refl, refl, λ (_, e, _, _). differ refl e)
settles false false l a n enabled = inr (refl, refl, λ (e, _, _, _). differ refl e)

pub set_lock_memory_privilege-Settles :
    (os : TokenAnswers) (enable enabled : Bool)
    → Settles os (enabled && enable) (set_lock_memory_privilege os enable enabled).0
unfolding set_lock_memory_privilege
set_lock_memory_privilege-Settles os enable enabled =
    settles (enabled && enable) os.opened os.looked_up os.adjusted os.not_all_assigned enabled
