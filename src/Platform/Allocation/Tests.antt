-- ===== src/Platform/Allocation/Tests.antt =====
-- A privilege that is removed, and requested again where every call of the operating system fails.
use tailslayer_win.Common.{◌≡◌, refl, true, false}
use tailslayer_win.Platform.Allocation.{TokenAnswers, set_lock_memory_privilege}
use tailslayer_win.Platform.Allocation.Privilege.{set_lock_memory_privilege-stale}

abbrev willing : TokenAnswers
willing = record { opened = true; looked_up = true; adjusted = true; not_all_assigned = false }

abbrev refusing : TokenAnswers
refusing = record { opened = false; looked_up = false; adjusted = false; not_all_assigned = true }

removed : (set_lock_memory_privilege willing false true).0 ≡ true
unfolding set_lock_memory_privilege
removed = refl

stale :
    set_lock_memory_privilege refusing true (set_lock_memory_privilege willing false true).1
    ≡ (true, true)
stale = set_lock_memory_privilege-stale willing refusing true removed
