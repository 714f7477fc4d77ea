-- ===== src/Sandbox/Tests.antt =====
-- Machines with pages of 512 MiB, two for the window: one where every call succeeds, one with a
-- single page left, one where the pages cannot be mapped and one without memory for the array.
use tailslayer_win.Common.{
  ℕ, ◌^◌, ◌≡◌, refl, arith, subst, some_injective, true, false, none, some, [], ◌∷◌, ok, undefined,
}
use tailslayer_win.Sandbox.{
  Os, Held, no_window, gigabyte, has, give_up, map_frames, allocate_frames, take_array, take_window,
  allocate_once, destruct_manually, destroy_window,
}
use tailslayer_win.Sandbox.Lifetime.{lifetime, lifetime_lem}

abbrev grants_all : Os
grants_all = record {
  page_size = 2 ^ 29;
  virtual_alloc = some 4096;
  malloc = some 64;
  allocate_pages = true;
  received = 17 ∷ 18 ∷ [];
  map_pages = true;
  unmap_pages = true;
  free_pages = true;
  virtual_free = true;
}

abbrev one_page_left : Os
one_page_left = record grants_all { received = 17 ∷ [] }

abbrev maps_nothing : Os
maps_nothing = record grants_all { map_pages = false }

abbrev holds_little : Held
holds_little = record { windows = 8192 ∷ []; frames = 3 ∷ []; arrays = 32 ∷ [] }

abbrev holds_window : Held
holds_window = record { windows = 4096 ∷ 8192 ∷ []; frames = 17 ∷ 18 ∷ 3 ∷ []; arrays = 32 ∷ [] }

lifetime_lem_example : lifetime grants_all gigabyte holds_little ≡ ok holds_window
lifetime_lem_example =
    lifetime_lem grants_all gigabyte holds_little (omega arith) refl refl (λ a e. fresh a e)
  where
    fresh : (a : ℕ) → some 64 ≡ some a → has a (32 ∷ []) ≡ false
    fresh a e = subst (λ b. has b (32 ∷ []) ≡ false) (some_injective e) refl

lifetime-maps_nothing : lifetime maps_nothing gigabyte holds_little ≡ undefined
unfolding allocate_once take_window take_array allocate_frames map_frames give_up destroy_window
    destruct_manually
lifetime-maps_nothing = refl

lifetime-no_array :
    lifetime (record grants_all { malloc = none }) gigabyte holds_little ≡ ok holds_little
unfolding allocate_once take_window take_array destroy_window
lifetime-no_array = refl

-- The call with one page left returns every page and the window.
allocate_once-one_page_left :
    allocate_once one_page_left gigabyte no_window holds_little
    ≡ ok (
      none,
      record {
        virtual_address = some 4096;
        pfn_array = some 64;
        page_frames = 17 ∷ [];
        pages_requested = 2;
        pages_received = 1;
      },
      holds_little,
    )
unfolding allocate_once take_window take_array allocate_frames give_up
allocate_once-one_page_left = refl
