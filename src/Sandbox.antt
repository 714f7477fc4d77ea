-- ===== src/Sandbox.antt =====
-- `AddressWindowExtensionsContiguousRegion` of sandbox/tailslayer_alloc.cpp: a window of virtual
-- memory, physical pages that are locked for it, and an array of their numbers. The answers of
-- Windows and of `malloc` are the fields of `Os`; `none` is the null pointer. What the process holds
-- is a state of its own. The contiguity of the pages is printed only, and is left out.
pub mod Twice
pub mod Lifetime
mod Tests
use tailslayer_win.Common.{
  ℕ, zero, suc, ◌/◌, ◌^◌, Bool, true, false, ◌&&◌, ◌||◌, not, if◌then◌else◌, ltb, ◌==◌, Option,
  none, some, List, [], ◌∷◌, ◌++◌, length, Outcome, ok, undefined, ◌>>=◌, ◌>>◌, requires,
}
use tailslayer_win.Platform.Allocation.{remove}

pub record Os : Type 0 where
  -- `dwPageSize` of `GetSystemInfo`.
  pub page_size : ℕ
  -- `VirtualAlloc` of the window, and `malloc` of the array.
  pub virtual_alloc : Option ℕ
  pub malloc : Option ℕ
  -- `AllocateUserPhysicalPages`: whether it succeeds, and the numbers of the pages.
  pub allocate_pages : Bool
  pub received : List ℕ
  -- `MapUserPhysicalPages` of the pages, and of NULL.
  pub map_pages : Bool
  pub unmap_pages : Bool
  -- `FreeUserPhysicalPages` and `VirtualFree`.
  pub free_pages : Bool
  pub virtual_free : Bool

-- The windows, the physical pages and the blocks of `malloc` that the process holds.
pub record Held : Type 0 where
  pub windows : List ℕ
  pub frames : List ℕ
  pub arrays : List ℕ

-- The members, with what the array holds.
pub record Window : Type 0 where
  pub virtual_address : Option ℕ
  pub pfn_array : Option ℕ
  pub page_frames : List ℕ
  pub pages_requested : ℕ
  pub pages_received : ℕ

abbrev pub no_window : Window
no_window = record {
  virtual_address = none;
  pfn_array = none;
  page_frames = [];
  pages_requested = 0;
  pages_received = 0;
}

abbrev pub gigabyte : ℕ
gigabyte = 2 ^ 30

abbrev pub is_set : Option ℕ → Bool
is_set none = false
is_set (some v) = true

abbrev pub has : ℕ → List ℕ → Bool
has v [] = false
has v (w ∷ live) = w == v || has v live

abbrev pub remove_all : List ℕ → List ℕ → List ℕ
remove_all [] live = live
remove_all (v ∷ vs) live = remove_all vs (remove v live)

-- `VirtualFree` of the window, `FreeUserPhysicalPages` of what the array holds.
abbrev pub free_window : Os → ℕ → Held → Held
free_window os v s = if os.virtual_free then record s { windows = remove v s.windows } else s

abbrev pub free_frames : Os → List ℕ → Held → Held
free_frames os pages s =
    if os.free_pages then record s { frames = remove_all pages s.frames } else s

-- `free`: of what is not a block of `malloc` it is undefined.
abbrev pub free_array : ℕ → Held → Outcome Held
free_array a s = if has a s.arrays then ok (record s { arrays = remove a s.arrays }) else undefined

-- What an error path of `allocateOnce` releases once there is an array; the members stay.
unfoldable pub give_up : Os → ℕ → ℕ → Window → Held → Outcome (Option ℕ × Window × Held)
give_up os v a w s = free_array a s >>= λ s'. ok (none, w, free_window os v s')

unfoldable pub map_frames : Os → ℕ → ℕ → Window → Held → Outcome (Option ℕ × Window × Held)
unfolding give_up
map_frames os v a w s =
    if os.map_pages then ok (some v, w, s) else give_up os v a w (free_frames os w.page_frames s)

-- From the call of `AllocateUserPhysicalPages` on.
unfoldable pub allocate_frames : Os → ℕ → ℕ → Window → Held → Outcome (Option ℕ × Window × Held)
unfolding map_frames give_up
allocate_frames os v a w s =
    if os.allocate_pages
    then (let filled : Window = record w {
      page_frames = os.received;
      pages_received = length os.received;
    } in
        let locked : Held = record s { frames = os.received ++ s.frames } in
        if filled.pages_requested == filled.pages_received
        then map_frames os v a filled locked
        else give_up os v a filled (free_frames os filled.page_frames locked))
    else give_up os v a w s

-- The result of `malloc`, and that of `VirtualAlloc`.
unfoldable pub take_array : Os → ℕ → Option ℕ → Window → Held → Outcome (Option ℕ × Window × Held)
unfolding allocate_frames
take_array os v none w s = ok (none, record w { pfn_array = none }, free_window os v s)
take_array os v (some a) w s =
    allocate_frames os v a (record w { pfn_array = some a; pages_received = w.pages_requested })
      (record s { arrays = a ∷ s.arrays })

unfoldable pub take_window : Os → Option ℕ → Window → Held → Outcome (Option ℕ × Window × Held)
unfolding take_array
take_window os none w s = ok (none, record w { virtual_address = none }, s)
take_window os (some v) w s =
    take_array os v os.malloc (record w { virtual_address = some v })
      (record s { windows = v ∷ s.windows })

-- `allocateOnce`, which does not use its argument.
unfoldable pub allocate_once : Os → ℕ → Window → Held → Outcome (Option ℕ × Window × Held)
unfolding take_window
allocate_once os size w s =
    if is_set w.virtual_address || is_set w.pfn_array
    then ok (none, w, s)
    else (requires (ltb 0 os.page_size)
        >> take_window os os.virtual_alloc (record w { pages_requested = gigabyte / os.page_size })
            s)

-- `destructManually`: each call is made only when the one before it failed.
unfoldable pub destruct_manually : Os → ℕ → ℕ → Window → Held → Outcome (Bool × Held)
destruct_manually os v a w s =
    let unmapping_failed = not os.unmap_pages in
    let freed = if unmapping_failed then free_frames os w.page_frames s else s in
    let freeing_failed = unmapping_failed && not os.free_pages in
    let released = if freeing_failed then free_window os v freed else freed in
    free_array a released >>= λ s'. ok (freeing_failed && not os.virtual_free, s')

-- The destructor.
unfoldable pub destroy_window : Os → Option ℕ → Option ℕ → Window → Held → Outcome Held
unfolding destruct_manually
destroy_window os none array w s = ok s
destroy_window os (some v) none w s = ok s
destroy_window os (some v) (some a) w s = destruct_manually os v a w s >>= λ result. ok result.1
