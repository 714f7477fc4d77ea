-- ===== src/Sandbox/Lifetime.antt =====
-- What a region of sandbox/tailslayer_alloc.cpp has taken and returned by the end of its life.
use tailslayer_win.Common.{
  ℕ, ◌/◌, ◌≡◌, ◌<◌, refl, ap, ◌∙◌, Bool, true, false, ◌&&◌, not, if◌then◌else◌, ◌==◌, ==_refl,
  lt→ltb, Option, none, some, ◌∷◌, ◌++◌, length, Outcome, ok, undefined, ◌>>=◌, ◌>>◌, requires,
}
use tailslayer_win.Platform.Allocation.{remove}
use tailslayer_win.Sandbox.{
  Os, Held, Window, no_window, gigabyte, free_window, has, free_frames, free_array, map_frames,
  allocate_frames, take_array, take_window, allocate_once, destruct_manually, destroy_window,
}
use tailslayer_win.Sandbox.Twice.{picked_arrays, free_array-ok, at_end, give_up-undefined}

-- A region that is filled once and then destroyed.
abbrev pub lifetime : Os → ℕ → Held → Outcome Held
lifetime os size s = allocate_once os size no_window s >>= at_end os

-- Whether every step of the allocation succeeds.
abbrev pub succeeds : Os → Bool
succeeds os = os.allocate_pages && gigabyte / os.page_size == length os.received && os.map_pages

-- The same as a table: by whether there are a window and an array, and whether all else succeeds.
abbrev pub outlived : Os → Option ℕ → Option ℕ → Held → Outcome Held
outlived os none array s = ok s
outlived os (some v) none s = ok s
outlived os (some v) (some a) s =
    if succeeds os
    then ok (record s { windows = v ∷ s.windows; frames = os.received ++ s.frames })
    else undefined

branch :
    {A B : Type 0} (b : Bool) (rest : A → Outcome B) (x y : Outcome A) (u v : Outcome B)
    → (x >>= rest) ≡ u
    → (y >>= rest) ≡ v
    → ((if b then x else y) >>= rest) ≡ (if b then u else v)
branch true rest x y u v this other = this
branch false rest x y u v this other = other

if-and :
    {A : Type 0} (b c : Bool) (x y : A)
    → (if b then (if c then x else y) else y) ≡ (if b && c then x else y)
if-and true c x y = refl
if-and false c x y = refl

-- The members once there are a window and an array of `n` entries.
abbrev with_array : ℕ → ℕ → ℕ → Window
with_array v a n = record no_window {
  virtual_address = some v;
  pfn_array = some a;
  pages_requested = n;
  pages_received = n;
}

abbrev taken : ℕ → ℕ → Held → Held
taken v a s = record s { windows = v ∷ s.windows; arrays = a ∷ s.arrays }

-- What a success leaves: the pages are unmapped, and neither they nor the window are given back.
mapped-end :
    (os : Os) (v a : ℕ) (w : Window) (s : Held)
    → os.unmap_pages ≡ true
    → destruct_manually os v a w (record s { arrays = a ∷ s.arrays }) ≡ ok (false, s)
unfolding destruct_manually
mapped-end os v a w s unmapped =
    let before : Held = record s { arrays = a ∷ s.arrays } in
    let run : Bool → Outcome (Bool × Held) = λ u.
      let freed = if not u then free_frames os w.page_frames before else before in
      let freeing_failed = not u && not os.free_pages in
      let released = if freeing_failed then free_window os v freed else freed in
      free_array a released >>= λ s'. ok (freeing_failed && not os.virtual_free, s') in
    ap run unmapped ∙ ap (λ r. r >>= (λ s'. ok (false, s'))) (free_array-ok a before s.arrays refl)

allocate_frames-end :
    (os : Os) (v a n : ℕ) (s : Held)
    → has a s.arrays ≡ false
    → os.unmap_pages ≡ true
    → (allocate_frames os v a (with_array v a n) (taken v a s) >>= at_end os) ≡ (
        if os.allocate_pages && n == length os.received && os.map_pages
        then ok (record s { windows = v ∷ s.windows; frames = os.received ++ s.frames })
        else undefined)
unfolding allocate_frames map_frames destroy_window
allocate_frames-end os v a n s fresh unmapped =
    let filled : Window = record (with_array v a n) {
      page_frames = os.received;
      pages_received = length os.received;
    } in
    let locked : Held = record (taken v a s) { frames = os.received ++ s.frames } in
    let kept : Held = record s { windows = v ∷ s.windows; frames = os.received ++ s.frames } in
    let unlocked : Held = free_frames os os.received locked in
    let same : unlocked.arrays ≡ a ∷ s.arrays = picked_arrays os.free_pages _ locked refl refl in
    let failed = give_up-undefined os v a filled unlocked s.arrays same fresh refl refl in
    branch os.allocate_pages (at_end os) _ _ _ _
      (branch (n == length os.received) (at_end os) _ _ _ _
        (branch os.map_pages (at_end os) _ _ _ _
          (ap (λ run. run >>= (λ result. ok result.1)) (mapped-end os v a filled kept unmapped))
          failed)
        failed)
      (give_up-undefined os v a (with_array v a n) (taken v a s) s.arrays refl fresh refl refl)
    ∙ if-and os.allocate_pages (n == length os.received) _ _
    ∙ if-and (os.allocate_pages && n == length os.received) os.map_pages _ _

-- `malloc` returns a block that is not in use.
abbrev pub IsFresh : Option ℕ → Held → Type 0
IsFresh array s = (a : ℕ) → array ≡ some a → has a s.arrays ≡ false

module _ (os : Os) (s : Held) (unmapped : os.unmap_pages ≡ true)
    (freed : os.virtual_free ≡ true) where
  take_array-end :
      (v : ℕ) (array : Option ℕ)
      → IsFresh array s
      → (take_array os v array
            (record no_window {
              virtual_address = some v;
              pages_requested = gigabyte / os.page_size;
            })
            (record s { windows = v ∷ s.windows })
          >>= at_end os)
        ≡ outlived os (some v) array s
  unfolding take_array destroy_window
  take_array-end v none fresh =
      let after : Bool → Outcome Held = λ b. ok (
        if b
        then record s { windows = remove v (v ∷ s.windows) }
        else record s { windows = v ∷ s.windows }) in
      ap after freed ∙ rw (==_refl v) refl
  take_array-end v (some a) fresh =
      allocate_frames-end os v a (gigabyte / os.page_size) s (fresh a refl) unmapped

  take_window-end :
      (window : Option ℕ)
      → IsFresh os.malloc s
      → (take_window os window (record no_window { pages_requested = gigabyte / os.page_size }) s
          >>= at_end os)
        ≡ outlived os window os.malloc s
  unfolding take_window destroy_window
  take_window-end none fresh = refl
  take_window-end (some v) fresh = take_array-end v os.malloc fresh

-- On a machine where unmapping the pages and freeing the window succeed, and `malloc` returns a
-- block that is not in use: a region that is filled once and destroyed leaves the process as it was
-- when there was no window or no array; after a successful allocation the process keeps the window
-- and all physical pages; and after any later failure the array is freed twice, which is undefined.
pub lifetime_lem :
    (os : Os) (size : ℕ) (s : Held)
    → 0 < os.page_size
    → os.unmap_pages ≡ true
    → os.virtual_free ≡ true
    → IsFresh os.malloc s
    → lifetime os size s ≡ outlived os os.virtual_alloc os.malloc s
unfolding allocate_once
lifetime_lem os size s paged unmapped freed fresh =
    let run : Bool → Outcome Held = λ b.
      requires b
      >> take_window os os.virtual_alloc
          (record no_window { pages_requested = gigabyte / os.page_size }) s
      >>= at_end os in
    ap run (lt→ltb 0 os.page_size paged)
    ∙ take_window-end os s unmapped freed os.virtual_alloc fresh
