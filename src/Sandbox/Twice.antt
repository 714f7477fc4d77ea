-- ===== src/Sandbox/Twice.antt =====
-- The destructor of a region of sandbox/tailslayer_alloc.cpp whose array an error path has freed.
use tailslayer_win.Common.{
  ℕ, ◌≡◌, refl, ap, ◌∙◌, Bool, true, false, ◌&&◌, not, if◌then◌else◌, ==_refl, Option, none, some,
  List, ◌∷◌, Outcome, ok, undefined, ◌>>=◌,
}
use tailslayer_win.Platform.Allocation.{remove}
use tailslayer_win.Sandbox.{
  Os, Held, Window, free_window, has, free_frames, free_array, give_up, destruct_manually,
  destroy_window,
}

-- What the destructor leaves of what the allocation left.
abbrev pub at_end : Os → Option ℕ × Window × Held → Outcome Held
at_end os (result, w, s) = destroy_window os w.virtual_address w.pfn_array w s

pub picked_arrays :
    (b : Bool) (s t : Held) {xs : List ℕ}
    → s.arrays ≡ xs
    → t.arrays ≡ xs
    → (if b then s else t).arrays ≡ xs
picked_arrays true s t here there = here
picked_arrays false s t here there = there

free_array-undefined : (a : ℕ) (s : Held) → has a s.arrays ≡ false → free_array a s ≡ undefined
free_array-undefined a s gone = rw gone refl

pub free_array-ok :
    (a : ℕ) (s : Held) (xs : List ℕ)
    → s.arrays ≡ a ∷ xs
    → free_array a s ≡ ok (record s { arrays = xs })
free_array-ok a s xs e =
    let without : List ℕ → Outcome Held =
      λ ys. if has a ys then ok (record s { arrays = remove a ys }) else undefined in
    ap without e ∙ rw (==_refl a) refl

undefined_first :
    {A B : Type 0} (run : Outcome A) (rest : A → Outcome B)
    → run ≡ undefined
    → (run >>= rest) ≡ undefined
undefined_first run rest e = ap (λ r. r >>= rest) e

-- The array is freed whatever the calls before it answer.
destruct_manually-undefined :
    (os : Os) (v a : ℕ) (w : Window) (s : Held)
    → has a s.arrays ≡ false
    → destruct_manually os v a w s ≡ undefined
unfolding destruct_manually
destruct_manually-undefined os v a w s gone =
    let freed : Held = if not os.unmap_pages then free_frames os w.page_frames s else s in
    let released : Held =
      if not os.unmap_pages && not os.free_pages then free_window os v freed else freed in
    let same : freed.arrays ≡ s.arrays =
      picked_arrays (not os.unmap_pages) _ s (picked_arrays os.free_pages _ s refl refl) refl in
    let still : released.arrays ≡ s.arrays =
      picked_arrays (not os.unmap_pages && not os.free_pages) _ freed
        (picked_arrays os.virtual_free _ freed same same) same in
    undefined_first _ _ (free_array-undefined a released (ap (has a) still ∙ gone))

pub give_up-undefined :
    (os : Os) (v a : ℕ) (w : Window) (s : Held) (xs : List ℕ)
    → s.arrays ≡ a ∷ xs
    → has a xs ≡ false
    → w.virtual_address ≡ some v
    → w.pfn_array ≡ some a
    → (give_up os v a w s >>= at_end os) ≡ undefined
unfolding give_up destroy_window
give_up-undefined os v a w s xs e gone window array =
    let t : Held = free_window os v (record s { arrays = xs }) in
    let kept : t.arrays ≡ xs = picked_arrays os.virtual_free _ _ refl refl in
    ap (λ run. run >>= (λ s'. ok (none, w, free_window os v s')) >>= at_end os)
      (free_array-ok a s xs e)
    ∙ ap (λ o. destroy_window os o w.pfn_array w t) window
    ∙ ap (λ o. destroy_window os (some v) o w t) array
    ∙ ap (λ run. run >>= (λ result. ok result.1))
        (destruct_manually-undefined os v a w t (ap (has a) kept ∙ gone))
