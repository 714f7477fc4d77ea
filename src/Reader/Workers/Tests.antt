-- ===== src/Reader/Workers/Tests.antt =====
-- Two workers on a page of 4-byte objects at 4096, one of which has been started.
use tailslayer_win.Common.{
  ℕ, ◌+◌, ◌*◌, ◌^◌, ◌<◌, ◌≡◌, refl, arith, true, false, List, [], ◌∷◌, some, get_elem?, get_or,
  length, ok,
}
use tailslayer_win.Reader.{Reader, insert_all}
use tailslayer_win.Reader.Layout.{IsLaid}
use tailslayer_win.Reader.Workers.{
  Affinity, finished, dangling, destroyed, State, Run, here, next, start, start_worker, first_state,
}
use tailslayer_win.Reader.Workers.Phases.{IsFinished}
use tailslayer_win.Reader.Workers.Ends.{workers_end}
use tailslayer_win.Reader.Workers.Reads.{AllowedOn, workers-read}

abbrev page : Reader ℕ
page = record {
  channel_bit = 4;
  channel_offset = 16;
  num_channels = 2;
  replica_page = some 4096;
  logical_index = 0;
  capacity = 2 ^ 27;
  chunk_shift = 2;
  chunk_mask = 3;
  stride_in_elements = 8;
  replicas = 4096 ∷ 4112 ∷ [];
  cores = 1 ∷ 2 ∷ [];
  memory = λ _. 0;
}

page-IsLaid : IsLaid 4 2 2 4096 page
page-IsLaid = record {
  shift = refl;
  mask = refl;
  offset = refl;
  stride = refl;
  capacity = refl;
  page = refl;
  replicas = refl;
  few = omega arith;
  sized = omega arith;
}

abbrev two_values : List ℕ
two_values = 7 ∷ 8 ∷ []

abbrev FirstIndex : ℕ → Type 0
FirstIndex i = i ≡ 0

one_started : Run 4 2 page FirstIndex first_state 1 (start_worker 0 first_state)
one_started = next here (start 0 refl (omega arith))

workers_end_example :
    (left : ℕ) × (t : State ℕ) × (1 + left ≡ 5 * 2 + 2)
    × Run 4 2 page FirstIndex (start_worker 0 first_state) left t
    × (t.owner ≡ destroyed)
    × ((i : ℕ) → i < 2 → IsFinished (t.worker i))
workers_end_example = workers_end 4 2 page FirstIndex 0 refl one_started

workers-read_example :
    (r' : Reader ℕ) × (insert_all 4 2 true two_values page ≡ ok r')
    × ((steps : ℕ) (s : State ℕ)
        → Run 4 2 r' (λ i. i < length two_values) first_state steps s
        → ((i : ℕ) (affinity : Affinity) (read_index value : ℕ)
            → s.worker i ≡ finished affinity read_index value
            → (i < 2)
              × AllowedOn (get_or r'.cores i 0) affinity
              × (get_elem? two_values read_index ≡ some value))
          × ((i : ℕ) → s.worker i ≡ dangling → ⊥)
          × (s.page_live ≡ false → (i : ℕ) → i < 2 → IsFinished (s.worker i)))
workers-read_example = workers-read page two_values page-IsLaid refl (omega arith)
