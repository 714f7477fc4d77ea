-- ===== src/Reader/Tests.antt =====
-- Runs of the reader on small pages, and its theorems at concrete inputs.
use tailslayer_win.Common.{
  ℕ, ◌+◌, ◌-◌, ◌*◌, ◌/◌, ◌%◌, ◌^◌, ◌≤◌, ◌<◌, ◌≡◌, ◌⊎◌, inl, refl, arith, true, [], ◌∷◌, none, some,
  get_or, get_elem?, ok, aborted, undefined,
}
use tailslayer_win.Platform.Channel.{compute_channel}
use tailslayer_win.Reader.{
  Reader, configure, attach_page, setup_replica_cores, insert_all, size, worker_read,
  get_next_logical_index_address,
}
use tailslayer_win.Reader.Layout.{IsLaid, addresses_apart}
use tailslayer_win.Reader.Layout.Configure.{configure-IsLaid}
use tailslayer_win.Reader.Vector.{insert_all-reads, insert_all-aborts}
use tailslayer_win.Reader.Cores.{worker-affinity}
use tailslayer_win.Platform.Host.{affinity_mask}
use tailslayer_win.Reader.Channels.{IsContiguous, physical-channel, compute_channel-replica}

-- Two channels, four 4-byte objects to a chunk of 16 bytes, a page at 4096.
abbrev words : Reader ℕ
words = record {
  channel_bit = 4;
  channel_offset = 16;
  num_channels = 2;
  replica_page = some 4096;
  logical_index = 0;
  capacity = 2 ^ 27;
  chunk_shift = 2;
  chunk_mask = 3;
  stride_in_elements = 8;
  replicas = 4096 ∷ 4112 ∷ [];
  cores = 1 ∷ 2 ∷ [];
  memory = λ _. 0;
}

-- One object of half a page in each of two channels.
abbrev halves : Reader ℕ
halves = record words {
  channel_offset = 2 ^ 29;
  capacity = 1;
  chunk_shift = 0;
  chunk_mask = 0;
  stride_in_elements = 2;
  replicas = 4096 ∷ (4096 + 2 ^ 29) ∷ [];
}

words-IsLaid : IsLaid 4 2 2 4096 words
words-IsLaid = record {
  shift = refl;
  mask = refl;
  offset = refl;
  stride = refl;
  capacity = refl;
  page = refl;
  replicas = refl;
  few = omega arith;
  sized = omega arith;
}

halves-IsLaid : IsLaid (2 ^ 29) 2 0 4096 halves
halves-IsLaid = record {
  shift = refl;
  mask = refl;
  offset = refl;
  stride = refl;
  capacity = refl;
  page = refl;
  replicas = refl;
  few = omega arith;
  sized = omega arith;
}

configured_as_words :
    configure {A = ℕ} 4 2 16 4 2 (λ _. 0)
    ≡ ok (record words { replica_page = none; replicas = 0 ∷ 0 ∷ [] })
unfolding configure
configured_as_words = refl

odd_offset : configure {A = ℕ} 4 2 18 4 2 (λ _. 0) ≡ aborted
unfolding configure
odd_offset = refl

too_many_replicas : configure {A = ℕ} 4 3 16 4 2 (λ _. 0) ≡ aborted
unfolding configure
too_many_replicas = refl

-- The fifth element of replica 1 is in the second stride.
fifth_address : get_next_logical_index_address 4 words 1 5 ≡ 4096 + 32 + 16 + 4
unfolding get_next_logical_index_address
fifth_address = refl

configure-IsLaid_example :
    (r : Reader ℕ) × (configure 4 2 (4 * 2 ^ 2) 4 2 (λ _. 0) ≡ ok r)
    × IsLaid 4 2 2 4096 (attach_page 2 0 4096 r)
configure-IsLaid_example =
    configure-IsLaid 4 2 2 2 4 (λ _. 0) (omega arith) (omega arith) (omega arith) (omega arith)
      (omega arith) 4096 0

addresses_apart_example :
    (get_next_logical_index_address 4 words 0 3 + 4 ≤ get_next_logical_index_address 4 words 1 3)
    ⊎ (get_next_logical_index_address 4 words 1 3 + 4 ≤ get_next_logical_index_address 4 words 0 3)
addresses_apart_example =
    addresses_apart words-IsLaid (omega arith) (omega arith) (omega arith) (omega arith)
      (inl (omega arith))

insert_all-reads_example :
    (r' : Reader ℕ) × (insert_all 4 2 true (67 ∷ 68 ∷ 69 ∷ []) words ≡ ok r')
    × (size r' ≡ 3)
    × ((i logical v : ℕ)
        → i < 2
        → get_elem? (67 ∷ 68 ∷ 69 ∷ []) logical ≡ some v
        → worker_read 4 r' i logical ≡ v)
insert_all-reads_example =
    insert_all-reads words words-IsLaid refl (67 ∷ 68 ∷ 69 ∷ []) (omega arith)

insert_all-aborts_example : insert_all (2 ^ 29) 2 true (7 ∷ []) halves ≡ aborted
insert_all-aborts_example = insert_all-aborts halves halves-IsLaid refl 7 [] (omega arith)

worker-affinity_example :
    let core = get_or (setup_replica_cores 4 4) 3 0 in
    (core ≡ 4)
    × (3 < 30 → affinity_mask core ≡ ok (2 ^ 4))
    × (31 ≤ 3 → affinity_mask core ≡ undefined)
worker-affinity_example = worker-affinity 4 4 3 (omega arith) (omega arith)

-- A block five strides into memory.
abbrev shifted : ℕ → ℕ
shifted a = a - 4096 + 160

shifted-IsContiguous : IsContiguous shifted 4096 5 32
shifted-IsContiguous = record { mapped = λ a low high. omega arith }

physical-channel_example :
    ◌≡◌ {A = ℕ} (shifted (get_next_logical_index_address 4 words 1 5) / 16 % 2) 1
physical-channel_example =
    physical-channel words-IsLaid shifted-IsContiguous {i = 1} {logical = 5} (omega arith)
      (omega arith)

compute_channel-replica_example :
    compute_channel (shifted (get_next_logical_index_address 4 words 1 5)) 4 ≡ 1
compute_channel-replica_example =
    compute_channel-replica words-IsLaid shifted-IsContiguous {i = 1} {logical = 5} (omega arith)
      (omega arith) 4 1 refl refl
