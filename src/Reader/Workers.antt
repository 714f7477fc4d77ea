-- ===== src/Reader/Workers.antt =====
-- The threads of tailslayer/include/tailslayer/hedged_reader.hpp: `start_workers` and `worker_func`,
-- and the destructor, which joins the workers and gives the page back. The thread that owns the
-- reader starts the workers and then destroys the reader; the workers run in between, in any order.
-- `wait_work` is the caller's: it may return any index of a set of its own.
pub mod Phases
pub mod Runs
pub mod Measure
pub mod Ends
pub mod Reads
mod Tests
use native.Mathlib.Decide.{ℕ_discrete}
use mathlib.Core.Logic.{ite}
use tailslayer_win.Common.{
  ℕ, zero, suc, ◌+◌, ◌<◌, ◌≡◌, Option, Outcome, Bool, true, false, if◌then◌else◌, get_or,
}
use tailslayer_win.Platform.Host.{set_current_thread_processor_id}
use tailslayer_win.Reader.{Reader, worker_read}

-- The affinity that `SetCurrentThreadProcessorID` left, whose result `worker_func` ignores: `ok none` is
-- that of a new thread, and `undefined` comes of a shift that C++ does not define, after which the
-- worker is taken to go on.
abbrev pub Affinity : Type 0
Affinity = Outcome (Option ℕ)

-- Where a worker is: no thread yet, at its begin, past `SetCurrentThreadProcessorID`, with the index of
-- `wait_work`, done with the value that `final_work` was given, or with a read of a page that was given
-- back.
pub data Phase {ℓ} (A : Type ℓ) : Type ℓ where
  absent : Phase A
  created : Phase A
  pinned : Affinity → Phase A
  reading : Affinity → ℕ → Phase A
  finished : Affinity → ℕ → A → Phase A
  dangling : Phase A

-- Where the owner is: in the loop of `start_workers`, in the loop of the destructor, or past it.
pub data Owner : Type 0 where
  starting : ℕ → Owner
  joining : ℕ → Owner
  destroyed : Owner

pub record State {ℓ} (A : Type ℓ) : Type ℓ where
  pub owner : Owner
  pub worker : ℕ → Phase A
  pub page_live : Bool

-- The thread has returned.
abbrev pub HasReturned {ℓ} : {A : Type ℓ} → Phase A → Type 0
HasReturned (finished affinity read_index value) = Unit
HasReturned dangling = Unit
HasReturned absent = ⊥
HasReturned created = ⊥
HasReturned (pinned affinity) = ⊥
HasReturned (reading affinity read_index) = ⊥

module _ {ℓ} {A : Type ℓ} where
  abbrev pub update : ℕ → Phase A → (ℕ → Phase A) → ℕ → Phase A
  update i p worker j = ite (ℕ_discrete i j) p (worker j)

  -- One round of the loop of `start_workers`, and the end of its delay.
  pub start_worker : ℕ → State A → State A
  start_worker i s = record s { owner = starting (suc i); worker = update i created s.worker }

  pub after_delay : State A → State A
  after_delay s = record s { owner = joining 0 }

  -- `worker_func` of worker `i`: `SetCurrentThreadProcessorID`, `wait_work`, and the read.
  pub pin_worker : Reader A → Bool → ℕ → State A → State A
  unfolding set_current_thread_processor_id
  pin_worker r accepted i s =
      let affinity = set_current_thread_processor_id accepted (get_or r.cores i 0) in
      record s { worker = update i (pinned affinity) s.worker }

  pub take_index : ℕ → Affinity → ℕ → State A → State A
  take_index i affinity read_index s = record s {
    worker = update i (reading affinity read_index) s.worker;
  }

  pub read_value : ℕ → Reader A → ℕ → Affinity → ℕ → State A → State A
  unfolding worker_read
  read_value size_of r i affinity read_index s =
      let value = worker_read size_of r i read_index in
      record s {
        worker =
            update i (if s.page_live then finished affinity read_index value else dangling)
              s.worker;
      }

  -- One round of the loop of the destructor, and what follows it.
  pub after_join : ℕ → State A → State A
  after_join i s = record s { owner = joining (suc i) }

  pub release_page : State A → State A
  release_page s = record s { owner = destroyed; page_live = false }

  -- What may happen next, with `n` workers. A worker without a thread is not joinable and is passed
  -- over; one with a thread is waited for.
  module _ (size_of n : ℕ) (r : Reader A) (Signals : ℕ → Type 0) where
    pub data Step (s : State A) : State A → Type ℓ where
      start : (i : ℕ) → s.owner ≡ starting i → i < n → Step s (start_worker i s)
      delay : s.owner ≡ starting n → Step s (after_delay s)
      pin : (accepted : Bool) (i : ℕ) → s.worker i ≡ created → Step s (pin_worker r accepted i s)
      wait :
          (i : ℕ) (affinity : Affinity) (read_index : ℕ)
          → s.worker i ≡ pinned affinity
          → Signals read_index
          → Step s (take_index i affinity read_index s)
      read :
          (i : ℕ) (affinity : Affinity) (read_index : ℕ)
          → s.worker i ≡ reading affinity read_index
          → Step s (read_value size_of r i affinity read_index s)
      join :
          (i : ℕ) → s.owner ≡ joining i → i < n → HasReturned (s.worker i) → Step s (after_join i s)
      pass : (i : ℕ) → s.owner ≡ joining i → i < n → s.worker i ≡ absent → Step s (after_join i s)
      release : s.owner ≡ joining n → Step s (release_page s)

    -- A run, with the number of its steps.
    pub data Run (s : State A) : ℕ → State A → Type ℓ where
      here : Run s 0 s
      next : {k : ℕ} {t u : State A} → Run s k t → Step t u → Run s (suc k) u

abbrev pub first_state {ℓ} : {A : Type ℓ} → State A
first_state = record { owner = starting 0; worker = λ _. absent; page_live = true }
