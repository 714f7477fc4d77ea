-- ===== src/Reader/Workers/Runs.antt =====
-- What holds however the workers of hedged_reader.hpp and their owner take turns.
use native.Mathlib.Decide.{ℕ_discrete, dec_lt}
use tailslayer_win.Common.{
  ℕ, suc, ◌≤◌, ◌<◌, ◌≡◌, ◌≢◌, refl, sym, arith, Bool, true, false, if◌then◌else◌, get_or, subst,
}
use tailslayer_win.Platform.Host.{set_current_thread_processor_id}
use tailslayer_win.Reader.{Reader, worker_read}
use tailslayer_win.Reader.Workers.{
  Affinity, Phase, absent, created, pinned, reading, finished, dangling, Owner, starting, joining,
  destroyed, State, HasReturned, update, start_worker, after_delay, pin_worker, take_index,
  read_value, after_join, release_page, Step, start, delay, pin, wait, read, join, pass, release,
  Run, here, next, first_state,
}
use tailslayer_win.Reader.Workers.Phases.{
  IsPresent, IsBusy, IsFinished, busy_unfinished, update_all,
}

-- The affinity that a call for the core leaves, by whether the operating system accepts it.
abbrev pub RunsOn : ℕ → Affinity → Type 0
RunsOn core affinity =
    (accepted : Bool) × (affinity ≡ set_current_thread_processor_id accepted core)

module _ {ℓ} {A : Type ℓ} (size_of n : ℕ) (r : Reader A) (Signals : ℕ → Type 0) where
  -- What a worker has done so far is what its thread is to do.
  abbrev pub IsSound : ℕ → Phase A → Type ℓ
  IsSound i absent = Unit
  IsSound i created = Unit
  IsSound i (pinned affinity) = RunsOn (get_or r.cores i 0) affinity × Unit {ℓ}
  IsSound i (reading affinity read_index) =
      RunsOn (get_or r.cores i 0) affinity × Signals read_index × Unit {ℓ}
  IsSound i (finished affinity read_index value) =
      RunsOn (get_or r.cores i 0) affinity
      × Signals read_index
      × (value ≡ worker_read size_of r i read_index)
  IsSound i dangling = ⊥ × Unit {ℓ}

  abbrev pub OwnerOk : Owner → (ℕ → Phase A) → Bool → Type ℓ
  OwnerOk (starting k) worker live =
      (live ≡ true)
      × (k ≤ n)
      × ((j : ℕ) → j < k → IsPresent (worker j))
      × ((j : ℕ) → k ≤ j → worker j ≡ absent)
  OwnerOk (joining k) worker live =
      (live ≡ true)
      × (k ≤ n)
      × ((j : ℕ) → j < n → IsPresent (worker j))
      × ((j : ℕ) → n ≤ j → worker j ≡ absent)
      × ((j : ℕ) → j < k → IsFinished (worker j))
  OwnerOk destroyed worker live =
      ((j : ℕ) → j < n → IsFinished (worker j)) × ((j : ℕ) → n ≤ j → worker j ≡ absent)

  pub record Inv (s : State A) : Type ℓ where
    pub sound : (i : ℕ) → IsSound i (s.worker i)
    pub owner_ok : OwnerOk s.owner s.worker s.page_live

  pub first_state-Inv : Inv first_state
  first_state-Inv = record {
    sound = λ i. tt;
    owner_ok = (refl, omega arith, λ j lt. absurd (omega arith), λ j le. refl);
  }

  module _ (i : ℕ) (p : Phase A) (worker : ℕ → Phase A) (busy : IsBusy (worker i))
      (present : IsPresent p) where
    moved_absent :
        (k : ℕ)
        → ((j : ℕ) → k ≤ j → worker j ≡ absent)
        → (j : ℕ) → k ≤ j
        → update i p worker j ≡ absent
    moved_absent k h =
        update_all (λ j q. k ≤ j → q ≡ absent) i p worker
          (λ le. absurd (subst IsBusy (h i le) busy)) (λ j other. h j)

    moved-IsPresent :
        (k : ℕ)
        → ((j : ℕ) → j < k → IsPresent (worker j))
        → (j : ℕ) → j < k
        → IsPresent (update i p worker j)
    moved-IsPresent k h =
        update_all (λ j q. j < k → IsPresent q) i p worker (λ lt. present) (λ j other. h j)

    moved-IsFinished :
        (k : ℕ)
        → ((j : ℕ) → j < k → IsFinished (worker j))
        → (j : ℕ) → j < k
        → IsFinished (update i p worker j)
    moved-IsFinished k h =
        update_all (λ j q. j < k → IsFinished q) i p worker
          (λ lt. absurd (busy_unfinished (worker i) busy (h i lt))) (λ j other. h j)

    moved-OwnerOk :
        (owner : Owner) (live : Bool)
        → OwnerOk owner worker live
        → OwnerOk owner (update i p worker) live
    moved-OwnerOk (starting k) live (l, le, there, rest) =
        (l, le, moved-IsPresent k there, moved_absent k rest)
    moved-OwnerOk (joining k) live (l, le, there, rest, joined) =
        (l, le, moved-IsPresent n there, moved_absent n rest, moved-IsFinished k joined)
    moved-OwnerOk destroyed live (joined, rest) = (moved-IsFinished n joined, moved_absent n rest)

  -- A worker that moves on.
  moved-Inv :
      (i : ℕ) (p : Phase A) (s : State A)
      → Inv s
      → IsBusy (s.worker i)
      → IsPresent p
      → IsSound i p
      → Inv (record s { worker = update i p s.worker })
  moved-Inv i p s h busy present sound = record {
    sound = update_all IsSound i p s.worker sound (λ j other. h.sound j);
    owner_ok = moved-OwnerOk i p s.worker busy present s.owner s.page_live h.owner_ok;
  }

  live_of_busy :
      (owner : Owner) (worker : ℕ → Phase A) (live : Bool) (i : ℕ)
      → OwnerOk owner worker live
      → IsBusy (worker i)
      → live ≡ true
  live_of_busy (starting k) worker live i (l, _, _, _) busy = l
  live_of_busy (joining k) worker live i (l, _, _, _, _) busy = l
  live_of_busy destroyed worker live i (joined, gone) busy = elim (dec_lt i n) [
    | yes lt ↦ absurd (busy_unfinished (worker i) busy (joined i lt))
    | no ge ↦ absurd (subst IsBusy (gone i (omega arith)) busy)
  ]

  -- What the read leaves, while the page is there.
  read_phase : ℕ → Affinity → ℕ → Bool → Phase A
  read_phase i affinity read_index live =
      if live then finished affinity read_index (worker_read size_of r i read_index) else dangling

  read_phase-ok :
      (i : ℕ) (affinity : Affinity) (read_index : ℕ) (live : Bool)
      → live ≡ true
      → RunsOn (get_or r.cores i 0) affinity
      → Signals read_index
      → IsPresent (read_phase i affinity read_index live)
        × IsSound i (read_phase i affinity read_index live)
  unfolding read_phase
  read_phase-ok i affinity read_index true l on_core signal = (tt, (on_core, signal, refl))
  read_phase-ok i affinity read_index false l on_core signal = absurd (cc)

  start-Inv : (s : State A) (i : ℕ) → Inv s → s.owner ≡ starting i → i < n → Inv (start_worker i s)
  unfolding start_worker
  start-Inv s i h e lt =
      let (l, le, there, rest) = subst (λ o. OwnerOk o s.worker s.page_live) e h.owner_ok in
      record {
        sound = update_all IsSound i created s.worker tt (λ j other. h.sound j);
        owner_ok = (
          l,
          omega arith,
          update_all (λ j q. j < suc i → IsPresent q) i created s.worker (λ _. tt)
              (λ j other lt. there j (below i j other lt)),
          update_all (λ j q. suc i ≤ j → q ≡ absent) i created s.worker (λ le. absurd (omega arith))
              (λ j other le. rest j (omega arith)),
        );
      }
    where
      below : (i j : ℕ) → i ≢ j → j < suc i → j < i
      below i j other lt = ground arith

  join-Inv :
      (s : State A) (i : ℕ)
      → Inv s
      → s.owner ≡ joining i
      → i < n
      → IsFinished (s.worker i)
      → Inv (after_join i s)
  unfolding after_join
  join-Inv s i h e lt done =
      let (l, le, there, rest, joined) = subst (λ o. OwnerOk o s.worker s.page_live) e h.owner_ok in
      record {
        sound = h.sound;
        owner_ok = (
          l,
          omega arith,
          there,
          rest,
          λ j lt. elim (ℕ_discrete i j) [
            | yes same ↦ subst (λ k. IsFinished (s.worker k)) same done
            | no other ↦ joined j (below i j other lt)
          ],
        );
      }
    where
      below : (i j : ℕ) → i ≢ j → j < suc i → j < i
      below i j other lt = ground arith

  returned-IsFinished : (i : ℕ) (p : Phase A) → IsSound i p → HasReturned p → IsFinished p
  returned-IsFinished i absent sound back = back
  returned-IsFinished i created sound back = back
  returned-IsFinished i (pinned affinity) sound back = back
  returned-IsFinished i (reading affinity read_index) sound back = back
  returned-IsFinished i (finished affinity read_index value) sound back = tt
  returned-IsFinished i dangling sound back = absurd sound.0

  pub Step-Inv : {s t : State A} → Step size_of n r Signals s t → Inv s → Inv t
  unfolding after_delay pin_worker take_index read_value release_page read_phase
  Step-Inv {s = s} (start i e lt) h = start-Inv s i h e lt
  Step-Inv {s = s} (delay e) h =
      let (l, le, there, rest) = subst (λ o. OwnerOk o s.worker s.page_live) e h.owner_ok in
      record {
        sound = h.sound;
        owner_ok = (l, omega arith, there, rest, λ j lt. absurd (omega arith));
      }
  Step-Inv {s = s} (pin accepted i e) h =
      let affinity = set_current_thread_processor_id accepted (get_or r.cores i 0) in
      moved-Inv i (pinned affinity) s h (subst IsBusy (sym e) tt) tt ((accepted, refl), tt)
  Step-Inv {s = s} (wait i affinity read_index e signal) h =
      let (on_core, _) = subst (IsSound i) e (h.sound i) in
      moved-Inv i (reading affinity read_index) s h (subst IsBusy (sym e) tt) tt
        (on_core, signal, tt)
  Step-Inv {s = s} (read i affinity read_index e) h =
      let (on_core, signal, _) = subst (IsSound i) e (h.sound i) in
      let busy = subst IsBusy (sym e) tt in
      let live = live_of_busy s.owner s.worker s.page_live i h.owner_ok busy in
      let (present, sound) = read_phase-ok i affinity read_index s.page_live live on_core signal in
      moved-Inv i (read_phase i affinity read_index s.page_live) s h busy present sound
  Step-Inv {s = s} (join i e lt back) h =
      join-Inv s i h e lt (returned-IsFinished i (s.worker i) (h.sound i) back)
  Step-Inv {s = s} (pass i e lt gone) h =
      let (l, le, there, rest, joined) = subst (λ o. OwnerOk o s.worker s.page_live) e h.owner_ok in
      absurd (subst IsPresent gone (there i lt))
  Step-Inv {s = s} (release e) h =
      let (l, le, there, rest, joined) = subst (λ o. OwnerOk o s.worker s.page_live) e h.owner_ok in
      record { sound = h.sound; owner_ok = (joined, rest) }

  pub Run-Inv : {s : State A} {k : ℕ} {t : State A} → Run size_of n r Signals s k t → Inv s → Inv t
  Run-Inv here h = h
  Run-Inv (next run step) h = Step-Inv step (Run-Inv run h)

  pub reached-Inv : {k : ℕ} {s : State A} → Run size_of n r Signals first_state k s → Inv s
  reached-Inv run = Run-Inv run first_state-Inv
