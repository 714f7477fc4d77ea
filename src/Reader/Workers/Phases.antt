-- ===== src/Reader/Workers/Phases.antt =====
-- The phases of a worker of hedged_reader.hpp, told apart.
use native.Mathlib.Decide.{ℕ_discrete}
use mathlib.Core.Logic.{ite}
use tailslayer_win.Common.{ℕ, ◌≢◌, subst}
use tailslayer_win.Reader.Workers.{
  Phase, absent, created, pinned, reading, finished, dangling, update,
}

-- A worker that has a thread; one that has yet to return; one that has read.
abbrev pub IsPresent {ℓ} : {A : Type ℓ} → Phase A → Type 0
IsPresent absent = ⊥
IsPresent created = Unit
IsPresent (pinned affinity) = Unit
IsPresent (reading affinity read_index) = Unit
IsPresent (finished affinity read_index value) = Unit
IsPresent dangling = Unit

abbrev pub IsBusy {ℓ} : {A : Type ℓ} → Phase A → Type 0
IsBusy absent = ⊥
IsBusy created = Unit
IsBusy (pinned affinity) = Unit
IsBusy (reading affinity read_index) = Unit
IsBusy (finished affinity read_index value) = ⊥
IsBusy dangling = ⊥

abbrev pub IsFinished {ℓ} : {A : Type ℓ} → Phase A → Type 0
IsFinished absent = ⊥
IsFinished created = ⊥
IsFinished (pinned affinity) = ⊥
IsFinished (reading affinity read_index) = ⊥
IsFinished (finished affinity read_index value) = Unit
IsFinished dangling = ⊥

module _ {ℓ} {A : Type ℓ} where
  pub busy_unfinished : (p : Phase A) → IsBusy p → IsFinished p → ⊥
  busy_unfinished absent b f = b
  busy_unfinished created b f = f
  busy_unfinished (pinned affinity) b f = f
  busy_unfinished (reading affinity read_index) b f = f
  busy_unfinished (finished affinity read_index value) b f = b
  busy_unfinished dangling b f = b

  -- What holds at each worker after an update.
  pub update_all {κ} :
      (P : ℕ → Phase A → Type κ) (i : ℕ) (p : Phase A) (worker : ℕ → Phase A)
      → P i p
      → ((j : ℕ) → i ≢ j → P j (worker j))
      → (j : ℕ) → P j (update i p worker j)
  update_all P i p worker h rest j = elim (ℕ_discrete i j) as (λ d. P j (ite d p (worker j))) [
    | yes e ↦ subst (λ k. P k p) e h
    | no other ↦ rest j other
  ]
