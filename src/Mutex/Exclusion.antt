-- ===== src/Mutex/Exclusion.antt =====
-- When two tasks are never inside together, and when they can be.
use pico_modbus_meter.Base.{
  ℕ, ◌≡◌, refl, sym, ◌∙◌, ◌≢◌, Bool, true, false, Option, none, some, ℕ_discrete, ◌==◌,
  if◌then◌else◌, ==_iff, ne→==,
}
use pico_modbus_meter.Mutex.{
  Semaphore, Attempt, blocks, passes, Mutex, init, lock, unlock, scoped_lock, release, Place,
  outside, locked, scoped, is_inside, System, move, Step, enter, enter_scope, leave, leave_scope,
  start, Reach, here, next,
}

module _ (sem : Semaphore) where
  -- What holds between two steps, with the state of the semaphore.
  record IsExclusive (s : System sem) (σ : sem.State) : Type 0 where
    present : s.mutex.handle ≡ some σ
    taken : (i : ℕ) → is_inside sem (s.task i) ≡ true → sem.take σ ≡ none
    guarded : (i : ℕ) → s.task i ≢ scoped false
    unique : (i j : ℕ) → is_inside sem (s.task i) ≡ true → is_inside sem (s.task j) ≡ true → i ≡ j

  enter-IsExclusive :
      (s : System sem) (σ t : sem.State) (i : ℕ) (p : Place sem)
      → IsExclusive s σ
      → sem.take σ ≡ some t
      → p ≢ scoped false
      → IsExclusive (move sem s i (record { handle = some t }) p) t
  enter-IsExclusive s σ t i p inv took ok = record {
    present = refl;
    taken = λ j h. sem.take-take σ t took;
    guarded = λ j. guard (i == j) (s.task j) (inv.guarded j);
    unique = λ j k hj hk. only j hj ∙ sym (only k hk);
  }
    where
      free : (j : ℕ) → is_inside sem (s.task j) ≡ true → ⊥
      free j h = let wait = inv.taken j h in cc

      guard : (b : Bool) (q : Place sem) → q ≢ scoped false → (if b then p else q) ≢ scoped false
      guard true q h = ok
      guard false q h = h

      only : (j : ℕ) → is_inside sem (if i == j then p else s.task j) ≡ true → j ≡ i
      only j h = elim (ℕ_discrete i j) [
        | yes e ↦ sym e
        | no ne ↦ absurd (free j (rw (ne→== i j ne) at h))
      ]

  leave-IsExclusive :
      (s : System sem) (σ : sem.State) (i : ℕ)
      → IsExclusive s σ
      → is_inside sem (s.task i) ≡ true
      → IsExclusive (move sem s i (record { handle = some (sem.give σ) }) outside) (sem.give σ)
  leave-IsExclusive s σ i inv inside = record {
    present = refl;
    taken = λ j h. absurd (none_left j h);
    guarded = λ j. guard (i == j) (s.task j) (inv.guarded j);
    unique = λ j k hj hk. absurd (none_left j hj);
  }
    where
      guard :
          (b : Bool) (q : Place sem) → q ≢ scoped false → (if b then outside else q) ≢ scoped false
      guard true q h = λ e. cc
      guard false q h = h

      none_left : (j : ℕ) → is_inside sem (if i == j then outside else s.task j) ≡ true → ⊥
      none_left j h = elim (ℕ_discrete i j) [
        | yes e ↦ let same : (i == j) ≡ true = (==_iff i j).1 e in let out = rw same at h in cc
        | no ne ↦ ne (inv.unique i j inside (rw (ne→== i j ne) at h))
      ]

  lock-passes :
      (σ : sem.State) (m : Mutex sem)
      → lock sem (some σ) ≡ passes m
      → (t : sem.State) × (sem.take σ ≡ some t) × (m ≡ record { handle = some t })
  unfolding lock
  lock-passes σ m h = by_take (sem.take σ) refl h
    where
      by_take :
          (o : Option sem.State)
          → sem.take σ ≡ o
          → ◌≡◌ {A = Attempt (Mutex sem)}
              (elim o [ none ↦ blocks | some t ↦ passes (record { handle = some t }) ])
              (passes m)
          → (t : sem.State) × (sem.take σ ≡ some t) × (m ≡ record { handle = some t })
      by_take none e h = cc
      by_take (some t) e h = (t, e, cc)

  scoped_lock-passes :
      (σ : sem.State) (m : Mutex sem) (held : Bool)
      → scoped_lock sem (some σ) ≡ passes (m, held)
      → (t : sem.State) × (sem.take σ ≡ some t) × (m ≡ record { handle = some t }) × (held ≡ true)
  unfolding scoped_lock
  scoped_lock-passes σ m held h = by_take (sem.take σ) refl h
    where
      by_take :
          (o : Option sem.State)
          → sem.take σ ≡ o
          → ◌≡◌ {A = Attempt (Mutex sem × Bool)}
              (elim o [ none ↦ blocks | some t ↦ passes (record { handle = some t }, true) ])
              (passes (m, held))
          → (t : sem.State) × (sem.take σ ≡ some t)
            × (m ≡ record { handle = some t })
            × (held ≡ true)
      by_take none e h = cc
      by_take (some t) e h = (t, e, cc, cc)

  Step-IsExclusive :
      {s u : System sem} (σ : sem.State)
      → Step sem s u
      → IsExclusive s σ
      → (τ : sem.State) × IsExclusive u τ
  unfolding unlock release
  Step-IsExclusive {s} σ (enter i m out h) inv =
      let (t, took, same) = lock-passes σ m (rw inv.present at h) in
      (t, rw same (enter-IsExclusive s σ t i locked inv took (λ e. cc)))
  Step-IsExclusive {s} σ (enter_scope i m held out h) inv =
      let (t, took, same, kept) = scoped_lock-passes σ m held (rw inv.present at h) in
      (t, rw (same, kept) (enter-IsExclusive s σ t i (scoped true) inv took (λ e. cc)))
  Step-IsExclusive {s} σ (leave i m at h) inv =
      let same : m ≡ record { handle = some (sem.give σ) } = let g = rw inv.present at h in cc in
      (sem.give σ, rw same (leave-IsExclusive s σ i inv (rw at refl)))
  Step-IsExclusive {s} σ (leave_scope i true at) inv =
      (sem.give σ, rw inv.present (leave-IsExclusive s σ i inv (rw at refl)))
  Step-IsExclusive {s} σ (leave_scope i false at) inv = absurd (inv.guarded i at)

  start-IsExclusive : (σ : sem.State) → IsExclusive (start sem (some σ)) (sem.give σ)
  unfolding init
  start-IsExclusive σ = record {
    present = refl;
    taken = λ i h. cc;
    guarded = λ i e. cc;
    unique = λ i j h k. cc;
  }

  Reach-IsExclusive :
      (σ : sem.State) {s : System sem} → Reach sem (some σ) s → (τ : sem.State) × IsExclusive s τ
  Reach-IsExclusive σ here = (sem.give σ, start-IsExclusive σ)
  Reach-IsExclusive σ (next r st) =
      let (τ, inv) = Reach-IsExclusive σ r in Step-IsExclusive τ st inv

  -- When the semaphore could be created, two tasks are never between `lock` and `unlock` or in the scope of a guard together, in
  -- whatever order the tasks run.
  pub mutual_exclusion :
      (created : sem.State) {s : System sem}
      → Reach sem (some created) s
      → (i j : ℕ) → is_inside sem (s.task i) ≡ true
      → is_inside sem (s.task j) ≡ true
      → i ≡ j
  mutual_exclusion created r i j h k = (Reach-IsExclusive created r).1.unique i j h k

  -- When the semaphore could not be created, the guards let any two tasks in together.
  pub scoped_lock-without_handle :
      (i j : ℕ)
      → i ≢ j
      → (s : System sem) × Reach sem none s
        × (is_inside sem (s.task i) ≡ true)
        × (is_inside sem (s.task j) ≡ true)
  unfolding scoped_lock init
  scoped_lock-without_handle i j apart =
      let one : System sem =
        move sem (start sem none) i (record { handle = none }) (scoped false) in
      (
        move sem one j (record { handle = none }) (scoped false),
        next (next here (enter_scope i (record { handle = none }) false refl refl))
            (enter_scope j (record { handle = none }) false (rw (ne→== i j apart) refl) refl),
        rw ((==_iff i i).1 refl) (pick (j == i)),
        rw ((==_iff j j).1 refl) refl,
      )
    where
      pick : (b : Bool) → is_inside sem (if b then scoped false else scoped false) ≡ true
      pick true = refl
      pick false = refl
