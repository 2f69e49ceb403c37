-- ===== src/Mutex.antt =====
-- include/mutex.h: the mutex of the SunSpec registers, and the tasks that use it. A semaphore of FreeRTOS is a parameter;
-- taking it waits without end, as `portMAX_DELAY` asks for, so that it fails only without a handle.
pub mod Exclusion
mod Tests
use pico_modbus_meter.Base.{
  ℕ, ◌≡◌, Bool, true, false, Option, none, some, ◌==◌, if◌then◌else◌, take,
}

-- A binary semaphore: `take` is none while the caller has to wait. Once taken, it is not taken again before it is given.
pub record Semaphore : Type 1 where
  pub State : Type 0
  pub take : State → Option State
  pub give : State → State
  pub take-take : (s t : State) → take s ≡ some t → take t ≡ none

-- what comes of a call: an access through a null handle, a wait, or a result
pub data Attempt {ℓ} (A : Type ℓ) : Type ℓ where
  invalid : Attempt A
  blocks : Attempt A
  passes : A → Attempt A

module _ (sem : Semaphore) where
  -- the semaphore behind the handle; none is a null handle
  pub record Mutex : Type 0 where
    pub handle : Option sem.State

  -- `mutex()`, given what `xSemaphoreCreateBinary` returns
  unfoldable pub init : Option sem.State → Mutex
  init none = record { handle = none }
  init (some s) = record { handle = some (sem.give s) }

  -- `lock` and `unlock`
  unfoldable pub lock : Option sem.State → Attempt Mutex
  lock none = invalid
  lock (some s) = elim (sem.take s) [ none ↦ blocks | some t ↦ passes (record { handle = some t }) ]

  unfoldable pub unlock : Option sem.State → Attempt Mutex
  unlock none = invalid
  unlock (some s) = passes (record { handle = some (sem.give s) })

  -- the constructor of `scoped_lock`: the mutex, and whether the guard keeps the handle
  unfoldable pub scoped_lock : Option sem.State → Attempt (Mutex × Bool)
  scoped_lock none = passes (record { handle = none }, false)
  scoped_lock (some s) = elim (sem.take s) [
    | none ↦ blocks
    | some t ↦ passes (record { handle = some t }, true)
  ]

  -- its destructor
  unfoldable pub release : Option sem.State → Bool → Mutex
  release none held = record { handle = none }
  release (some s) held = record { handle = some (if held then sem.give s else s) }

  -- Where a task is: outside, between `lock` and `unlock`, or in the scope of a guard.
  pub data Place : Type 0 where
    outside : Place
    locked : Place
    scoped : Bool → Place

  abbrev pub is_inside : Place → Bool
  is_inside outside = false
  is_inside locked = true
  is_inside (scoped held) = true

  -- the mutex and the tasks by number
  pub record System : Type 0 where
    pub mutex : Mutex
    pub task : ℕ → Place

  abbrev pub move : System → ℕ → Mutex → Place → System
  move s i m p = record { mutex = m; task = λ j. if i == j then p else s.task j }

  -- A step of one task: it enters by `lock` or by a guard, if that does not block, or it leaves.
  pub data Step (s : System) : System → Type 0 where
    enter :
        (i : ℕ) (m : Mutex)
        → s.task i ≡ outside
        → lock s.mutex.handle ≡ passes m
        → Step s (move s i m locked)
    enter_scope :
        (i : ℕ) (m : Mutex) (held : Bool)
        → s.task i ≡ outside
        → scoped_lock s.mutex.handle ≡ passes (m, held)
        → Step s (move s i m (scoped held))
    leave :
        (i : ℕ) (m : Mutex)
        → s.task i ≡ locked
        → unlock s.mutex.handle ≡ passes m
        → Step s (move s i m outside)
    leave_scope :
        (i : ℕ) (held : Bool)
        → s.task i ≡ scoped held
        → Step s (move s i (release s.mutex.handle held) outside)

  -- the start, given what `xSemaphoreCreateBinary` returns
  abbrev pub start : Option sem.State → System
  unfolding init
  start created = record { mutex = init created; task = λ i. outside }

  pub data Reach (created : Option sem.State) : System → Type 0 where
    here : Reach created (start created)
    next : {s t : System} → Reach created s → Step s t → Reach created t
