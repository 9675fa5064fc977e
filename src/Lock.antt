-- ===== src/Lock.antt =====
-- The locks (src/utils/lock.h): the guard `ScopedLock`, over a lock that is a parameter; and threads
-- that each use a guard over one `SpinLock`, interleaved in any order. The accesses of the atomic
-- flag are sequentially consistent, as they are by default. `NullLock` does nothing, and `MutexLock`
-- passes its calls on to `std::mutex`.
pub mod Guard
pub mod Spin
use smallkv.Base.{ℕ, ◌≡◌, refl, Bool, true, false, List, [], ◌∷◌, ◌==◌, if◌then◌else◌}

pub record ScopedLock (L : Type 0) : Type 0 where
  pub local_lock : L
  pub is_locked : Bool

-- What is called on a guard between its construction and its end.
pub data Call : Type 0 where
  lock unlock : Call

module _ {L : Type 0} (lock_it unlock_it : L → L) where
  unfoldable pub construct : L → ScopedLock L
  construct l = record { local_lock = lock_it l; is_locked = true }

  unfoldable pub call : ScopedLock L → Call → ScopedLock L
  call g lock =
      if g.is_locked then g else record { local_lock = lock_it g.local_lock; is_locked = true }
  call g unlock =
      if g.is_locked then record { local_lock = unlock_it g.local_lock; is_locked = false } else g

  unfoldable pub calls : ScopedLock L → List Call → ScopedLock L
  unfolding call
  calls g [] = g
  calls g (c ∷ cs) = calls (call g c) cs

  -- The destructor, and the lock that is left.
  unfoldable pub destroy : ScopedLock L → L
  unfolding call
  destroy g = (call g unlock).local_lock

-- Where a thread stands with its guard.
pub data Pc : Type 0 where
  idle : Pc  -- it has no guard
  spinning : Pc  -- in the loop of `SpinLock::lock`
  locked : Pc  -- the guard has `is_locked`
  unlocked : Pc  -- the guard has not

-- `test_and_set`: what the flag held, and what it holds.
abbrev pub test_and_set : Bool → Bool × Bool
test_and_set flag = (flag, true)

-- One step of one thread: a round of the loop in `lock`, or a call on the guard. From `idle` a guard
-- is constructed; at its end the thread is `idle` again.
pub data Move (flag : Bool) : Pc → Bool → Pc → Type 0 where
  construct_guard : Move flag idle flag spinning
  round_again : (test_and_set flag).0 ≡ true → Move flag spinning (test_and_set flag).1 spinning
  round_last : (test_and_set flag).0 ≡ false → Move flag spinning (test_and_set flag).1 locked
  lock_held : Move flag locked flag locked
  lock_again : Move flag unlocked flag spinning
  unlock_held : Move flag locked false unlocked
  unlock_again : Move flag unlocked flag unlocked
  destroy_held : Move flag locked false idle
  destroy_free : Move flag unlocked flag idle

pub record System : Type 0 where
  pub flag : Bool
  pub pc : ℕ → Pc

abbrev pub move_to : (ℕ → Pc) → ℕ → Pc → ℕ → Pc
move_to pc i p j = if j == i then p else pc j

pub data Step (s : System) : System → Type 0 where
  pick :
      (i : ℕ) {flag : Bool} {p : Pc}
      → Move s.flag (s.pc i) flag p
      → Step s (record { flag = flag; pc = move_to s.pc i p })

abbrev pub init : System
init = record { flag = false; pc = λ i. idle }

pub data Reach : System → Type 0 where
  start : Reach init
  later : {s t : System} → Reach s → Step s t → Reach t
