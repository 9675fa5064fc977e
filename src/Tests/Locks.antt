-- ===== src/Tests/Locks.antt =====
-- The locks (src/utils/lock.h) at concrete inputs.
use smallkv.Base.{ℕ, ◌≡◌, refl, true, [], ◌∷◌}
use smallkv.Lock.{
  lock, unlock, construct, calls, destroy, spinning, locked, System, Reach, start, later, init,
  move_to, pick, construct_guard, round_last,
}
use smallkv.Lock.Guard.{record_lock, record_unlock, alternate, destroy-alternate}
use smallkv.Lock.Spin.{Steps, mutual_exclusion, spinning-enters}

destroy-alternate_example :
    (n : ℕ) × (destroy record_lock record_unlock (
        calls record_lock record_unlock
          (construct record_lock record_unlock [])
          (lock ∷ unlock ∷ unlock ∷ lock ∷ []))
      ≡ alternate n)
destroy-alternate_example = destroy-alternate (lock ∷ unlock ∷ unlock ∷ lock ∷ [])

-- The first thread holds the lock, and the second waits.
abbrev asked : System
asked = record init { pc = move_to init.pc 0 spinning }

abbrev taken : System
taken = record { flag = true; pc = move_to asked.pc 0 locked }

abbrev contended : System
contended = record taken { pc = move_to taken.pc 1 spinning }

contended-Reach : Reach contended
contended-Reach =
    later (later (later start (pick 0 construct_guard)) (pick 0 (round_last refl)))
      (pick 1 construct_guard)

mutual_exclusion_example : ◌≡◌ {A = ℕ} 0 0
mutual_exclusion_example = mutual_exclusion contended 0 0 contended-Reach refl refl

spinning-enters_example : (t : System) × Steps contended t × (t.pc 1 ≡ locked)
spinning-enters_example = spinning-enters contended 1 contended-Reach refl
