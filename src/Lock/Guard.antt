-- ===== src/Lock/Guard.antt =====
-- What a guard (`ScopedLock` of src/utils/lock.h) calls on its lock.
use smallkv.Base.{
  ℕ, zero, suc, ◌≡◌, refl, ap, ◌∙◌, Bool, true, false, List, [], ◌∷◌, ◌++◌, if◌then◌else◌,
  append_assoc,
}
use smallkv.Lock.{ScopedLock, Call, lock, unlock, construct, call, calls, destroy}

-- A lock that keeps the calls it gets.
abbrev pub record_lock : List Call → List Call
record_lock l = l ++ lock ∷ []

abbrev pub record_unlock : List Call → List Call
record_unlock l = l ++ unlock ∷ []

-- `lock`, `unlock` and so on, so many times.
abbrev pub alternate : ℕ → List Call
alternate zero = []
alternate (suc n) = lock ∷ unlock ∷ alternate n

alternate-more : (n : ℕ) → alternate n ++ (lock ∷ unlock ∷ []) ≡ alternate (suc n)
alternate-more zero = refl
alternate-more (suc n) = ap (λ l. lock ∷ unlock ∷ l) (alternate-more n)

-- The calls so far: all of them in pairs, with one `lock` more in a locked guard.
abbrev Balanced : ScopedLock (List Call) → Type 0
Balanced g =
    (n : ℕ) × (g.local_lock ≡ (if g.is_locked then alternate n ++ lock ∷ [] else alternate n))

-- The lock is let go with as many calls of each kind.
release :
    (l : List Call) (n : ℕ) → l ≡ alternate n ++ lock ∷ [] → l ++ unlock ∷ [] ≡ alternate (suc n)
release l n e =
    ap record_unlock e ∙ append_assoc (alternate n) (lock ∷ []) (unlock ∷ []) ∙ alternate-more n

call-Balanced :
    (g : ScopedLock (List Call)) (c : Call)
    → Balanced g
    → Balanced (call record_lock record_unlock g c)
unfolding call
call-Balanced g c b = go g.local_lock g.is_locked c b
  where
    go :
        (l : List Call) (h : Bool) (c : Call)
        → Balanced (record { local_lock = l; is_locked = h })
        → Balanced (call record_lock record_unlock (record { local_lock = l; is_locked = h }) c)
    go l true lock b = b
    go l false lock (n, e) = (n, ap record_lock e)
    go l true unlock (n, e) = (suc n, release l n e)
    go l false unlock b = b

calls-Balanced :
    (g : ScopedLock (List Call)) (cs : List Call)
    → Balanced g
    → Balanced (calls record_lock record_unlock g cs)
unfolding calls
calls-Balanced g [] b = b
calls-Balanced g (c ∷ cs) b =
    calls-Balanced (call record_lock record_unlock g c) cs (call-Balanced g c b)

-- Whatever is called on a guard between its construction and its end, its lock gets lock and unlock
-- alternately, lock first, and as many of each.
pub destroy-alternate :
    (cs : List Call)
    → (n : ℕ) × (destroy record_lock record_unlock
          (calls record_lock record_unlock (construct record_lock record_unlock []) cs)
        ≡ alternate n)
unfolding destroy construct
destroy-alternate cs =
    let g = calls record_lock record_unlock (construct record_lock record_unlock []) cs in
    released g.local_lock g.is_locked (calls-Balanced _ cs (0, refl))
  where
    released :
        (l : List Call) (h : Bool)
        → Balanced (record { local_lock = l; is_locked = h })
        → (n : ℕ) × (destroy record_lock record_unlock (record { local_lock = l; is_locked = h })
            ≡ alternate n)
    released l true (n, e) = (suc n, release l n e)
    released l false b = b
