-- ===== src/Lock/Spin.antt =====
-- Threads over one `SpinLock` (src/utils/lock.h): who holds it.
use smallkv.Base.{
  ℕ, ◌≡◌, ◌≢◌, refl, sym, ap, ◌∙◌, Bool, true, false, Option, none, some, is_some, ◌==◌, arith, ◌⊎◌,
  inl, inr, Bool-cases,
}
use mathlib.Core.Path.{subst}
use smallkv.Lock.{
  Pc, idle, spinning, locked, unlocked, Move, System, Step, Reach, start, later, move_to, pick,
  construct_guard, round_again, round_last, lock_held, lock_again, unlock_held, unlock_again,
  destroy_held, destroy_free,
}

-- Between the end of the loop and the clearing of the flag.
abbrev pub holds : Pc → Bool
holds locked = true
holds _ = false

holds-locked : (p : Pc) → holds p ≡ true → p ≡ locked
holds-locked idle h = cc h
holds-locked spinning h = cc h
holds-locked locked h = refl
holds-locked unlocked h = cc h

apart : (i o : ℕ) → i ≢ o → (i == o) ≡ false
apart i o h = ground arith

abbrev is_owner : Option ℕ → ℕ → Bool
is_owner none j = false
is_owner (some o) j = j == o

-- The flag is set exactly while some thread holds the lock, and that thread alone holds it.
record OwnedBy (s : System) (o : Option ℕ) : Type 0 where
  set : s.flag ≡ is_some o
  owner : (j : ℕ) → holds (s.pc j) ≡ is_owner o j

-- A thread that moves, the owner being `o'` from then on.
moved :
    (s : System) (o o' : Option ℕ) (i : ℕ) (p : Pc) (flag : Bool)
    → OwnedBy s o
    → flag ≡ is_some o'
    → holds p ≡ is_owner o' i
    → ((j : ℕ) → (j == i) ≡ false → is_owner o j ≡ is_owner o' j)
    → OwnedBy (record { flag = flag; pc = move_to s.pc i p }) o'
moved s o o' i p flag r set here others = record {
  set = set;
  owner = λ j. go j (Bool-cases (j == i));
}
  where
    go :
        (j : ℕ)
        → ((j == i) ≡ true) ⊎ ((j == i) ≡ false)
        → holds (move_to s.pc i p j) ≡ is_owner o' j
    go j (inl h) = let same : j ≡ i = ground arith in rw h (here ∙ ap (is_owner o') (sym same))
    go j (inr h) = rw h (r.owner j ∙ others j h)

-- It stays in the lock, or out of it.
keep :
    (s : System) (o : Option ℕ) (i : ℕ) (p : Pc)
    → OwnedBy s o
    → holds (s.pc i) ≡ holds p
    → OwnedBy (record { flag = s.flag; pc = move_to s.pc i p }) o
keep s o i p r e = moved s o o i p s.flag r r.set (sym e ∙ r.owner i) (λ j h. refl)

-- It enters, since the flag was clear.
enter :
    (s : System) (o : Option ℕ) (i : ℕ)
    → OwnedBy s o
    → s.flag ≡ false
    → OwnedBy (record { flag = true; pc = move_to s.pc i locked }) (some i)
enter s none i r e = moved s none (some i) i locked true r refl (ground arith) (λ j h. sym h)
enter s (some o) i r e = absurd (cc (r.set, e))

-- It leaves, and clears the flag.
leave :
    (s : System) (o : Option ℕ) (i : ℕ) (p : Pc)
    → OwnedBy s o
    → holds (s.pc i) ≡ true
    → holds p ≡ false
    → OwnedBy (record { flag = false; pc = move_to s.pc i p }) none
leave s none i p r at out = absurd (cc (r.owner i, at))
leave s (some o) i p r at out =
    let mine : (i == o) ≡ true = sym (r.owner i) ∙ at in
    moved s (some o) none i p false r refl out (λ j h. ground (arith, mine, h))

Move-Owned :
    (s : System) (i : ℕ) (o : Option ℕ) {p p' : Pc} {flag : Bool}
    → Move s.flag p flag p'
    → s.pc i ≡ p
    → OwnedBy s o
    → (o' : Option ℕ) × OwnedBy (record { flag = flag; pc = move_to s.pc i p' }) o'
Move-Owned s i o construct_guard at r = (o, keep s o i spinning r (ap holds at))
Move-Owned s i o (round_again e) at r =
    (o, moved s o o i spinning true r (sym e ∙ r.set) (ap holds (sym at) ∙ r.owner i) (λ j h. refl))
Move-Owned s i o (round_last e) at r = (some i, enter s o i r e)
Move-Owned s i o lock_held at r = (o, keep s o i locked r (ap holds at))
Move-Owned s i o lock_again at r = (o, keep s o i spinning r (ap holds at))
Move-Owned s i o unlock_held at r = (none, leave s o i unlocked r (ap holds at) refl)
Move-Owned s i o unlock_again at r = (o, keep s o i unlocked r (ap holds at))
Move-Owned s i o destroy_held at r = (none, leave s o i idle r (ap holds at) refl)
Move-Owned s i o destroy_free at r = (o, keep s o i idle r (ap holds at))

Reach-Owned : (s : System) → Reach s → (o : Option ℕ) × OwnedBy s o
Reach-Owned _ start = (none, record { set = refl; owner = λ j. refl })
Reach-Owned _ (later {s} reach (pick i m)) =
    let (o, r) = Reach-Owned s reach in Move-Owned s i o m refl r

-- In every state that threads with a guard each over one spin lock reach, in any order of their
-- steps, two threads that hold the lock are the same.
pub mutual_exclusion :
    (s : System) (i j : ℕ) → Reach s → holds (s.pc i) ≡ true → holds (s.pc j) ≡ true → i ≡ j
mutual_exclusion s i j reach in_i in_j = let (o, r) = Reach-Owned s reach in go o r
  where
    go : (o : Option ℕ) → OwnedBy s o → i ≡ j
    go none r = absurd (cc (r.owner i, in_i))
    go (some o) r =
        let a : (i == o) ≡ true = sym (r.owner i) ∙ in_i in
        let b : (j == o) ≡ true = sym (r.owner j) ∙ in_j in ground arith

pub data Steps : System → System → Type 0 where
  none_more : {s : System} → Steps s s
  one_more : {s t u : System} → Step s t → Steps t u → Steps s u

-- No deadlock: from every reachable state in which a thread waits in the loop of the spin lock,
-- there are steps (the holder unlocks, if there is one, and the thread goes round) after which that
-- thread holds the lock.
pub spinning-enters :
    (s : System) (i : ℕ)
    → Reach s
    → s.pc i ≡ spinning
    → (t : System) × Steps s t × (t.pc i ≡ locked)
spinning-enters s i reach at = let (o, r) = Reach-Owned s reach in go o r
  where
    enters :
        (s : System)
        → s.flag ≡ false
        → s.pc i ≡ spinning
        → (t : System) × Step s t × (t.pc i ≡ locked)
    enters s clear at = (
      record { flag = true; pc = move_to s.pc i locked },
      pick i (subst (λ p. Move s.flag p true locked) (sym at) (round_last clear)),
      ground arith,
    )

    go : (o : Option ℕ) → OwnedBy s o → (t : System) × Steps s t × (t.pc i ≡ locked)
    go none r = let (t, step, there) = enters s r.set at in (t, one_more step none_more, there)
    go (some o) r =
        let owns : holds (s.pc o) ≡ true = r.owner o ∙ ground arith in
        let in_lock : s.pc o ≡ locked = holds-locked (s.pc o) owns in
        let freed : System = record { flag = false; pc = move_to s.pc o unlocked } in
        let release : Step s freed =
          pick o (subst (λ p. Move s.flag p false unlocked) (sym in_lock) unlock_held) in
        let other : (i == o) ≡ false = apart i o (λ e. cc (at, in_lock, ap s.pc e)) in
        let (t, step, there) = enters freed refl (rw other at) in
        (t, one_more release (one_more step none_more), there)
