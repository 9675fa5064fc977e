-- ===== src/SkipList/Iterator.antt =====
-- The iterator of the skip list (src/memtable/skiplist.h), which a table is written with: from the
-- head on, along the lowest level, up to a null pointer.
use smallkv.Base.{
  ℕ, zero, suc, ◌<◌, ◌≡◌, refl, ap, ◌∙◌, Bool, Option, none, some, List, [], ◌∷◌, length, All,
  arith, is_some, if◌then◌else◌,
}
use smallkv.Base.Maybe.{◌>>=◌}
use smallkv.Base.Bytes.{Bytes}
use smallkv.SkipList.{Ptr, SkipList, head, next_at}
use smallkv.SkipList.Chain.{Chain, Fits, Represents, Entries, entries, first_tall}
use smallkv.SkipList.Search.{next_at_lem}

-- `node` is where the iterator stands.
pub record SkipListIterator : Type 0 where
  pub list : SkipList
  pub node : Option Ptr

unfoldable pub new_iterator : SkipList → SkipListIterator
new_iterator l = record { list = l; node = none }

unfoldable pub move_to_first : SkipListIterator → Option SkipListIterator
move_to_first it = next_at it.list head 0 >>= λ q. some (record it { node = q })

unfoldable pub valid : SkipListIterator → Bool
valid it = is_some it.node

-- `none` where the assertion of `Valid` fails.
unfoldable pub next : SkipListIterator → Option SkipListIterator
next it = it.node >>= λ p. next_at it.list p 0 >>= λ q. some (record it { node = q })

unfoldable pub key : SkipListIterator → Option Bytes
key it = it.node >>= λ p. some (it.list.node p).key

unfoldable pub value : SkipListIterator → Option Bytes
value it = it.node >>= λ p. some (it.list.node p).value

-- The loop `while (Valid()) { add(key(), value()); Next(); }`, for any state that `add` changes.
-- There are as many rounds as pairs.
module _ {S : Type 0} (add : S → Bytes → Bytes → Option S) where
  unfoldable pub each_loop : ℕ → SkipListIterator → S → Option S
  each_loop zero it s = if valid it then none else some s
  each_loop (suc fuel) it s =
      let rest : S → Option S = λ s'. next it >>= λ it'. each_loop fuel it' s' in
      let round : Option S = key it >>= λ k. value it >>= λ v. add s k v >>= rest in
      if valid it then round else some s

  unfoldable pub each : SkipList → S → Option S
  unfolding each_loop
  each l s = move_to_first (new_iterator l) >>= λ it. each_loop l.size it s

  -- The same over the pairs.
  unfoldable pub each_entry : Entries → S → Option S
  each_entry [] s = some s
  each_entry ((k, v) ∷ m) s = add s k v >>= each_entry m

  bind_same : (o : Option S) (f g : S → Option S) → ((s : S) → f s ≡ g s) → o >>= f ≡ o >>= g
  bind_same none f g h = refl
  bind_same (some s) f g h = h s

  first_lowest :
      (l : SkipList) (qs : List Ptr)
      → All (Fits l) qs
      → first_tall l.node 0 qs ≡ elim qs [ [] ↦ none | q ∷ rs ↦ some q ]
  unfolding first_tall
  first_lowest l [] f = refl
  first_lowest l (q ∷ qs) f = ground (arith, f.0.2)

  -- From a node on, the loop does what is left of the pairs.
  each_loop-entries :
      (l : SkipList) (p : Ptr) (qs : List Ptr) (s : S)
      → Chain l p qs
      → 0 < (l.node p).level
      → All (Fits l) qs
      → (next_at l p 0 >>= λ q. some (record { list = l; node = q }))
          >>= (λ it. each_loop (length qs) it s)
        ≡ each_entry (entries l.node qs) s
  unfolding each_loop each_entry entries valid key value next
  each_loop-entries l p [] s c t f = rw (next_at_lem l p 0 [] c t, first_lowest l [] f, ◌>>=◌) refl
  each_loop-entries l p (q ∷ qs) s c t f =
      rw (next_at_lem l p 0 (q ∷ qs) c t, first_lowest l (q ∷ qs) f, ◌>>=◌)
        (bind_same (add s (l.node q).key (l.node q).value) _ _
          (λ s'. each_loop-entries l q qs s' c.1 (omega (arith, f.0.2)) f.1))

  -- On a well-formed list the loop over the iterator adds the pairs in the order of their keys,
  -- each once, and ends where the adding does.
  pub each-entries :
      (l : SkipList) (qs : List Ptr) (s : S)
      → Represents l qs
      → each l s ≡ each_entry (entries l.node qs) s
  unfolding each move_to_first new_iterator
  each-entries l qs s r =
      ap
        (λ n.
          (next_at l head 0 >>= λ q. some (record { list = l; node = q }))
          >>= (λ it. each_loop n it s))
        r.size
      ∙ each_loop-entries l head qs s r.chain (omega (arith, r.tall_head)) r.fits
