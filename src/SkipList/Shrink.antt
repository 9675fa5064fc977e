-- ===== src/SkipList/Shrink.antt =====
-- The loop of `Delete` that takes the node out, and the chain without it (src/memtable/skiplist.h).
use smallkv.Base.{
  ℕ, zero, suc, ◌+◌, ◌≤◌, ◌<◌, ◌≡◌, ◌≢◌, refl, sym, ◌∙◌, ◌⊎◌, inl, inr, some, List, [], ◌∷◌, ◌++◌,
  All, ltb, ◌==◌, if◌then◌else◌, arith, Option-cases, lt→ltb, nlt→ltb,
}
use smallkv.SkipList.{Ptr, SkipList, Cells, Prev, head, set_cell, next_at, unlink_at, unlink_loop}
use smallkv.SkipList.Chain.{
  first_tall, last_tall, Chain, Tower, All-append, first_tall-append, first_tall-append_some,
  last_tall-none,
}
use smallkv.SkipList.Towers.{Apart, last_tall-ne, last_tall-Apart}
use native.Mathlib.Decide.{dec_lt, ℕ_discrete}

-- Level `j` can be taken out: `prev[j]` is `p`, and `p->next[j]` is the target `t`.
pub record CanUnlink (l : SkipList) (t : Ptr) (prev : Prev) (place : ℕ → Ptr) (j : ℕ) : Type 0 where
  pub found : prev j ≡ some (place j)
  pub room : j < (l.node (place j)).level
  pub room_target : j < (l.node t).level
  pub points : l.next (place j) j ≡ some t
  pub other : place j ≢ t

module _ (t : Ptr) (prev : Prev) (place : ℕ → Ptr) where
  unlink_at-cells :
      (l : SkipList) (i : ℕ)
      → CanUnlink l t prev place i
      → unlink_at l prev i ≡ some (record l { next = set_cell l.next (place i) i (l.next t i) })
  unfolding unlink_at next_at
  unlink_at-cells l i c = ground (arith, c.found, c.room, c.room_target, c.points)

  -- `k` rounds from `i` on: the loop ends without a fault, and exactly those levels skip the target.
  pub unlink_loop-cells :
      (k : ℕ) (l : SkipList) (i : ℕ)
      → ((j : ℕ) → i ≤ j → j < i + k → CanUnlink l t prev place j)
      → (nx : Cells) × (unlink_loop k l prev i ≡ some (record l { next = nx }))
        × ((q : Ptr) (j : ℕ)
            → i ≤ j
            → j < i + k
            → nx q j ≡ (if q == place j then l.next t j else l.next q j))
        × ((q : Ptr) (j : ℕ) → (j < i) ⊎ (i + k ≤ j) → nx q j ≡ l.next q j)
  unfolding unlink_loop
  unlink_loop-cells zero l i can = (l.next, refl, (λ q j h k. absurd (omega arith)), λ q j h. refl)
  unlink_loop-cells (suc k) l i can =
      let now = can i (omega arith) (omega arith) in
      let run = unlink_at-cells l i now in
      let l' = record l { next = set_cell l.next (place i) i (l.next t i) } in
      let (nx', run', inside, outside) = unlink_loop-cells k l' (suc i) (λ j h m.
        let c = can j (omega arith) (omega arith) in
        record {
          found = c.found;
          room = c.room;
          room_target = c.room_target;
          points = ground (arith, c.points);
          other = c.other;
        }) in
      (
        nx',
        ground (arith, run, run'),
        (λ q j h m. elim (ℕ_discrete j i) [
          | yes e ↦ ground (arith, e, outside q j, now.other)
          | no e ↦ ground (arith, e, inside q j)
        ]),
        λ q j h. ground (arith, h, outside q j),
      )

-- `l'` is `l` with the node `t`, between `pre` and `rest`, taken out.
pub record Shrunk (l l' : SkipList) (t : Ptr) (pre rest : List Ptr) : Type 0 where
  pub nodes : (q : Ptr) → l'.node q ≡ l.node q
  pub before :
      (q : Ptr) (j : ℕ)
      → j < (l.node t).level
      → last_tall l.node j head pre ≡ q
      → l'.next q j ≡ first_tall l.node j rest
  pub beside :
      (q : Ptr) (j : ℕ)
      → ((l.node t).level ≤ j) ⊎ (last_tall l.node j head pre ≢ q)
      → l'.next q j ≡ l.next q j

module _ (l l' : SkipList) (t : Ptr) (pre rest : List Ptr) (g : Shrunk l l' t pre rest) where
  same_tall : (j : ℕ) (qs : List Ptr) → first_tall l'.node j qs ≡ first_tall l.node j qs
  unfolding first_tall
  same_tall j [] = refl
  same_tall j (q ∷ qs) = ground (arith, g.nodes q, same_tall j qs)

  Chain-behind :
      (p : Ptr) (qs : List Ptr)
      → All (λ r. (j : ℕ) → r ≢ last_tall l.node j head pre) (p ∷ qs)
      → Chain l p qs
      → Chain l' p qs
  Chain-behind p [] b c = λ j h.
      g.beside p j (inr (λ e. b.0 j (sym e))) ∙ c j (rw (g.nodes p) at h) ∙ sym (same_tall j [])
  Chain-behind p (q ∷ qs) b c = (
    (λ j h.
        g.beside p j (inr (λ e. b.0 j (sym e)))
        ∙ c.0 j (rw (g.nodes p) at h)
        ∙ sym (same_tall j (q ∷ qs))),
    Chain-behind q qs b.1 c.1,
  )

  Tower-before :
      (p : Ptr) (c : ℕ → Ptr) (qs : List Ptr)
      → All (λ r. r ≢ p) qs
      → ((j : ℕ) → j < (l.node p).level → c j ≡ p)
      → ((j : ℕ) → last_tall l.node j head pre ≡ last_tall l.node j (c j) qs)
      → Tower l p (qs ++ t ∷ rest)
      → Tower l' p (qs ++ rest)
  unfolding first_tall
  Tower-before p c qs d here last w j h =
      let low : j < (l.node p).level = rw (g.nodes p) at h in
      elim (Option-cases (first_tall l.node j qs)) [
        | inr (q, e) ↦
            g.beside p j (inr (rw (last j) (last_tall-ne l.node j p (c j) q qs d e)))
            ∙ w j low
            ∙ first_tall-append_some l.node j qs (t ∷ rest) q e
            ∙ sym (first_tall-append_some l'.node j qs rest q (same_tall j qs ∙ e))
        | inl e ↦
            let at_p : last_tall l.node j head pre ≡ p =
              last j ∙ last_tall-none l.node j (c j) qs e ∙ here j low in
            let after = first_tall-append l'.node j qs rest (same_tall j qs ∙ e) in
            elim (dec_lt j (l.node t).level) [
              | yes k ↦ ground (arith, g.before p j k at_p, after, same_tall j rest)
              | no k ↦ ground (
                arith,
                g.beside p j (inl (omega arith)),
                after,
                same_tall j rest,
                w j low,
                first_tall-append l.node j qs (t ∷ rest) e,
              )
            ]
      ]

  Chain-target :
      (qs : List Ptr) (p : Ptr)
      → rest ≡ qs
      → Tower l' p qs
      → All (λ r. (j : ℕ) → r ≢ last_tall l.node j head pre) qs
      → Chain l t qs
      → Chain l' p qs
  Chain-target [] p e w b c = w
  Chain-target (q ∷ qs) p e w b c = (w, Chain-behind q qs b c.1)

  Chain-before :
      (p : Ptr) (c : ℕ → Ptr) (qs : List Ptr)
      → Apart (p ∷ qs)
      → All (λ r. (j : ℕ) → r ≢ last_tall l.node j head pre) rest
      → ((j : ℕ) → j < (l.node p).level → c j ≡ p)
      → ((j : ℕ) → last_tall l.node j head pre ≡ last_tall l.node j (c j) qs)
      → Chain l p (qs ++ t ∷ rest)
      → Chain l' p (qs ++ rest)
  unfolding last_tall
  Chain-before p c [] d b here last ch =
      Chain-target rest p refl (Tower-before p c [] tt here last ch.0) b ch.1
  Chain-before p c (q ∷ qs) d b here last ch = (
    Tower-before p c (q ∷ qs) d.0 here last ch.0,
    Chain-before q (λ j. if ltb j (l.node q).level then q else c j) qs d.1 b (λ j h. ground arith)
        (λ j. last j ∙ step j (dec_lt j (l.node q).level)) ch.1,
  )
    where
      step :
          (j : ℕ)
          → Dec (j < (l.node q).level)
          → last_tall l.node j (c j) (q ∷ qs)
            ≡ last_tall l.node j (if ltb j (l.node q).level then q else c j) qs
      step j (yes h) = rw (lt→ltb j _ h)
      step j (no h) = rw (nlt→ltb j _ h)

  -- The whole chain, without the target.
  pub Chain-shrunk :
      Apart (head ∷ (pre ++ t ∷ rest))
      → Chain l head (pre ++ t ∷ rest)
      → Chain l' head (pre ++ rest)
  Chain-shrunk d ch =
      Chain-before head (λ j. head) pre (front pre d.0 d.1)
        (cross rest (λ j.
          (last_tall-Apart l.node j head pre (t ∷ rest)
            (All-append (λ r. r ≢ head) pre (t ∷ rest) d.0).1 d.1).1))
        (λ j h. refl) (λ j. refl) ch
    where
      take_Apart : (xs : List Ptr) → Apart (xs ++ t ∷ rest) → Apart xs
      take_Apart [] k = tt
      take_Apart (x ∷ xs) k = ((All-append _ xs (t ∷ rest) k.0).0, take_Apart xs k.1)

      front :
          (xs : List Ptr)
          → All (λ r. r ≢ head) (xs ++ t ∷ rest)
          → Apart (xs ++ t ∷ rest)
          → Apart (head ∷ xs)
      front xs b k = ((All-append _ xs (t ∷ rest) b).0, take_Apart xs k)

      cross :
          (qs : List Ptr)
          → ((j : ℕ) → All (λ r. r ≢ last_tall l.node j head pre) qs)
          → All (λ r. (j : ℕ) → r ≢ last_tall l.node j head pre) qs
      cross [] f = tt
      cross (x ∷ xs) f = ((λ j. (f j).0), cross xs (λ j. (f j).1))
