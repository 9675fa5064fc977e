-- ===== src/SkipList/Grow.antt =====
-- The chain with one more node in it (src/memtable/skiplist.h, `Insert`).
use smallkv.Base.{
  ℕ, ◌≤◌, ◌<◌, ◌≡◌, ◌≢◌, refl, sym, ◌∙◌, ◌⊎◌, inl, inr, some, List, [], ◌∷◌, ◌++◌, All, ltb,
  if◌then◌else◌, arith, Option-cases, lt→ltb, nlt→ltb,
}
use smallkv.SkipList.{Ptr, SkipList, head}
use smallkv.SkipList.Chain.{
  first_tall, last_tall, Chain, Tower, Chain-Tower, All-append, All-map, first_tall-append,
  first_tall-append_some, last_tall-none,
}
use smallkv.SkipList.Towers.{Apart, last_tall-ne, last_tall-Apart, first_tall_same}
use native.Mathlib.Decide.{dec_lt}

-- `l'` is `l` with the node `n`, of `height` levels, put between `pre` and `post`.
pub record Grown (l l' : SkipList) (n height : ℕ) (pre post : List Ptr) : Type 0 where
  pub old_node : (q : Ptr) → q ≢ n → l'.node q ≡ l.node q
  pub new_level : (l'.node n).level ≡ height
  pub new_cell : (j : ℕ) → j < height → l'.next n j ≡ first_tall l.node j post
  pub before :
      (q : Ptr) (j : ℕ)
      → j < height
      → q ≢ n
      → last_tall l.node j head pre ≡ q
      → l'.next q j ≡ some n
  pub beside :
      (q : Ptr) (j : ℕ)
      → q ≢ n
      → (height ≤ j) ⊎ (last_tall l.node j head pre ≢ q)
      → l'.next q j ≡ l.next q j

module _ (l l' : SkipList) (n height : ℕ) (pre post : List Ptr)
    (g : Grown l l' n height pre post) where
  same_tall :
      (j : ℕ) (qs : List Ptr)
      → All (λ r. r ≢ n) qs
      → first_tall l'.node j qs ≡ first_tall l.node j qs
  same_tall j qs a =
      first_tall_same l.node l'.node j qs
        (All-map (λ r. r ≢ n) (λ r. l'.node r ≡ l.node r) g.old_node qs a)

  -- Behind the place nothing changes.
  Chain-behind :
      (p : Ptr) (qs : List Ptr)
      → All (λ r. r ≢ n) (p ∷ qs)
      → All (λ r. (j : ℕ) → r ≢ last_tall l.node j head pre) (p ∷ qs)
      → Chain l p qs
      → Chain l' p qs
  Chain-behind p [] a b c = λ j h.
      g.beside p j a.0 (inr (λ e. b.0 j (sym e)))
      ∙ c j (rw (g.old_node p a.0) at h)
      ∙ sym (same_tall j [] tt)
  Chain-behind p (q ∷ qs) a b c = (
    (λ j h.
        g.beside p j a.0 (inr (λ e. b.0 j (sym e)))
        ∙ c.0 j (rw (g.old_node p a.0) at h)
        ∙ sym (same_tall j (q ∷ qs) a.1)),
    Chain-behind q qs a.1 b.1 c.1,
  )

  Chain-new :
      (qs : List Ptr) (p : Ptr)
      → post ≡ qs
      → All (λ r. r ≢ n) qs
      → All (λ r. (j : ℕ) → r ≢ last_tall l.node j head pre) qs
      → Chain l p qs
      → Chain l' n qs
  Chain-new [] p e a b c = λ j h. ground (arith, g.new_level, g.new_cell j, e, same_tall j [] tt)
  Chain-new (q ∷ qs) p e a b c = (
    (λ j h. ground (arith, g.new_level, g.new_cell j, e, same_tall j (q ∷ qs) a)),
    Chain-behind q qs a b c.1,
  )

  Tower-before :
      (p : Ptr) (c : ℕ → Ptr) (qs : List Ptr)
      → p ≢ n
      → All (λ r. r ≢ n) qs
      → All (λ r. r ≢ p) qs
      → All (λ r. r ≢ n) post
      → ((j : ℕ) → j < (l.node p).level → c j ≡ p)
      → ((j : ℕ) → last_tall l.node j head pre ≡ last_tall l.node j (c j) qs)
      → Tower l p (qs ++ post)
      → Tower l' p (qs ++ n ∷ post)
  unfolding first_tall
  Tower-before p c qs ne a d a' at last t j h =
      let low : j < (l.node p).level = rw (g.old_node p ne) at h in
      elim (Option-cases (first_tall l.node j qs)) [
        | inr (q, e) ↦
            g.beside p j ne (inr (rw (last j) (last_tall-ne l.node j p (c j) q qs d e)))
            ∙ t j low
            ∙ first_tall-append_some l.node j qs post q e
            ∙ sym (first_tall-append_some l'.node j qs (n ∷ post) q (same_tall j qs a ∙ e))
        | inl e ↦
            let here : last_tall l.node j head pre ≡ p =
              last j ∙ last_tall-none l.node j (c j) qs e ∙ at j low in
            let rest = first_tall-append l'.node j qs (n ∷ post) (same_tall j qs a ∙ e) in
            elim (dec_lt j height) [
              | yes k ↦ ground (arith, g.before p j k ne here, rest, g.new_level)
              | no k ↦ ground (
                arith,
                g.beside p j ne (inl (omega arith)),
                rest,
                g.new_level,
                t j low,
                first_tall-append l.node j qs post e,
                same_tall j post a',
              )
            ]
      ]

  Chain-before :
      (p : Ptr) (c : ℕ → Ptr) (qs : List Ptr)
      → p ≢ n
      → All (λ r. r ≢ n) qs
      → Apart (p ∷ qs)
      → All (λ r. r ≢ n) post
      → All (λ r. (j : ℕ) → r ≢ last_tall l.node j head pre) post
      → ((j : ℕ) → j < (l.node p).level → c j ≡ p)
      → ((j : ℕ) → last_tall l.node j head pre ≡ last_tall l.node j (c j) qs)
      → Chain l p (qs ++ post)
      → Chain l' p (qs ++ n ∷ post)
  unfolding last_tall
  Chain-before p c [] ne a d a' b at last ch = (
    Tower-before p c [] ne tt tt a' at last (Chain-Tower l p post ch),
    Chain-new post p refl a' b ch,
  )
  Chain-before p c (q ∷ qs) ne a d a' b at last ch = (
    Tower-before p c (q ∷ qs) ne a d.0 a' at last ch.0,
    Chain-before q (λ j. if ltb j (l.node q).level then q else c j) qs a.0 a.1 d.1 a' b
        (λ j h. ground arith) (λ j. last j ∙ step j (dec_lt j (l.node q).level)) ch.1,
  )
    where
      step :
          (j : ℕ)
          → Dec (j < (l.node q).level)
          → last_tall l.node j (c j) (q ∷ qs)
            ≡ last_tall l.node j (if ltb j (l.node q).level then q else c j) qs
      step j (yes h) = rw (lt→ltb j _ h)
      step j (no h) = rw (nlt→ltb j _ h)

  -- The whole chain, with the new node in its place.
  pub Chain-grown :
      Apart (head ∷ (pre ++ post))
      → All (λ r. r ≢ n) (head ∷ (pre ++ post))
      → Chain l head (pre ++ post)
      → Chain l' head (pre ++ n ∷ post)
  Chain-grown d a ch =
      let a' = All-append (λ r. r ≢ n) pre post a.1 in
      let heads = All-append (λ r. r ≢ head) pre post d.0 in
      let apart = Apart-first pre d.0 d.1 in
      Chain-before head (λ j. head) pre a.0 a'.0 apart a'.1 (cross heads.1) (λ j h. refl)
        (λ j. refl) ch
    where
      Apart-take : (xs : List Ptr) → Apart (xs ++ post) → Apart xs
      Apart-take [] k = tt
      Apart-take (x ∷ xs) k = ((All-append _ xs post k.0).0, Apart-take xs k.1)

      Apart-first :
          (xs : List Ptr)
          → All (λ r. r ≢ head) (xs ++ post)
          → Apart (xs ++ post)
          → Apart (head ∷ xs)
      Apart-first xs b k = ((All-append _ xs post b).0, Apart-take xs k)

      cross_at :
          (qs : List Ptr)
          → ((j : ℕ) → All (λ r. r ≢ last_tall l.node j head pre) qs)
          → All (λ r. (j : ℕ) → r ≢ last_tall l.node j head pre) qs
      cross_at [] f = tt
      cross_at (x ∷ xs) f = ((λ j. (f j).0), cross_at xs (λ j. (f j).1))

      cross : All (λ r. r ≢ head) post → All (λ r. (j : ℕ) → r ≢ last_tall l.node j head pre) post
      cross b = cross_at post (λ j. last_tall-Apart l.node j head pre post b d.1)
