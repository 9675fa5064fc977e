-- ===== src/SkipList/Towers.antt =====
-- Which cells stand before a place in a skip list (src/memtable/skiplist.h): facts on the last tall
-- node, and that the nodes are pairwise different.
use smallkv.Base.{
  ℕ, ◌≤◌, ◌<◌, ◌≡◌, ◌≢◌, refl, ap, none, some, List, [], ◌∷◌, ◌++◌, All, arith, lt→ltb, nlt→ltb,
}
use smallkv.Base.Bytes.{compare_bytes, compare_bytes_self}
use smallkv.SkipList.{Ptr, Node, SkipList, head}
use smallkv.SkipList.Chain.{
  first_tall, last_tall, Chain, Chain-Tower, Ordered, Above, Fits, All-append, All-map, Represents,
}
use native.Mathlib.Decide.{dec_lt}

-- The pointers are pairwise different.
abbrev pub Apart : List Ptr → Type 0
Apart [] = Unit
Apart (q ∷ qs) = All (λ r. r ≢ q) qs × Apart qs

module _ (l : SkipList) where
  Above-ne : (q : Ptr) (qs : List Ptr) → All (Above l (l.node q).key) qs → All (λ r. r ≢ q) qs
  Above-ne q qs =
      All-map _ _
        (λ r a e. cc (
          compare_bytes_self (l.node q).key,
          ap (λ t. compare_bytes (l.node q).key (l.node t).key) e,
          a,
        ))
        qs

  pub Ordered-Apart : (qs : List Ptr) → Ordered l qs → Apart qs
  Ordered-Apart [] o = tt
  Ordered-Apart (q ∷ qs) o = (Above-ne q qs o.0, Ordered-Apart qs o.1)

  -- The head is none of the nodes either.
  pub Represents-Apart : (qs : List Ptr) → Represents l qs → Apart (head ∷ qs)
  Represents-Apart qs r =
      (All-map (Fits l) _ (λ q f e. omega (arith, f.0)) qs r.fits, Ordered-Apart qs r.ordered)

  -- The cell of the last tall node before a place points to the first tall node behind it.
  pub last_cell :
      (j : ℕ) (c p : Ptr) (pre post : List Ptr)
      → Chain l p (pre ++ post)
      → l.next c j ≡ first_tall l.node j (pre ++ post)
      → j < (l.node c).level
      → (l.next (last_tall l.node j c pre) j ≡ first_tall l.node j post)
        × (j < (l.node (last_tall l.node j c pre)).level)
  unfolding last_tall first_tall
  last_cell j c p [] post ch e h = (e, h)
  last_cell j c p (x ∷ pre) post ch e h = elim (dec_lt j (l.node x).level) [
    | yes t ↦
        ground (arith, t, last_cell j x x pre post ch.1 (Chain-Tower l x (pre ++ post) ch.1 j t) t)
    | no t ↦ ground (arith, t, last_cell j c x pre post ch.1 (ground (arith, t, e)) h)
  ]

module _ (nd : Ptr → Node) where
  pub last_tall-All {κ} :
      (P : Ptr → Type κ) (j : ℕ) (c : Ptr) (qs : List Ptr)
      → P c
      → All P qs
      → P (last_tall nd j c qs)
  unfolding last_tall
  last_tall-All P j c [] p a = p
  last_tall-All P j c (x ∷ qs) p a = elim (dec_lt j (nd x).level) [
    | yes t ↦ rw (lt→ltb j _ t) (last_tall-All P j x qs a.0 a.1)
    | no t ↦ rw (nlt→ltb j _ t) (last_tall-All P j c qs p a.1)
  ]

  -- Where a tall node follows, the last one is another.
  pub last_tall-ne :
      (j : ℕ) (p c q : Ptr) (qs : List Ptr)
      → All (λ r. r ≢ p) qs
      → first_tall nd j qs ≡ some q
      → last_tall nd j c qs ≢ p
  unfolding last_tall first_tall
  last_tall-ne j p c q [] a e = cc
  last_tall-ne j p c q (x ∷ qs) a e = elim (dec_lt j (nd x).level) [
    | yes t ↦ rw (lt→ltb j _ t) (last_tall-All (λ r. r ≢ p) j x qs a.0 a.1)
    | no t ↦ rw (nlt→ltb j _ t) (last_tall-ne j p c q qs a.1 (rw (nlt→ltb j _ t) at e))
  ]

  -- The last tall node before a place is none of those behind it.
  pub last_tall-Apart :
      (j : ℕ) (c : Ptr) (pre post : List Ptr)
      → All (λ r. r ≢ c) post
      → Apart (pre ++ post)
      → All (λ r. r ≢ last_tall nd j c pre) post
  unfolding last_tall
  last_tall-Apart j c [] post a d = a
  last_tall-Apart j c (x ∷ pre) post a d = elim (dec_lt j (nd x).level) [
    | yes t ↦
        rw (lt→ltb j _ t)
          (last_tall-Apart j x pre post (All-append (λ r. r ≢ x) pre post d.0).1 d.1)
    | no t ↦ rw (nlt→ltb j _ t) (last_tall-Apart j c pre post a d.1)
  ]

  -- No node is as tall as that.
  pub first_tall_high :
      (j : ℕ) (qs : List Ptr) → All (λ q. (nd q).level ≤ j) qs → first_tall nd j qs ≡ none
  unfolding first_tall
  first_tall_high j [] a = refl
  first_tall_high j (q ∷ qs) a = ground (arith, first_tall_high j qs a.1)

module _ (nd nd' : Ptr → Node) where
  pub first_tall_same :
      (j : ℕ) (qs : List Ptr)
      → All (λ q. nd' q ≡ nd q) qs
      → first_tall nd' j qs ≡ first_tall nd j qs
  unfolding first_tall
  first_tall_same j [] a = refl
  first_tall_same j (q ∷ qs) a = ground (arith, first_tall_same j qs a.1)
