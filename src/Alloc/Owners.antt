-- ===== src/Alloc/Owners.antt =====
-- Who owns each byte of memory, as the allocator (src/memory/allocate.cpp) sees it, and the free
-- lists of its slots: what a push and a pop do to them.
use smallkv.Base.{
  ℕ, ◌+◌, ◌≤◌, ◌<◌, ◌≡◌, ◌≢◌, refl, sym, ap, ◌∙◌, Bool, true, false, ◌&&◌, Option, none, some, List,
  [], ◌∷◌, All, arith, ltb, leb, ◌==◌, if◌then◌else◌,
}
use smallkv.Alloc.{FreeListAllocate, block_size, push, pop}
use mathlib.Core.Path.{subst}

-- A byte is outside, in the pool, or in a block of a slot: idle, or handed out.
pub data Owner : Type 0 where
  outside : Owner
  pool : Owner
  idle : (p slot_index : ℕ) → Owner
  used : (p slot_index : ℕ) → Owner

abbrev pub Owners : Type 0
Owners = ℕ → Owner

-- The bytes of the block at `p` have this owner.
abbrev pub Region : Owners → Owner → ℕ → ℕ → Type 0
Region o t p i = (a : ℕ) → p ≤ a → a < p + block_size i → o a ≡ t

unfoldable pub retag : Owners → Owner → ℕ → ℕ → Owners
retag o t p i a = if leb p a && ltb a (p + block_size i) then t else o a

-- The free list that starts at `first`.
abbrev pub Linked : (ℕ → Option ℕ) → Option ℕ → List ℕ → Type 0
Linked next first [] = first ≡ none
Linked next first (p ∷ ps) = (first ≡ some p) × Linked next (next p) ps

abbrev pub Distinct : List ℕ → Type 0
Distinct [] = Unit
Distinct (p ∷ ps) = All (λ q. q ≢ p) ps × Distinct ps

abbrev pub set_free : (ℕ → List ℕ) → ℕ → List ℕ → ℕ → List ℕ
set_free free i ps j = if j == i then ps else free j

-- The free lists and the pool, from `start` on, hold what the owners say.
pub record Owned {Heap : Type 0} (s : FreeListAllocate Heap) (start size : ℕ) (free : ℕ → List ℕ)
    (o : Owners) : Type 0 where
  pub linked : (i : ℕ) → Linked s.next (s.memory_slot i) (free i)
  pub free_blocks : (i : ℕ) → All (λ p. Region o (idle p i) p i) (free i)
  pub distinct : (i : ℕ) → Distinct (free i)
  pub pooled : (a : ℕ) → start ≤ a → a < start + size → o a ≡ pool

-- Inside a block the owner is the new one, and elsewhere the old one.
pub retag_in :
    (o : Owners) (t : Owner) (p i a : ℕ) → p ≤ a → a < p + block_size i → retag o t p i a ≡ t
unfolding retag
retag_in o t p i a h k = ground arith

pub retag_out :
    (o : Owners) (t u : Owner) (p i a : ℕ) → Region o t p i → o a ≢ t → retag o u p i a ≡ o a
unfolding retag
retag_out o t u p i a r h = ground (arith, r a)

-- A block of another owner keeps its bytes.
Region-retag :
    (o : Owners) (t u v : Owner) (p i q j : ℕ)
    → Region o t p i
    → Region o v q j
    → v ≢ t
    → Region (retag o u p i) v q j
Region-retag o t u v p i q j r s h a k l =
    retag_out o t u p i a r (λ e. h (sym (s a k l) ∙ e)) ∙ s a k l

All-Region-retag :
    (o : Owners) (t u : Owner) (p i j : ℕ) (ps : List ℕ)
    → Region o t p i
    → All (λ q. Region o (idle q j) q j) ps
    → All (λ q. idle q j ≢ t) ps
    → All (λ q. Region (retag o u p i) (idle q j) q j) ps
All-Region-retag o t u p i j [] r a d = tt
All-Region-retag o t u p i j (q ∷ ps) r a d =
    (Region-retag o t u (idle q j) p i q j r a.0 d.0, All-Region-retag o t u p i j ps r a.1 d.1)

-- A free list does not see a write to a cell of no block of it.
pub Linked-frame :
    (next : ℕ → Option ℕ) (v : Option ℕ) (node : ℕ) (first : Option ℕ) (ps : List ℕ)
    → Linked next first ps
    → All (λ q. q ≢ node) ps
    → Linked (λ p. if p == node then v else next p) first ps
Linked-frame next v node first [] l a = l
Linked-frame next v node first (p ∷ ps) l a =
    let same : (if p == node then v else next p) ≡ next p = ground (arith, a.0) in
    (
      l.0,
      subst (λ f. Linked (λ p. if p == node then v else next p) f ps) (sym same)
          (Linked-frame next v node (next p) ps l.1 a.1),
    )

-- The owner of the first byte of a block tells the blocks of a list from a node.
other_node :
    (o : Owners) (t : Owner) (node j : ℕ) (ps : List ℕ)
    → o node ≡ t
    → ((q : ℕ) → t ≢ idle q j)
    → All (λ q. Region o (idle q j) q j) ps
    → All (λ q. q ≢ node) ps
other_node o t node j [] e h a = tt
other_node o t node j (q ∷ ps) e h a = (
  (λ same. h q (sym e ∙ ap o (sym same) ∙ a.0 q (omega arith) (omega arith))),
  other_node o t node j ps e h a.1,
)

-- A goal about the slot `j` after a change of the slot `i`.
at_slot :
    (P : ℕ → List ℕ → Type 0) (free : ℕ → List ℕ) (i : ℕ) (ps : List ℕ) (j : ℕ)
    → P i ps
    → (j ≢ i → P j (free j))
    → P j (set_free free i ps j)
at_slot P free i ps j new old = go (j == i) refl
  where
    go : (b : Bool) → (j == i) ≡ b → P j (if b then ps else free j)
    go true e = let same : i ≡ j = ground arith in subst (λ k. P k ps) same new
    go false e = old (λ same. absurd (ground arith))

self_slot {ℓ} : {A : Type ℓ} (i : ℕ) (x y : A) → (if i == i then x else y) ≡ x
self_slot i x y = ground arith

other_slot {ℓ} : {A : Type ℓ} (i j : ℕ) (x y : A) → j ≢ i → (if j == i then x else y) ≡ y
other_slot i j x y h = ground arith

module _ {Heap : Type 0} (s : FreeListAllocate Heap) (start size : ℕ) (free : ℕ → List ℕ)
    (o : Owners) (w : Owned s start size free o) where
  -- A block that is in no free list goes to the front of one.
  pub push-Owned :
      (i node : ℕ) (t : Owner) (start' size' : ℕ)
      → Region o t node i
      → ((q j : ℕ) → t ≢ idle q j)
      → ((a : ℕ) → start' ≤ a → a < start' + size' → retag o (idle node i) node i a ≡ pool)
      → Owned
          (push s i node)
          start'
          size'
          (set_free free i (node ∷ free i))
          (retag o (idle node i) node i)
  push-Owned i node t start' size' r h k =
      let new = retag o (idle node i) node i in
      let mine : o node ≡ t = r node (omega arith) (omega arith) in
      let others = λ (j : ℕ). other_node o t node j (free j) mine (λ q. h q j) (w.free_blocks j) in
      let next = (push s i node).next in
      let slot = (push s i node).memory_slot in
      let frame = λ (j : ℕ).
        Linked-frame s.next (s.memory_slot i) node (s.memory_slot j) (free j) (w.linked j)
          (others j) in
      record {
        linked = λ j.
            at_slot (λ j ps. Linked next (slot j) ps) free i (node ∷ free i) j
              (
                self_slot i (some node) (s.memory_slot i),
                subst (λ f. Linked next f (free i))
                    (sym (self_slot node (s.memory_slot i) (s.next node))) (frame i),
              )
              (λ e.
                subst (λ f. Linked next f (free j))
                  (sym (other_slot i j (some node) (s.memory_slot j) e)) (frame j));
        free_blocks = λ j.
            at_slot (λ j ps. All (λ q. Region new (idle q j) q j) ps) free i (node ∷ free i) j
              ((λ a p q. retag_in o (idle node i) node i a p q), kept r h i) (λ e. kept r h j);
        distinct = λ j.
            at_slot (λ j ps. Distinct ps) free i (node ∷ free i) j (others i, w.distinct i)
              (λ e. w.distinct j);
        pooled = k;
      }
    where
      not_idle : (j : ℕ) (ps : List ℕ) → ((q j : ℕ) → t ≢ idle q j) → All (λ q. idle q j ≢ t) ps
      not_idle j [] h = tt
      not_idle j (q ∷ ps) h = ((λ e. h q j (sym e)), not_idle j ps h)

      kept :
          Region o t node i
          → ((q j : ℕ) → t ≢ idle q j)
          → (j : ℕ) → All (λ q. Region (retag o (idle node i) node i) (idle q j) q j) (free j)
      kept r h j =
          All-Region-retag o t (idle node i) node i j (free j) r (w.free_blocks j)
            (not_idle j (free j) h)

  -- The first block of a free list is handed out.
  pub pop-Owned :
      (i node : ℕ) (ps : List ℕ)
      → free i ≡ node ∷ ps
      → Owned (pop s i node) start size (set_free free i ps) (retag o (used node i) node i)
  pop-Owned i node ps e =
      let new = retag o (used node i) node i in
      let slot = (pop s i node).memory_slot in
      let l = subst (λ f. Linked s.next (s.memory_slot i) f) e (w.linked i) in
      let b = subst (λ f. All (λ q. Region o (idle q i) q i) f) e (w.free_blocks i) in
      let d = subst Distinct e (w.distinct i) in
      record {
        linked = λ j.
            at_slot (λ j ps. Linked s.next (slot j) ps) free i ps j
              (subst (λ f. Linked s.next f ps) (sym (self_slot i (s.next node) (s.memory_slot i)))
                l.1)
              (λ k.
                subst (λ f. Linked s.next f (free j))
                  (sym (other_slot i j (s.next node) (s.memory_slot j) k)) (w.linked j));
        free_blocks = λ j.
            at_slot (λ j ps. All (λ q. Region new (idle q j) q j) ps) free i ps j
              (All-Region-retag o (idle node i) (used node i) node i i ps b.0 b.1 (same ps d.0))
              (λ k.
                All-Region-retag o (idle node i) (used node i) node i j (free j) b.0
                  (w.free_blocks j) (apart j (free j) k));
        distinct = λ j. at_slot (λ j ps. Distinct ps) free i ps j d.1 (λ k. w.distinct j);
        pooled = λ a h k.
            retag_out o (idle node i) (used node i) node i a b.0
              (λ f. absurd (cc (f, w.pooled a h k)))
            ∙ w.pooled a h k;
      }
    where
      same : (qs : List ℕ) → All (λ q. q ≢ node) qs → All (λ q. idle q i ≢ idle node i) qs
      same [] a = tt
      same (q ∷ qs) a = ((λ f. a.0 (cc f)), same qs a.1)

      apart : (j : ℕ) (qs : List ℕ) → j ≢ i → All (λ q. idle q j ≢ idle node i) qs
      apart j [] k = tt
      apart j (q ∷ qs) k = ((λ f. k (cc f)), apart j qs k)
