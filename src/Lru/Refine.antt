-- ===== src/Lru/Refine.antt =====
-- The operations of the LRU cache (src/cache/lru.h) on the pairs that it represents.
use smallkv.Base.{
  ℕ, ◌+◌, ◌-◌, ◌≤◌, ◌≡◌, refl, sym, ap, ◌∙◌, false, Option, none, some, [], ◌∷◌, ◌++◌, leb, arith,
  inl, inr, is_some, Bool-cases, Option-cases,
}
use smallkv.Base.Bytes.{Bytes, beq, beq→eq, beq_self}
use smallkv.Lru.{
  Ptr, CacheNode, Lru, init, set_node, set_key, erase_ptr, unref, ref, phantom_erase_node, erase,
  get, contains,
}
use smallkv.Lru.Shape.{
  Pairs, find, remove, touch, Cell, Cells, Linked, Represents, Cell-ne, Cells-remove, Cells-find,
  Elsewhere, Cells-elsewhere, find-none, find-remove_self, find-remove_ne, Distinct-remove,
  length-remove, remove_absent,
}
use mathlib.Core.Path.{subst}

module _ {V : Type 0} where
  -- The result of an operation: it ends, with a cache that represents these pairs.
  abbrev pub Holds : Option (Lru V) → Pairs V → Type 0
  Holds o m = (l : Lru V) × (o ≡ some l) × Represents l m

  pub init-Represents : (room : ℕ) → Represents (init {V = V} room) []
  unfolding init find
  init-Represents room = record {
    linked = record { cells = tt; distinct = tt; absent = λ k e. refl };
    bounded = omega arith;
  }

  -- The index tells whether a key is found.
  pub index-find :
      (l : Lru V) (m : Pairs V) (k : Bytes) (v : V)
      → Linked l m
      → find k m ≡ some v
      → (p : Ptr) × Cell l p k v
  index-find l m k v r e = Cells-find l l.nodes m k v r.cells e

  -- contains on a well-formed cache tells whether the key is among the cached pairs.
  pub contains-find :
      (l : Lru V) (m : Pairs V) (k : Bytes) → Represents l m → contains l k ≡ is_some (find k m)
  unfolding contains
  contains-find l m k r = elim (Option-cases (find k m)) [
    | inl e ↦ ground (arith, e, r.linked.absent k e)
    | inr (v, e) ↦ let (p, c) = index-find l m k v r.linked e in ground (arith, e, c.indexed)
  ]

  -- The state when a node has left the list and the index, whatever became of the node.
  dropped-Linked :
      (l l' : Lru V) (m : Pairs V) (p : Ptr) (k : Bytes) (v : V)
      → Linked l m
      → Cell l p k v
      → find k m ≡ some v
      → Elsewhere l l' p k
      → l'.nodes ≡ erase_ptr p l.nodes
      → l'.index k ≡ none
      → Linked l' (remove k m)
  dropped-Linked l l' m p k v r c e s n x = record {
    cells =
        subst (λ ns. Cells l' ns (remove k m)) (sym n)
          (Cells-elsewhere l l' p k s (erase_ptr p l.nodes) (remove k m)
            (λ q j w d h. Cell-ne l c d h) (find-remove_self k m r.distinct)
            (Cells-remove l l.nodes m c r.cells));
    distinct = Distinct-remove k m r.distinct;
    absent = λ j f. elim (Bool-cases (beq k j)) [
      | inl h ↦ ap l'.index (sym (beq→eq k j h)) ∙ x
      | inr h ↦ s.keys j h ∙ r.absent j (sym (find-remove_ne k j m h) ∙ f)
    ];
  }

  -- A node leaves the cache: the operation ends, and the pair of its key is gone.
  pub phantom-Linked :
      (l : Lru V) (m : Pairs V) (p : Ptr) (k : Bytes) (v : V)
      → Linked l m
      → Cell l p k v
      → find k m ≡ some v
      → (l' : Lru V) × (phantom_erase_node l p ≡ some l')
        × Linked l' (remove k m)
        × (l'.cap ≡ l.cap)
  unfolding phantom_erase_node unref
  phantom-Linked l m p k v r c e =
      let n = c.at in
      let l₁ : Lru V = record l {
        node = set_node l.node p (some (record n { in_cache = false }));
        nodes = erase_ptr p l.nodes;
        index = set_key l.index n.key none;
        garbage_station = set_key l.garbage_station n.key (some p);
      } in
      let same : n.key ≡ k = c.has_key in
      let at_index : l.index n.key ≡ some p = ap l.index same ∙ c.indexed in
      elim (Bool-cases (leb (n.ref_cnt - 1) 0)) [
        | inl h ↦
            let l' : Lru V = record l₁ {
              destroyed = l₁.destroyed ++ (n.key, n.val) ∷ [];
              garbage_station = set_key l₁.garbage_station n.key none;
              node = set_node l₁.node p none;
            } in
            (
              l',
              ground (arith, c.stored, at_index, h),
              dropped-Linked l l' m p k v r c e
                  (record {
                    nodes = λ q d. ground arith;
                    keys = λ j d. ground (arith, ap (λ t. beq t j) same);
                    older = omega arith;
                  })
                  refl (ground (arith, ap (λ t. beq t k) same, beq_self k)),
              refl,
            )
        | inr h ↦
            let l' : Lru V = record l₁ {
              node =
                  set_node l₁.node p
                    (some (record n { in_cache = false; ref_cnt = n.ref_cnt - 1 }));
            } in
            (
              l',
              ground (arith, c.stored, at_index, h),
              dropped-Linked l l' m p k v r c e
                  (record {
                    nodes = λ q d. ground arith;
                    keys = λ j d. ground (arith, ap (λ t. beq t j) same);
                    older = omega arith;
                  })
                  refl (ground (arith, ap (λ t. beq t k) same, beq_self k)),
              refl,
            )
      ]

  -- erase on a well-formed cache ends without a fault, and the pair of the key is gone while the
  -- others keep their order.
  pub erase-remove :
      (l : Lru V) (m : Pairs V) (k : Bytes)
      → Represents l m
      → (l' : Lru V) × (erase l k ≡ some l') × Represents l' (remove k m) × (l'.cap ≡ l.cap)
  unfolding erase
  erase-remove l m k r = elim (Option-cases (find k m)) [
    | inl e ↦ (
      l,
      ground (arith, r.linked.absent k e),
      subst (Represents l) (sym (remove_absent k m e)) r,
      refl,
    )
    | inr (v, e) ↦
        let (p, c) = index-find l m k v r.linked e in
        let (l', run, r', same) = phantom-Linked l m p k v r.linked c e in
        (
          l',
          ground (arith, c.indexed, run),
          record { linked = r'; bounded = omega (arith, r.bounded, same, length-remove k m v e) },
          same,
        )
  ]

  -- The state when a node has been moved to the front.
  pub front-Linked :
      (l l' : Lru V) (m : Pairs V) (p : Ptr) (k : Bytes) (v : V)
      → Linked l m
      → Cell l p k v
      → Elsewhere l l' p k
      → l'.nodes ≡ p ∷ erase_ptr p l.nodes
      → Cell l' p k v
      → Linked l' ((k, v) ∷ remove k m)
  front-Linked l l' m p k v r c s n c' = record {
    cells =
        subst (λ ns. Cells l' ns ((k, v) ∷ remove k m)) (sym n)
          (
            c',
            Cells-elsewhere l l' p k s (erase_ptr p l.nodes) (remove k m)
                (λ q j w d h. Cell-ne l c d h) (find-remove_self k m r.distinct)
                (Cells-remove l l.nodes m c r.cells),
          );
    distinct = (find-remove_self k m r.distinct, Distinct-remove k m r.distinct);
    absent = λ j f.
        let (other, rest) = find-none j k v (remove k m) f in
        s.keys j other ∙ r.absent j (sym (find-remove_ne k j m other) ∙ rest);
  }

  -- What `get` returned: null exactly for a key that is not found, else a held node with its pair.
  abbrev pub Returned : Lru V → Option Ptr → Bytes → Option V → Type 0
  Returned l none k found = found ≡ none
  Returned l (some p) k found =
      (n : CacheNode V) × (l.node p ≡ some n) × (n.key ≡ k) × (found ≡ some n.val) × (2 ≤ n.ref_cnt)

  -- get on a well-formed cache ends without a fault: it returns null exactly for a key that is not
  -- cached, else the node of the key with its value, held once more, and moves the pair to the
  -- front.
  pub get-touch :
      (l : Lru V) (m : Pairs V) (k : Bytes)
      → Represents l m
      → (l' : Lru V) × (o : Option Ptr) × (get l k ≡ some (l', o))
        × Represents l' (touch k m)
        × Returned l' o k (find k m)
        × (l'.cap ≡ l.cap)
  unfolding get ref touch
  get-touch l m k r = elim (Option-cases (find k m)) [
    | inl e ↦ (l, none, ground (arith, r.linked.absent k e), rw (e, touch) r, e, refl)
    | inr (v, e) ↦
        let (p, c) = index-find l m k v r.linked e in
        let n = c.at in
        let n' : CacheNode V = record n { ref_cnt = n.ref_cnt + 1 } in
        let l' : Lru V = record l {
          nodes = p ∷ erase_ptr p l.nodes;
          index = set_key l.index k (some p);
          node = set_node l.node p (some n');
        } in
        let stored : l'.node p ≡ some n' = ground arith in
        let linked =
          front-Linked l l' m p k v r.linked c
            (record {
              nodes = λ q d. ground arith;
              keys = λ j d. ground arith;
              older = omega arith;
            })
            refl
            (record {
              at = n';
              stored = stored;
              has_key = c.has_key;
              has_val = c.has_val;
              held = omega arith;
              old = c.old;
              indexed = ground (arith, beq_self k);
            }) in
        (
          l',
          some p,
          ground (arith, c.indexed, c.stored),
          rw (e, touch)
              (record {
                linked = linked;
                bounded = omega (arith, r.bounded, length-remove k m v e);
              }),
          (n', stored, c.has_key, e ∙ ap some (sym c.has_val), omega (arith, c.held)),
          refl,
        )
  ]
