-- ===== src/Lru/Insert.antt =====
-- `insert` of the LRU cache (src/cache/lru.h) on the pairs that it represents.
use smallkv.Base.{
  ℕ, suc, ◌+◌, ◌≤◌, ◌<◌, ◌≡◌, refl, sym, ap, true, none, some, List, [], ◌∷◌, length, arith, inl,
  inr, Option-cases,
}
use smallkv.Base.Bytes.{Bytes, beq_self}
use smallkv.Lru.{Ptr, CacheNode, Lru, set_node, set_key, erase_ptr, back, evict, insert}
use smallkv.Lru.Shape.{
  Pairs, find, but_last, put, Cell, Cells, Linked, Represents, Cells-back, Cells-elsewhere,
  find-none, length-remove,
}
use mathlib.Core.Path.{subst}
use native.Mathlib.Decide.{dec_lt}
use smallkv.Lru.Refine.{index-find, phantom-Linked, front-Linked}

module _ {V : Type 0} where
  -- An allocation changes no cell.
  Cell-alloc :
      (l : Lru V) (n : CacheNode V) {p : Ptr} {k : Bytes} {v : V}
      → Cell l p k v
      → Cell (record l { node = set_node l.node l.fresh (some n); fresh = l.fresh + 1 }) p k v
  Cell-alloc l n c = record {
    at = c.at;
    stored = ground (arith, c.stored, c.old);
    has_key = c.has_key;
    has_val = c.has_val;
    held = c.held;
    old = omega (arith, c.old);
    indexed = c.indexed;
  }

  Cells-alloc :
      (l : Lru V) (n : CacheNode V) (ps : List Ptr) (m : Pairs V)
      → Cells l ps m
      → Cells (record l { node = set_node l.node l.fresh (some n); fresh = l.fresh + 1 }) ps m
  Cells-alloc l n [] [] c = tt
  Cells-alloc l n [] (e ∷ m) c = absurd c
  Cells-alloc l n (p ∷ ps) [] c = absurd c
  Cells-alloc l n (p ∷ ps) ((k, v) ∷ m) c = (Cell-alloc l n c.0, Cells-alloc l n ps m c.1)

  alloc-Linked :
      (l : Lru V) (m : Pairs V) (n : CacheNode V)
      → Linked l m
      → Linked (record l { node = set_node l.node l.fresh (some n); fresh = l.fresh + 1 }) m
  alloc-Linked l m n r = record {
    cells = Cells-alloc l n l.nodes m r.cells;
    distinct = r.distinct;
    absent = r.absent;
  }

  length-Cells : (l : Lru V) (ps : List Ptr) (m : Pairs V) → Cells l ps m → length ps ≡ length m
  length-Cells l [] [] c = refl
  length-Cells l [] (e ∷ m) c = absurd c
  length-Cells l (p ∷ ps) [] c = absurd c
  length-Cells l (p ∷ ps) (e ∷ m) c = ap suc (length-Cells l ps m c.1)

  -- The new node at the front, before anything is evicted.
  pushed-Linked :
      (l : Lru V) (m : Pairs V) (k : Bytes) (v : V)
      → Linked l m
      → find k m ≡ none
      → (n : CacheNode V) → n.key ≡ k
      → n.val ≡ v
      → 1 ≤ n.ref_cnt
      → Linked
          (record l {
            node = set_node l.node l.fresh (some n);
            fresh = l.fresh + 1;
            nodes = l.fresh ∷ l.nodes;
            index = set_key l.index k (some l.fresh);
          })
          ((k, v) ∷ m)
  pushed-Linked l m k v r e n nk nv h =
      let l' : Lru V = record l {
        node = set_node l.node l.fresh (some n);
        fresh = l.fresh + 1;
        nodes = l.fresh ∷ l.nodes;
        index = set_key l.index k (some l.fresh);
      } in
      record {
        cells = (
          record {
            at = n;
            stored = ground arith;
            has_key = nk;
            has_val = nv;
            held = h;
            old = omega arith;
            indexed = ground (arith, beq_self k);
          },
          Cells-elsewhere l l' l.fresh k
              (record {
                nodes = λ q d. ground arith;
                keys = λ j d. ground arith;
                older = omega arith;
              })
              l.nodes m (λ q j w c d. omega (arith, c.old)) e r.cells,
        );
        distinct = (e, r.distinct);
        absent = λ j f.
            let (other, rest) = find-none j k v m f in ground (arith, r.absent j rest, other);
      }

  put_over :
      (room : ℕ) (k : Bytes) (v : V) (m : Pairs V)
      → find k m ≡ none
      → room < length ((k, v) ∷ m)
      → put room k v m ≡ but_last (k, v) m
  unfolding put
  put_over room k v m e h = ground (arith, e)

  put_fits :
      (room : ℕ) (k : Bytes) (v : V) (m : Pairs V)
      → find k m ≡ none
      → ¬ (room < length ((k, v) ∷ m))
      → put room k v m ≡ (k, v) ∷ m
  unfolding put
  put_fits room k v m e h = ground (arith, e)

  -- insert on a well-formed cache ends without a fault; a new key goes to the front and the last
  -- pair goes if there is one too many; a key that is cached goes to the front with its old value.
  -- The capacity does not change.
  pub insert-put :
      (l : Lru V) (m : Pairs V) (k : Bytes) (v : V)
      → Represents l m
      → (l' : Lru V) × (insert l k v ≡ some l') × Represents l' (put l.cap k v m) × (l'.cap ≡ l.cap)
  unfolding insert evict put
  insert-put l m k v r = elim (Option-cases (find k m)) [
    | inr (w, e) ↦
        let (p, c) = index-find l m k w r.linked e in
        let n : CacheNode V = record { key = k; val = v; ref_cnt = 1; in_cache = true } in
        let l' : Lru V = record l {
          node = set_node l.node l.fresh (some n);
          fresh = l.fresh + 1;
          nodes = p ∷ erase_ptr p l.nodes;
          index = set_key l.index k (some p);
        } in
        let l₁ : Lru V = record l {
          node = set_node l.node l.fresh (some n);
          fresh = l.fresh + 1;
        } in
        let moved = Cell-alloc l n c in
        let linked =
          front-Linked l₁ l' m p k w (alloc-Linked l m n r.linked) moved
            (record { nodes = λ q d. refl; keys = λ j d. ground arith; older = omega arith }) refl
            (record {
              at = moved.at;
              stored = moved.stored;
              has_key = moved.has_key;
              has_val = moved.has_val;
              held = moved.held;
              old = moved.old;
              indexed = ground (arith, beq_self k);
            }) in
        (
          l',
          ground (arith, c.indexed),
          rw (e, put)
              (record {
                linked = linked;
                bounded = omega (arith, r.bounded, length-remove k m w e);
              }),
          refl,
        )
    | inl e ↦
        let n : CacheNode V = record { key = k; val = v; ref_cnt = 1; in_cache = true } in
        let l₁ : Lru V = record l {
          node = set_node l.node l.fresh (some n);
          fresh = l.fresh + 1;
          nodes = l.fresh ∷ l.nodes;
          index = set_key l.index k (some l.fresh);
        } in
        let linked = pushed-Linked l m k v r.linked e n refl refl (omega arith) in
        let (j, w, c, found, less) =
          Cells-back l₁ l.fresh l.nodes k v m linked.cells linked.distinct in
        let (l', run, r', same) =
          phantom-Linked l₁ ((k, v) ∷ m) (back l.fresh l.nodes) j w linked c found in
        let none_there = r.linked.absent k e in
        elim (dec_lt l.cap (length ((k, v) ∷ m))) [
          | yes h ↦ (
            l',
            ground (arith, none_there, run, h, length-Cells l l.nodes m r.linked.cells),
            subst (Represents l') (sym (put_over l.cap k v m e h)) (record {
              linked = subst (Linked l') less r';
              bounded =
                  omega
                    (arith, r.bounded, same, ap length less, length-remove j ((k, v) ∷ m) w found);
            }),
            same,
          )
          | no h ↦ (
            l₁,
            ground (arith, none_there, h, length-Cells l l.nodes m r.linked.cells),
            subst (Represents l₁) (sym (put_fits l.cap k v m e h))
                (record { linked = linked; bounded = omega arith }),
            refl,
          )
        ]
  ]
