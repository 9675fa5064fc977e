-- ===== src/Lru/Shape.antt =====
-- The abstract view of the LRU cache (src/cache/lru.h): the pairs, the most recently used first;
-- and what it means that a cache on its heap represents them.
use smallkv.Base.{
  ℕ, ◌+◌, ◌≤◌, ◌<◌, ◌≡◌, ◌≢◌, refl, sym, ap, ◌∙◌, true, false, Option, none, some, List, [], ◌∷◌,
  length, ltb, ◌==◌, if◌then◌else◌, arith, inl, inr, Bool-cases,
}
use smallkv.Base.Bytes.{Bytes, beq, beq→eq, beq_self, beq_sym, beq-false, ne→beq}
use mathlib.Core.Path.{subst₂}
use smallkv.Lru.{Ptr, CacheNode, Lru, erase_ptr, back}

same_ptr : {p q : Ptr} → q ≡ p → (q == p) ≡ true
same_ptr h = ground arith

other_ptr : {p q : Ptr} → q ≢ p → (q == p) ≡ false
other_ptr h = ground arith

abbrev pub Pairs : Type 0 → Type 0
Pairs V = List (Bytes × V)

module _ {V : Type 0} where
  unfoldable pub find : Bytes → Pairs V → Option V
  find k [] = none
  find k ((j, v) ∷ m) = if beq j k then some v else find k m

  unfoldable pub remove : Bytes → Pairs V → Pairs V
  remove k [] = []
  remove k ((j, v) ∷ m) = if beq j k then m else (j, v) ∷ remove k m

  -- All pairs but the last; the pair `e` stands before `m`.
  unfoldable pub but_last : Bytes × V → Pairs V → Pairs V
  but_last e [] = []
  but_last e (f ∷ m) = e ∷ but_last f m

  -- A cached key goes to the front with the value that it has; a new one is put there, and the
  -- last pair goes if there is no room.
  unfoldable pub put : ℕ → Bytes → V → Pairs V → Pairs V
  put room k v m = elim (find k m) [
    | some w ↦ (k, w) ∷ remove k m
    | none ↦ if ltb room (length ((k, v) ∷ m)) then but_last (k, v) m else (k, v) ∷ m
  ]

  -- A read moves the pair to the front.
  unfoldable pub touch : Bytes → Pairs V → Pairs V
  touch k m = elim (find k m) [ some w ↦ (k, w) ∷ remove k m | none ↦ m ]

  -- No key stands twice.
  abbrev pub Distinct : Pairs V → Type 0
  Distinct [] = Unit
  Distinct ((k, v) ∷ m) = (find k m ≡ none) × Distinct m

  -- The node at `p` is allocated and held, and has this key and value.
  pub record Cell (l : Lru V) (p : Ptr) (k : Bytes) (v : V) : Type 0 where
    pub at : CacheNode V
    pub stored : l.node p ≡ some at
    pub has_key : at.key ≡ k
    pub has_val : at.val ≡ v
    pub held : 1 ≤ at.ref_cnt
    pub old : p < l.fresh
    pub indexed : l.index k ≡ some p

  -- The nodes `ps` are the cells of the pairs, one by one.
  abbrev pub Cells : Lru V → List Ptr → Pairs V → Type 0
  Cells l [] [] = Unit
  Cells l [] (e ∷ m) = ⊥
  Cells l (p ∷ ps) [] = ⊥
  Cells l (p ∷ ps) ((k, v) ∷ m) = Cell l p k v × Cells l ps m

  -- The cells, and nothing else in the index.
  pub record Linked (l : Lru V) (m : Pairs V) : Type 0 where
    pub cells : Cells l l.nodes m
    pub distinct : Distinct m
    pub absent : (k : Bytes) → find k m ≡ none → l.index k ≡ none

  pub record Represents (l : Lru V) (m : Pairs V) : Type 0 where
    pub linked : Linked l m
    pub bounded : length m ≤ l.cap

  -- Two cells of different keys are at different addresses.
  pub Cell-ne :
      (l : Lru V) {p q : Ptr} {k j : Bytes} {v w : V} → Cell l p k v → Cell l q j w → j ≢ k → q ≢ p
  Cell-ne l c d h e = h (
      sym d.has_key
      ∙ ap (λ (n : CacheNode V). n.key) (injective (sym d.stored ∙ ap l.node e ∙ c.stored))
      ∙ c.has_key)
    where
      injective : {a b : CacheNode V} → some a ≡ some b → a ≡ b
      injective e = cc e

  -- The pairs without a key: the nodes without its address.
  pub Cells-remove :
      (l : Lru V) (ps : List Ptr) (m : Pairs V) {p : Ptr} {k : Bytes} {v : V}
      → Cell l p k v
      → Cells l ps m
      → Cells l (erase_ptr p ps) (remove k m)
  unfolding erase_ptr remove
  Cells-remove l [] [] c d = tt
  Cells-remove l (q ∷ ps) ((j, w) ∷ m) {p} {k} c d = elim (Bool-cases (beq j k)) [
    | inl e ↦
        let here : q ≡ p = cc (d.0.indexed, ap l.index (beq→eq j k e), c.indexed) in
        rw e (rw (same_ptr here) d.1)
    | inr e ↦
        let there = Cell-ne l c d.0 (λ h. cc (e, beq_self k, ap (λ t. beq t k) h)) in
        rw e (rw (other_ptr there) (d.0, Cells-remove l ps m c d.1))
  ]
  Cells-remove l [] (e ∷ m) c d = absurd d
  Cells-remove l (q ∷ ps) [] c d = absurd d

  pub find-none :
      (k j : Bytes) (w : V) (m : Pairs V)
      → find k ((j, w) ∷ m) ≡ none
      → (beq j k ≡ false) × (find k m ≡ none)
  unfolding find
  find-none k j w m f = ground arith

  -- A key that is found has a cell.
  pub Cells-find :
      (l : Lru V) (ps : List Ptr) (m : Pairs V) (k : Bytes) (v : V)
      → Cells l ps m
      → find k m ≡ some v
      → (p : Ptr) × Cell l p k v
  unfolding find
  Cells-find l ps [] k v d e = absurd (cc e)
  Cells-find l [] (f ∷ m) k v d e = absurd d
  Cells-find l (p ∷ ps) ((j, w) ∷ m) k v d e = elim (Bool-cases (beq j k)) [
    | inl h ↦ (p, subst₂ (λ a b. Cell l p a b) (beq→eq j k h) (ground arith) d.0)
    | inr h ↦ Cells-find l ps m k v d.1 (ground arith)
  ]

  -- The last node, and its pair, are what `back` and `but_last` speak of.
  pub Cells-back :
      (l : Lru V) (p : Ptr) (ps : List Ptr) (k : Bytes) (v : V) (m : Pairs V)
      → Cells l (p ∷ ps) ((k, v) ∷ m)
      → Distinct ((k, v) ∷ m)
      → (j : Bytes) × (w : V) × Cell l (back p ps) j w
        × (find j ((k, v) ∷ m) ≡ some w)
        × (remove j ((k, v) ∷ m) ≡ but_last (k, v) m)
  unfolding back find remove but_last
  Cells-back l p [] k v [] c d = (k, v, c.0, ground (arith, beq_self k), ground (arith, beq_self k))
  Cells-back l p [] k v (f ∷ m) c d = absurd c.1
  Cells-back l p (q ∷ ps) k v [] c d = absurd c.1
  Cells-back l p (q ∷ ps) k v ((i, u) ∷ m) c d =
      let (j, w, cell, found, less) = Cells-back l q ps i u m c.1 d.1 in
      let other : beq k j ≡ false =
        ne→beq k j (λ h. cc (d.0, found, ap (λ t. find t ((i, u) ∷ m)) h)) in
      (j, w, cell, rw other found, rw other (ap (λ t. (k, v) ∷ t) less))

  -- What a change that concerns one node and one key leaves alone.
  pub record Elsewhere (l l' : Lru V) (p : Ptr) (k : Bytes) : Type 0 where
    pub nodes : (q : Ptr) → q ≢ p → l'.node q ≡ l.node q
    pub keys : (j : Bytes) → beq k j ≡ false → l'.index j ≡ l.index j
    pub older : l.fresh ≤ l'.fresh

  pub Cells-elsewhere :
      (l l' : Lru V) (p : Ptr) (k : Bytes)
      → Elsewhere l l' p k
      → (ps : List Ptr) (m : Pairs V)
      → ((q : Ptr) (j : Bytes) (w : V) → Cell l q j w → j ≢ k → q ≢ p)
      → find k m ≡ none
      → Cells l ps m
      → Cells l' ps m
  unfolding find
  Cells-elsewhere l l' p k s [] [] ne f c = tt
  Cells-elsewhere l l' p k s [] (e ∷ m) ne f c = absurd c
  Cells-elsewhere l l' p k s (q ∷ ps) [] ne f c = absurd c
  Cells-elsewhere l l' p k s (q ∷ ps) ((j, w) ∷ m) ne f c =
      let (other, rest) = find-none k j w m f in
      (
        record {
          at = c.0.at;
          stored = s.nodes q (ne q j w c.0 (beq-false j k other)) ∙ c.0.stored;
          has_key = c.0.has_key;
          has_val = c.0.has_val;
          held = c.0.held;
          old = omega (arith, c.0.old, s.older);
          indexed = s.keys j (beq_sym k j ∙ other) ∙ c.0.indexed;
        },
        Cells-elsewhere l l' p k s ps m ne rest c.1,
      )

  -- Removal, on the pairs alone.
  pub find-remove_self : (k : Bytes) (m : Pairs V) → Distinct m → find k (remove k m) ≡ none
  unfolding find remove
  find-remove_self k [] d = refl
  find-remove_self k ((j, w) ∷ m) d = elim (Bool-cases (beq j k)) [
    | inl e ↦ ground (arith, e, ap (λ t. find t m) (beq→eq j k e), d.0)
    | inr e ↦ ground (arith, e, find-remove_self k m d.1)
  ]

  pub find-remove_ne :
      (k j : Bytes) (m : Pairs V) → beq k j ≡ false → find j (remove k m) ≡ find j m
  unfolding find remove
  find-remove_ne k j [] h = refl
  find-remove_ne k j ((i, w) ∷ m) h =
      ground (arith, find-remove_ne k j m, beq→eq i k, beq→eq i j, ne→beq k j)

  remove-none : (k j : Bytes) (m : Pairs V) → find j m ≡ none → find j (remove k m) ≡ none
  unfolding find remove
  remove-none k j [] e = refl
  remove-none k j ((i, w) ∷ m) e = ground (arith, remove-none k j m)

  pub Distinct-remove : (k : Bytes) (m : Pairs V) → Distinct m → Distinct (remove k m)
  unfolding remove
  Distinct-remove k [] d = tt
  Distinct-remove k ((j, w) ∷ m) d = ground (arith, Distinct-remove k m d.1, remove-none k j m d.0)

  pub length-remove :
      (k : Bytes) (m : Pairs V) (v : V) → find k m ≡ some v → length (remove k m) + 1 ≡ length m
  unfolding find remove
  length-remove k [] v e = cc
  length-remove k ((j, w) ∷ m) v e = ground (arith, length-remove k m v)

  pub remove_absent : (k : Bytes) (m : Pairs V) → find k m ≡ none → remove k m ≡ m
  unfolding find remove
  remove_absent k [] e = refl
  remove_absent k ((j, w) ∷ m) e = ground (arith, remove_absent k m)
