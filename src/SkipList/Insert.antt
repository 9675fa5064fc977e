-- ===== src/SkipList/Insert.antt =====
-- `Insert` (src/memtable/skiplist.h) puts a new pair in its place and keeps the shape.
use smallkv.Base.{
  ℕ, zero, suc, ◌+◌, ◌-◌, ◌≤◌, ◌<◌, ◌≡◌, ◌≢◌, sym, ◌∙◌, ◌⊎◌, none, some, List, [], ◌∷◌, ◌++◌,
  length, All, arith, max, length-append,
}
use smallkv.Base.Maybe.{◌>>=◌}
use smallkv.Base.Bytes.{Bytes}
use smallkv.SkipList.{
  Ptr, Cells, SkipList, Prev, head, max_height, no_prev, find_prev_node, fuel_for,
  random_level_loop, random_level, new_node, insert_new,
}
use smallkv.SkipList.Chain.{
  first_tall, last_tall, Fits, Represents, entries, lookup, Below, Above, NotBelow, All-append,
  All-map, All-join, Ordered-append, last_tall-none, Chain-Tower,
}
use smallkv.SkipList.Prev.{Filled, find_prev_loop-Filled}
use smallkv.SkipList.Link.{target, behind, linked, CanLink, link_loop-linked}
use smallkv.SkipList.Towers.{Represents-Apart, last_cell, last_tall-All, first_tall_high}
use smallkv.SkipList.Grow.{Grown, Chain-grown}
use smallkv.SkipList.Entries.{
  insert_entry, Ordered-grown, entries_grown, usage_grown, absent-Above, insert_entry-split,
}
use native.Mathlib.Decide.{dec_lt}

random_level_loop-range :
    (fuel : ℕ) (rand : ℕ → ℕ) (level : ℕ)
    → 1 ≤ level
    → level ≤ max_height
    → (1 ≤ random_level_loop fuel rand level) × (random_level_loop fuel rand level ≤ max_height)
unfolding random_level_loop
random_level_loop-range zero rand level h k = (h, k)
random_level_loop-range (suc fuel) rand level h k = elim (dec_lt level max_height) [
  | yes p ↦ ground (arith, random_level_loop-range fuel (λ i. rand (suc i)) (level + 1))
  | no p ↦ ground arith
]

-- Whatever rand returns, RandomLevel is at least 1 and at most kMaxHeight.
pub random_level-range : (rand : ℕ → ℕ) → (1 ≤ random_level rand) × (random_level rand ≤ max_height)
unfolding random_level
random_level-range rand = random_level_loop-range max_height rand 1 (omega arith) (omega arith)

-- One insertion of a key that no node has, between `pre` and `post`.
module _ (l : SkipList) (key value : Bytes) (rand : ℕ → ℕ) (pre post : List Ptr)
    (r : Represents l (pre ++ post)) (below : All (Below l key) pre)
    (above : All (Above l key) post) (not_below : All (NotBelow l key) post) where
  -- No node stands at the address of the new one.
  old : All (λ q. q ≢ l.fresh) (head ∷ (pre ++ post))
  old =
      (omega (arith, r.fresh), All-map (Fits l) _ (λ q f. omega (arith, f.1)) (pre ++ post) r.fits)

  abbrev place : ℕ → Ptr
  place j = last_tall l.node j head pre

  place-old : (j : ℕ) → place j ≢ l.fresh
  place-old j =
      last_tall-All l.node (λ q. q ≢ l.fresh) j head pre old.0
        (All-append (λ q. q ≢ l.fresh) pre post old.1).0

  place-cell :
      (j : ℕ)
      → j < max_height
      → (l.next (place j) j ≡ first_tall l.node j post) × (j < (l.node (place j)).level)
  place-cell j h =
      let top : j < (l.node head).level = omega (arith, r.tall_head) in
      last_cell l j head head pre post r.chain (Chain-Tower l head (pre ++ post) r.chain j top) top

  short : (j : ℕ) → l.max_level ≤ j → All (λ q. (l.node q).level ≤ j) (pre ++ post)
  short j h = All-map (Fits l) _ (λ q f. omega (arith, f.3)) (pre ++ post) r.fits

  abbrev counted : SkipList
  counted = record l { size = l.size + 1; mem_usage = l.mem_usage + length key + length value }

  abbrev raised : SkipList
  raised = record counted { max_level = max (random_level rand) l.max_level }

  abbrev with_node : SkipList
  with_node = new_node raised key (random_level rand) value

  module _ (prev : Prev) (f : Filled counted head pre (l.max_level - 1) no_prev prev) where
    target-place : (j : ℕ) → target prev j ≡ place j
    target-place j = elim (dec_lt j l.max_level) [
      | yes h ↦ ground (arith, f.low j (omega arith))
      | no h ↦ ground (
        arith,
        f.high j (omega (arith, r.height)),
        last_tall-none l.node j head pre
            (first_tall_high l.node j pre (All-append _ pre post (short j (omega arith))).0),
      )
    ]

    behind-place : (j : ℕ) → j < max_height → behind with_node prev j ≡ first_tall l.node j post
    unfolding new_node
    behind-place j k = elim (dec_lt j l.max_level) [
      | yes h ↦ ground (arith, f.low j (omega arith), place-cell j k, place-old j)
      | no h ↦ ground (
        arith,
        f.high j (omega (arith, r.height)),
        first_tall_high l.node j post (All-append _ pre post (short j (omega arith))).1,
      )
    ]

    can_link : (j : ℕ) → 0 ≤ j → j < 0 + random_level rand → CanLink with_node l.fresh prev j
    unfolding new_node
    can_link j _ h =
        let small : j < max_height = omega (arith, random_level-range rand) in
        record {
          room = ground (arith, target-place j, place-cell j small, place-old j);
          room_new = ground arith;
          other = ground (arith, target-place j, place-old j);
        }

    module _ (nx : Cells)
        (inside : (q : Ptr) (j : ℕ)
          → 0 ≤ j
          → j < 0 + random_level rand
          → nx q j ≡ linked with_node l.fresh prev q j)
        (outside : (q : Ptr) (j : ℕ)
          → (j < 0) ⊎ (0 + random_level rand ≤ j)
          → nx q j ≡ with_node.next q j) where
      abbrev done : SkipList
      done = record with_node { next = nx }

      grown : Grown l done l.fresh (random_level rand) pre post
      unfolding new_node linked
      grown = record {
        old_node = λ q h. ground arith;
        new_level = ground arith;
        new_cell = λ j h. ground (
          arith,
          inside l.fresh j,
          target-place j,
          place-old j,
          behind-place j (omega (arith, random_level-range rand)),
        );
        before = λ q j h ne e. ground (arith, inside q j, target-place j);
        beside = λ q j ne w. elim (dec_lt j (random_level rand)) [
          | yes h ↦ ground (arith, w, inside q j, target-place j)
          | no h ↦ ground (arith, outside q j)
        ];
      }

      Fits-old : (qs : List Ptr) → All (λ q. q ≢ l.fresh) qs → All (Fits l) qs → All (Fits done) qs
      unfolding new_node
      Fits-old [] a f = tt
      Fits-old (q ∷ qs) a f = (ground (arith, a.0, f.0), Fits-old qs a.1 f.1)

      Fits-new : Fits done l.fresh
      unfolding new_node
      Fits-new = ground (arith, random_level-range rand, r.fresh)

      done-Represents :
          Represents done (pre ++ l.fresh ∷ post)
          × (entries done.node (pre ++ l.fresh ∷ post)
              ≡ insert_entry key value (entries l.node (pre ++ post)))
      unfolding new_node
      done-Represents =
          let same = grown.old_node in
          let parts = All-append (λ q. q ≢ l.fresh) pre post old.1 in
          let fit = All-append (Fits l) pre post r.fits in
          let has_key : (done.node l.fresh).key ≡ key = ground arith in
          let has_value : (done.node l.fresh).value ≡ value = ground arith in
          (
            record {
              chain =
                  Chain-grown l done l.fresh (random_level rand) pre post grown
                    (Represents-Apart l (pre ++ post) r) old r.chain;
              ordered =
                  Ordered-grown l done l.fresh key value same has_key has_value pre post old.1 below
                    above r.ordered;
              fits =
                  All-join (Fits done) pre (l.fresh ∷ post) (Fits-old pre parts.0 fit.0)
                    (Fits-new, Fits-old post parts.1 fit.1);
              fresh = omega arith;
              tall_head = ground (arith, r.tall_head, r.fresh);
              height = omega (arith, r.height, random_level-range rand);
              size =
                  omega (arith, r.size, length-append pre post, length-append pre (l.fresh ∷ post));
              mem_usage = omega (
                arith,
                r.mem_usage,
                usage_grown l done l.fresh key value same has_key has_value pre post old.1,
              );
            },
            entries_grown l done l.fresh key value same has_key has_value pre post old.1
                ∙ sym (insert_entry-split l key value pre post below not_below),
          )

module _ (l : SkipList) (key value : Bytes) (rand : ℕ → ℕ) where
  -- The part of `Insert` behind the test, at a key that no node has.
  pub insert_new-Represents :
      (pre post : List Ptr)
      → Represents l (pre ++ post)
      → All (Below l key) pre
      → All (NotBelow l key) post
      → lookup key (entries l.node post) ≡ none
      → (l' : SkipList) × (qs' : List Ptr) × (insert_new l key value rand ≡ some l')
        × Represents l' qs'
        × (entries l'.node qs' ≡ insert_entry key value (entries l.node (pre ++ post)))
  unfolding insert_new find_prev_node
  insert_new-Represents pre post r b n absent =
      let above = absent-Above l key value post n absent in
      let c = counted l key value rand pre post r b above n in
      let ordered = Ordered-append l pre post r.ordered in
      let fits = (All-append (Fits l) pre post r.fits).1 in
      let enough : length pre + (l.max_level - 1) < fuel_for c =
        omega (arith, r.size, r.height, length-append pre post) in
      let top : l.max_level - 1 < (l.node head).level = omega (arith, r.height, r.tall_head) in
      let (prev, walk, filled) =
        find_prev_loop-Filled c key post ordered n fits (fuel_for c) head pre (l.max_level - 1)
          no_prev top r.chain b enough in
      let (nx, run, inside, outside) =
        link_loop-linked l.fresh prev (random_level rand)
          (with_node l key value rand pre post r b above n) 0
          (can_link l key value rand pre post r b above n prev filled) in
      let ok =
        done-Represents l key value rand pre post r b above n prev filled nx inside outside in
      (
        done l key value rand pre post r b above n prev filled nx inside outside,
        pre ++ l.fresh ∷ post,
        rw (walk, ◌>>=◌) run,
        ok.0,
        ok.1,
      )
