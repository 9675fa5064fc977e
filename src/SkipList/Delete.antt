-- ===== src/SkipList/Delete.antt =====
-- `Delete` (src/memtable/skiplist.h) takes the pair of the key out and keeps the shape.
use smallkv.Base.{
  ℕ, ◌+◌, ◌-◌, ◌≤◌, ◌<◌, ◌≡◌, ◌≢◌, refl, sym, ap, ◌⊎◌, none, some, List, [], ◌∷◌, ◌++◌, length, All,
  ◌==◌, if◌then◌else◌, arith, length-append,
}
use smallkv.Base.Maybe.{◌>>=◌}
use smallkv.Base.Bytes.{Bytes, Order, lt, eq, gt, compare_bytes, compare_bytes-eq}
use smallkv.SkipList.{
  Ptr, Cells, SkipList, head, no_prev, next_at, fuel_for, target_node, delete_present,
}
use smallkv.SkipList.Chain.{
  first_tall, last_tall, Ordered, Fits, Represents, Entries, entries, lookup, usage, Below, Above,
  NotBelow, All-append, All-join, Ordered-append, Chain-Tower, Chain-append,
}
use smallkv.SkipList.Search.{lookup_gt}
use smallkv.SkipList.Unlink.{delete_loop-Marked}
use smallkv.SkipList.Shrink.{Shrunk, unlink_loop-cells, Chain-shrunk}
use smallkv.SkipList.Towers.{Represents-Apart, last_cell, last_tall-Apart}
use native.Mathlib.Decide.{dec_lt}

unfoldable pub remove_entry : Bytes → Entries → Entries
remove_entry key [] = []
remove_entry key ((k, v) ∷ m) = elim (compare_bytes k key) [
  | eq ↦ m
  | _ ↦ (k, v) ∷ remove_entry key m
]

module _ (l : SkipList) (key : Bytes) where
  Ordered-without :
      (pre : List Ptr) (t : Ptr) (rest : List Ptr)
      → Ordered l (pre ++ t ∷ rest)
      → Ordered l (pre ++ rest)
  Ordered-without [] t rest o = o.1
  Ordered-without (p ∷ pre) t rest o =
      let a = All-append (Above l (l.node p).key) pre (t ∷ rest) o.0 in
      (All-join (Above l (l.node p).key) pre rest a.0 a.1.1, Ordered-without pre t rest o.1)

  entries_without :
      (pre : List Ptr) (t : Ptr) (rest : List Ptr)
      → All (Below l key) pre
      → compare_bytes (l.node t).key key ≡ eq
      → entries l.node (pre ++ rest) ≡ remove_entry key (entries l.node (pre ++ t ∷ rest))
  unfolding entries remove_entry
  entries_without [] t rest b e = ground arith
  entries_without (p ∷ pre) t rest b e = ground (arith, entries_without pre t rest b.1 e)

  usage_without :
      (pre : List Ptr) (t : Ptr) (rest : List Ptr)
      → usage l.node (pre ++ t ∷ rest)
        ≡ usage l.node (pre ++ rest) + length (l.node t).key + length (l.node t).value
  unfolding usage
  usage_without [] t rest = omega arith
  usage_without (p ∷ pre) t rest = omega (arith, usage_without pre t rest)

  -- A key that is found stands at the first node that is not below it.
  pub present-first :
      (post : List Ptr)
      → All (NotBelow l key) post
      → Ordered l post
      → lookup key (entries l.node post) ≢ none
      → (t : Ptr) × (rest : List Ptr) × (post ≡ t ∷ rest) × (compare_bytes (l.node t).key key ≡ eq)
  unfolding lookup entries
  present-first [] n o h = absurd (h refl)
  present-first (t ∷ rest) n o h = (t, rest, refl, go (compare_bytes (l.node t).key key) refl)
    where
      go :
          (c : Order) → compare_bytes (l.node t).key key ≡ c → compare_bytes (l.node t).key key ≡ eq
      go lt e = absurd (n.0 e)
      go eq e = e
      go gt e = absurd (h (lookup_gt l key t rest o e))

  pub remove_absent : (m : Entries) → lookup key m ≡ none → remove_entry key m ≡ m
  unfolding lookup remove_entry
  remove_absent [] e = refl
  remove_absent ((k, v) ∷ m) e = ground (arith, remove_absent m)

module _ (l : SkipList) (key : Bytes) (pre : List Ptr) (t : Ptr) (rest : List Ptr)
    (r : Represents l (pre ++ t ∷ rest)) where
  abbrev place : ℕ → Ptr
  place j = last_tall l.node j head pre

  place-ne : (j : ℕ) → place j ≢ t
  place-ne j e =
      let d = Represents-Apart l (pre ++ t ∷ rest) r in
      (last_tall-Apart l.node j head pre (t ∷ rest)
          (All-append (λ q. q ≢ head) pre (t ∷ rest) d.0).1 d.1).0
        (sym e)

  fit : Fits l t
  fit = (All-append (Fits l) pre (t ∷ rest) r.fits).1.0

  place-cell :
      (j : ℕ)
      → j < (l.node t).level
      → (l.next (place j) j ≡ some t) × (j < (l.node (place j)).level)
  unfolding first_tall
  place-cell j h =
      let top : j < (l.node head).level = omega (arith, r.tall_head, fit, r.height) in
      let (cell, room) =
        last_cell l j head head pre (t ∷ rest) r.chain
          (Chain-Tower l head (pre ++ t ∷ rest) r.chain j top) top in
      (ground (arith, cell), room)

  target-cell : (j : ℕ) → j < (l.node t).level → l.next t j ≡ first_tall l.node j rest
  target-cell j h = Chain-Tower l t rest (Chain-append l head pre t rest r.chain) j h

  module _ (nx : Cells)
      (inside : (q : Ptr) (j : ℕ)
        → 0 ≤ j
        → j < 0 + (l.node t).level
        → nx q j ≡ (if q == place j then l.next t j else l.next q j))
      (outside : (q : Ptr) (j : ℕ)
        → (j < 0) ⊎ (0 + (l.node t).level ≤ j)
        → nx q j ≡ l.next q j) where
    abbrev done : SkipList
    done = record l {
      next = nx;
      size = l.size - 1;
      mem_usage = l.mem_usage - length key - length (l.node t).value;
    }

    shrunk : Shrunk l done t pre rest
    shrunk = record {
      nodes = λ q. refl;
      before = λ q j h e. ground (arith, inside q j, target-cell j h);
      beside = λ q j w. elim (dec_lt j (l.node t).level) [
        | yes h ↦ ground (arith, w, inside q j)
        | no h ↦ ground (arith, outside q j)
      ];
    }

    done-Represents : (l.node t).key ≡ key → Represents done (pre ++ rest)
    done-Represents e =
        let parts = All-append (Fits l) pre (t ∷ rest) r.fits in
        record {
          chain = Chain-shrunk l done t pre rest shrunk (Represents-Apart l _ r) r.chain;
          ordered = Ordered-without l key pre t rest r.ordered;
          fits = All-join (Fits l) pre rest parts.0 parts.1.1;
          fresh = r.fresh;
          tall_head = r.tall_head;
          height = r.height;
          size = omega (arith, r.size, length-append pre (t ∷ rest), length-append pre rest);
          mem_usage = omega (arith, r.mem_usage, usage_without l key pre t rest, ap length e);
        }

module _ (l : SkipList) (key : Bytes) where
  -- The part of `Delete` behind the test, at a key that the node `t` has.
  pub delete_present-Represents :
      (pre : List Ptr) (t : Ptr) (rest : List Ptr)
      → Represents l (pre ++ t ∷ rest)
      → All (Below l key) pre
      → All (NotBelow l key) (t ∷ rest)
      → compare_bytes (l.node t).key key ≡ eq
      → (l' : SkipList) × (qs' : List Ptr) × (delete_present l key ≡ some l')
        × Represents l' qs'
        × (entries l'.node qs' ≡ remove_entry key (entries l.node (pre ++ t ∷ rest)))
  unfolding delete_present target_node next_at
  delete_present-Represents pre t rest r b n hit =
      let l₁ = record l { size = l.size - 1 } in
      let ordered = Ordered-append l pre (t ∷ rest) r.ordered in
      let fits = (All-append (Fits l) pre (t ∷ rest) r.fits).1 in
      let top : l.max_level - 1 < (l.node head).level = omega (arith, r.height, r.tall_head) in
      let enough : length pre + (l.max_level - 1) < fuel_for l =
        omega (arith, r.size, r.height, length-append pre (t ∷ rest)) in
      let (prev, walk, marked) =
        delete_loop-Marked l₁ key t rest ordered n fits hit (fuel_for l) head pre (l.max_level - 1)
          no_prev none top r.chain b enough in
      let l₂ = record l₁ { mem_usage = l.mem_usage - length key - length (l.node t).value } in
      let at = place l key pre t rest r in
      let cell = place-cell l key pre t rest r in
      let (nx, run, inside, outside) = unlink_loop-cells t prev at (l.node t).level l₂ 0 (λ j _ h.
        let k : j < (l.node t).level = omega arith in
        record {
          found = marked.low j (omega (arith, fits.0)) k;
          room = (cell j k).1;
          room_target = k;
          points = (cell j k).0;
          other = place-ne l key pre t rest r j;
        }) in
      let first : target_node l₁ prev ≡ some t = ground (
        arith,
        marked.low 0 (omega arith) (omega (arith, fits.0)),
        cell 0 (omega (arith, fits.0)),
      ) in
      (
        done l key pre t rest r nx inside outside,
        pre ++ rest,
        rw (walk, ◌>>=◌, first) run,
        done-Represents l key pre t rest r nx inside outside (compare_bytes-eq _ _ hit),
        entries_without l key pre t rest b hit,
      )
