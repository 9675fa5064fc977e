-- ===== src/SkipList/Link.antt =====
-- The loop of `Insert` that links the new node in (src/memtable/skiplist.h), column by column.
use smallkv.Base.{
  ℕ, zero, suc, ◌+◌, ◌≤◌, ◌<◌, ◌≡◌, ◌≢◌, refl, ◌⊎◌, inl, inr, Option, none, some, ◌==◌,
  if◌then◌else◌, arith, Option-cases,
}
use native.Mathlib.Decide.{ℕ_discrete}
use smallkv.SkipList.{Ptr, SkipList, Cells, Prev, head, set_cell, next_at, link_at, link_loop}

-- The node behind which the new one goes on level `j`.
abbrev pub target : Prev → ℕ → Ptr
target prev j = elim (prev j) [ none ↦ head | some p ↦ p ]

-- What the cell `p->next[j]` of the node before the new one held; nothing if there is no such node.
abbrev pub behind : SkipList → Prev → ℕ → Option Ptr
behind l prev j = elim (prev j) [ none ↦ none | some p ↦ l.next p j ]

-- The cells of level `j` with the new node in.
unfoldable pub linked : SkipList → Ptr → Prev → Cells
linked l new prev q j =
    if q == target prev j then some new else if q == new then behind l prev j else l.next q j

-- Level `j` can be linked.
pub record CanLink (l : SkipList) (new : Ptr) (prev : Prev) (j : ℕ) : Type 0 where
  pub room : j < (l.node (target prev j)).level
  pub room_new : j < (l.node new).level
  pub other : target prev j ≢ new

module _ (new : Ptr) (prev : Prev) where
  link_at-linked :
      (l : SkipList) (i : ℕ)
      → CanLink l new prev i
      → (nx : Cells) × (link_at l new prev i ≡ some (record l { next = nx }))
        × ((q : Ptr) (j : ℕ) → nx q j ≡ (if j == i then linked l new prev q j else l.next q j))
  unfolding link_at next_at linked
  link_at-linked l i c = elim (Option-cases (prev i)) [
    | inl e ↦ (
      set_cell (set_cell l.next new i none) head i (some new),
      ground (arith, e, c.room, c.room_new),
      λ q j. ground (arith, e, c.other),
    )
    | inr (p, e) ↦ (
      set_cell (set_cell l.next new i (l.next p i)) p i (some new),
      ground (arith, e, c.room, c.room_new),
      λ q j. ground (arith, e, c.other),
    )
  ]

  -- `k` rounds from `i` on: the loop ends without a fault, and exactly those levels are linked.
  pub link_loop-linked :
      (k : ℕ) (l : SkipList) (i : ℕ)
      → ((j : ℕ) → i ≤ j → j < i + k → CanLink l new prev j)
      → (nx : Cells) × (link_loop k l new prev i ≡ some (record l { next = nx }))
        × ((q : Ptr) (j : ℕ) → i ≤ j → j < i + k → nx q j ≡ linked l new prev q j)
        × ((q : Ptr) (j : ℕ) → (j < i) ⊎ (i + k ≤ j) → nx q j ≡ l.next q j)
  unfolding link_loop linked
  link_loop-linked zero l i can = (l.next, refl, (λ q j h k. absurd (omega arith)), λ q j h. refl)
  link_loop-linked (suc k) l i can =
      let (nx, run, cells) = link_at-linked l i (can i (omega arith) (omega arith)) in
      let l' = record l { next = nx } in
      let (nx', run', inside, outside) = link_loop-linked k l' (suc i) (λ j h m.
        let c = can j (omega arith) (omega arith) in
        record { room = c.room; room_new = c.room_new; other = c.other }) in
      (
        nx',
        ground (arith, run, run'),
        (λ q j h m. elim (ℕ_discrete j i) [
          | yes e ↦ ground (arith, e, outside q j, cells q j)
          | no e ↦ ground (arith, e, inside q j, cells q j, cells (target prev j) j)
        ]),
        λ q j h. ground (arith, h, outside q j, cells q j),
      )
