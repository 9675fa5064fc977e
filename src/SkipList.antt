-- ===== src/SkipList.antt =====
-- The skip list of src/memtable/skiplist.h, with `Key` and `Value` the `std::string` that the
-- memtable instantiates it with. Nodes stand on an explicit heap: `node p` holds the fields of the
-- node at `p`, and `next p i` the cell `p->next[i]`. A node is never freed, so `fresh` only grows.
-- `none` as a result is a fault: a null pointer followed, an index out of a `next` vector, or a
-- failed assertion. The search loops run on fuel, and running out of it is `none` too.
pub mod Chain
pub mod Search
pub mod Prev
pub mod Link
pub mod Towers
pub mod Grow
pub mod Entries
pub mod Insert
pub mod Unlink
pub mod Shrink
pub mod Delete
pub mod Refine
pub mod Laws
pub mod Iterator
use smallkv.Base.{
  ℕ, zero, suc, ◌+◌, ◌-◌, ◌%◌, ◌≡◌, Bool, true, false, ◌&&◌, Option, none, some, List, [], ◌∷◌,
  length, ltb, ◌==◌, if◌then◌else◌, max,
}
use smallkv.Base.Maybe.{◌>>=◌}
use smallkv.Base.Bytes.{Bytes, Order, lt, eq, gt, compare_bytes}

abbrev pub Ptr : Type 0
Ptr = ℕ

-- SkipListConfig::kMaxHeight
abbrev pub max_height : ℕ
max_height = 12

-- `level` is `next.size()`.
pub record Node : Type 0 where
  pub key : Bytes
  pub value : Bytes
  pub level : ℕ

abbrev pub Cells : Type 0
Cells = Ptr → ℕ → Option Ptr

pub record SkipList : Type 0 where
  pub node : Ptr → Node
  pub next : Cells
  pub fresh : Ptr
  pub max_level : ℕ
  pub size : ℕ
  pub mem_usage : ℕ

-- The head node.
abbrev pub head : Ptr
head = 0

-- The constructor: one node of full height, with every cell null.
unfoldable pub init : SkipList
init = record {
  node = λ p. record { key = []; value = []; level = max_height };
  next = λ p i. none;
  fresh = 1;
  max_level = 1;
  size = 0;
  mem_usage = 0;
}

-- `p->next[i]`, an index out of the vector being a fault.
unfoldable pub next_at : SkipList → Ptr → ℕ → Option (Option Ptr)
next_at l p i = if ltb i (l.node p).level then some (l.next p i) else none

-- `p->next[i] = v`, on the cells.
abbrev pub set_cell : Cells → Ptr → ℕ → Option Ptr → Cells
set_cell nx p i v q j = if (q == p) && (j == i) then v else nx q j

-- A walk to the right or down at every round: this many are enough.
abbrev pub fuel_for : SkipList → ℕ
fuel_for l = l.size + l.max_level + 1

-- Contains and Get share the walk; `found` is what a hit returns.
unfoldable pub contains_loop : ℕ → SkipList → Bytes → Ptr → ℕ → Option Bool
contains_loop zero l key cur level = none
contains_loop (suc fuel) l key cur level = next_at l cur level >>= elim [
  | none ↦ elim level [ zero ↦ some false | suc lower ↦ contains_loop fuel l key cur lower ]
  | some q ↦ elim (compare_bytes (l.node q).key key) [
    | eq ↦ some true
    | lt ↦ contains_loop fuel l key q level
    | gt ↦ elim level [ zero ↦ some false | suc lower ↦ contains_loop fuel l key cur lower ]
  ]
]

unfoldable pub contains : SkipList → Bytes → Option Bool
contains l key = contains_loop (fuel_for l) l key head (l.max_level - 1)

unfoldable pub get_loop : ℕ → SkipList → Bytes → Ptr → ℕ → Option (Option Bytes)
get_loop zero l key cur level = none
get_loop (suc fuel) l key cur level = next_at l cur level >>= elim [
  | none ↦ elim level [ zero ↦ some none | suc lower ↦ get_loop fuel l key cur lower ]
  | some q ↦ elim (compare_bytes (l.node q).key key) [
    | eq ↦ some (some (l.node q).value)
    | lt ↦ get_loop fuel l key q level
    | gt ↦ elim level [ zero ↦ some none | suc lower ↦ get_loop fuel l key cur lower ]
  ]
]

unfoldable pub get : SkipList → Bytes → Option (Option Bytes)
get l key = get_loop (fuel_for l) l key head (l.max_level - 1)

-- The vector `prev`, null at first.
abbrev pub Prev : Type 0
Prev = ℕ → Option Ptr

abbrev pub no_prev : Prev
no_prev i = none

abbrev pub set_prev : Prev → ℕ → Ptr → Prev
set_prev prev i p j = if j == i then some p else prev j

unfoldable pub find_prev_loop : ℕ → SkipList → Bytes → Ptr → ℕ → Prev → Option Prev
find_prev_loop zero l key cur level prev = none
find_prev_loop (suc fuel) l key cur level prev =
    let prev' = set_prev prev level cur in
    next_at l cur level >>= elim [
      | none ↦ elim level [
        | zero ↦ some prev'
        | suc lower ↦ find_prev_loop fuel l key cur lower prev'
      ]
      | some q ↦ elim (compare_bytes (l.node q).key key) [
        | lt ↦ find_prev_loop fuel l key q level prev
        | eq ↦ elim level [
          | zero ↦ some prev'
          | suc lower ↦ find_prev_loop fuel l key cur lower prev'
        ]
        | gt ↦ elim level [
          | zero ↦ some prev'
          | suc lower ↦ find_prev_loop fuel l key cur lower prev'
        ]
      ]
    ]

unfoldable pub find_prev_node : SkipList → Bytes → Prev → Option Prev
find_prev_node l key prev = find_prev_loop (fuel_for l) l key head (l.max_level - 1) prev

-- `rand i` is what the i-th call of `rand()` returns from here on. The loop has at most
-- `max_height` rounds, its fuel.
unfoldable pub random_level_loop : ℕ → (ℕ → ℕ) → ℕ → ℕ
random_level_loop zero rand level = level
random_level_loop (suc fuel) rand level =
    let higher = random_level_loop fuel (λ i. rand (suc i)) (level + 1) in
    if ltb level max_height && (rand 0 % 2 == 1) then higher else level

unfoldable pub random_level : (ℕ → ℕ) → ℕ
random_level rand = random_level_loop max_height rand 1

-- `p->next[i] = v`
abbrev pub set_next : SkipList → Ptr → ℕ → Option Ptr → Option SkipList
set_next l p i v =
    if ltb i (l.node p).level then some (record l { next = set_cell l.next p i v }) else none

-- One round of the loop that links the new node in.
unfoldable pub link_at : SkipList → Ptr → Prev → ℕ → Option SkipList
link_at l new prev i = elim (prev i) [
  | none ↦ set_next l new i none >>= λ l'. set_next l' head i (some new)
  | some p ↦ next_at l p i >>= λ q. set_next l new i q >>= λ l'. set_next l' p i (some new)
]

-- The rounds `i`, `i + 1`, … of it; the first argument counts the rounds left.
unfoldable pub link_loop : ℕ → SkipList → Ptr → Prev → ℕ → Option SkipList
link_loop zero l new prev i = some l
link_loop (suc k) l new prev i = link_at l new prev i >>= λ l'. link_loop k l' new prev (suc i)

-- `new Node(key, level, value)`, with every cell null
unfoldable pub new_node : SkipList → Bytes → ℕ → Bytes → SkipList
new_node l key level value = record l {
  node = λ p. if p == l.fresh then record { key = key; value = value; level = level } else l.node p;
  next = λ p i. if p == l.fresh then none else l.next p i;
  fresh = l.fresh + 1;
}

-- What `Insert` does once the key is known to be new.
unfoldable pub insert_new : SkipList → Bytes → Bytes → (ℕ → ℕ) → Option SkipList
insert_new l₀ key value rand =
    let l₁ = record l₀ {
      size = l₀.size + 1;
      mem_usage = l₀.mem_usage + length key + length value;
    } in
    find_prev_node l₁ key no_prev >>= λ prev.
    let level = random_level rand in
    let l₂ = new_node (record l₁ { max_level = max level l₁.max_level }) key level value in
    link_loop level l₂ l₀.fresh prev 0

unfoldable pub insert : SkipList → Bytes → Bytes → (ℕ → ℕ) → Option SkipList
insert l key value rand =
    contains l key >>= λ present. if present then some l else insert_new l key value rand

-- The walk of `Delete`; the result is `prev` and `level_of_target_node`, `none` for its -1.
unfoldable pub delete_loop :
    ℕ → SkipList → Bytes → Ptr → ℕ → Prev → Option ℕ → Option (Prev × Option ℕ)
delete_loop zero l key cur level prev target = none
delete_loop (suc fuel) l key cur level prev target =
    let prev' = set_prev prev level cur in
    next_at l cur level >>= elim [
      | none ↦ elim level [
        | zero ↦ some (prev, target)
        | suc lower ↦ delete_loop fuel l key cur lower prev target
      ]
      | some q ↦
          let target' = some (l.node q).level in
          elim (compare_bytes (l.node q).key key) [
            | lt ↦ delete_loop fuel l key q level prev target
            | eq ↦ elim level [
              | zero ↦ some (prev', target')
              | suc lower ↦ delete_loop fuel l key cur lower prev' target'
            ]
            | gt ↦ elim level [
              | zero ↦ some (prev', target)
              | suc lower ↦ delete_loop fuel l key cur lower prev' target
            ]
          ]
    ]

-- One round of the loop that takes the node out, with its assertion.
unfoldable pub unlink_at : SkipList → Prev → ℕ → Option SkipList
unlink_at l prev i = elim (prev i) [
  | none ↦ some l
  | some p ↦
      next_at l p i >>= elim [ none ↦ none | some q ↦ next_at l q i >>= λ r. set_next l p i r ]
]

unfoldable pub unlink_loop : ℕ → SkipList → Prev → ℕ → Option SkipList
unlink_loop zero l prev i = some l
unlink_loop (suc k) l prev i = unlink_at l prev i >>= λ l'. unlink_loop k l' prev (suc i)

-- `prev[0]->next[0]`
unfoldable pub target_node : SkipList → Prev → Option Ptr
target_node l prev = prev 0 >>= λ p. next_at l p 0 >>= λ q. q

-- What `Delete` does once the key is known to be there.
unfoldable pub delete_present : SkipList → Bytes → Option SkipList
delete_present l₀ key =
    let l₁ = record l₀ { size = l₀.size - 1 } in
    delete_loop (fuel_for l₀) l₁ key head (l₁.max_level - 1) no_prev none >>= λ (prev, target).
    target_node l₁ prev >>= λ q.
    let used = l₁.mem_usage - length key - length (l₁.node q).value in
    let l₂ = record l₁ { mem_usage = used } in
    elim target [ none ↦ some l₂ | some rounds ↦ unlink_loop rounds l₂ prev 0 ]

unfoldable pub delete : SkipList → Bytes → Option SkipList
delete l key = contains l key >>= λ present. if present then delete_present l key else some l
