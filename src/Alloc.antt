-- ===== src/Alloc.antt =====
-- The allocator of small blocks (src/memory/allocate.h, src/memory/allocate.cpp). An address is a
-- number, a null pointer is `none`, and `next p` is the cell that `BlockNode` lays over a block at
-- `p`. The system allocator is a parameter: `malloc heap n` gives the heap after it and the address,
-- `free heap p` the heap after it. Sizes are numbers that are not negative: for a negative one the
-- code does what it does for zero, in `Allocate`. `none` as a result is a fault: a null pointer
-- followed or a failed assertion.
pub mod Owners
pub mod Fill
pub mod Refill
pub mod Safety
pub mod Faults
use smallkv.Base.{
  ℕ, zero, suc, ◌+◌, ◌-◌, ◌*◌, ◌/◌, ◌%◌, Bool, true, false, Option, none, some, ltb, leb, ◌==◌,
  is_some, if◌then◌else◌,
}
use smallkv.Base.Maybe.{◌>>=◌}

abbrev pub max_obj_size : ℕ
max_obj_size = 4096

-- CHUNK_SIZE
abbrev pub chunk_size : ℕ
chunk_size = 4194304

abbrev pub fill_block_cnt : ℕ
fill_block_cnt = 10

pub record FreeListAllocate (Heap : Type 0) : Type 0 where
  pub memory_slot : ℕ → Option ℕ
  pub next : ℕ → Option ℕ
  pub mem_pool_start : Option ℕ
  pub mem_pool_size : ℕ
  pub heap : Heap

-- `get_index`, for a size that is not zero.
abbrev pub get_index : ℕ → ℕ
get_index n = (n + 7) / 8 - 1

-- The size of the blocks of a slot.
abbrev pub block_size : ℕ → ℕ
block_size slot_index = (slot_index + 1) * 8

module _ {Heap : Type 0} where
  -- `node->next = memory_slot[i]; memory_slot[i] = node`
  abbrev pub push : FreeListAllocate Heap → ℕ → ℕ → FreeListAllocate Heap
  push s i node = record s {
    next = λ p. if p == node then s.memory_slot i else s.next p;
    memory_slot = λ j. if j == i then some node else s.memory_slot j;
  }

  -- `memory_slot[i] = node->next`
  abbrev pub pop : FreeListAllocate Heap → ℕ → ℕ → FreeListAllocate Heap
  pop s i node = record s { memory_slot = λ j. if j == i then s.next node else s.memory_slot j }

  -- The loop that cuts blocks off the pool; the first argument counts the rounds left.
  unfoldable pub carve_loop :
      ℕ → (start slot_index i : ℕ) → FreeListAllocate Heap → FreeListAllocate Heap
  carve_loop zero start slot_index i s = s
  carve_loop (suc n) start slot_index i s =
      carve_loop n start slot_index (suc i) (push s slot_index (start + i * block_size slot_index))

  -- The loop, and the pool that it leaves.
  unfoldable pub carve : ℕ → ℕ → FreeListAllocate Heap → Option (FreeListAllocate Heap)
  unfolding carve_loop
  carve cnt slot_index s = s.mem_pool_start >>= λ start.
      some (record (carve_loop cnt start slot_index 0 s) {
        mem_pool_start = some (start + cnt * block_size slot_index);
        mem_pool_size = s.mem_pool_size - cnt * block_size slot_index;
      })

  -- What is left of the pool goes to the slot of its size: behind the head of that slot.
  unfoldable pub spare_rest : FreeListAllocate Heap → Option (FreeListAllocate Heap)
  spare_rest s =
      let target = get_index s.mem_pool_size in
      if ltb s.mem_pool_size 8
      then some s
      else s.mem_pool_start >>= (λ node. s.memory_slot target >>= λ top. some (record s {
        next = λ p.
            if p == top then some node else if p == node then s.memory_slot target else s.next p;
        mem_pool_start = none;
        mem_pool_size = 0;
      }))

module _ {Heap : Type 0} (malloc : Heap → ℕ → Heap × Option ℕ) where
  unfoldable pub new_allocator : Heap → FreeListAllocate Heap
  new_allocator h =
      let (h', start) = malloc h chunk_size in
      record {
        memory_slot = λ i. none;
        next = λ p. none;
        mem_pool_start = start;
        mem_pool_size = chunk_size;
        heap = h';
      }

  -- Where `malloc` fails, the size of the pool stays what it was.
  unfoldable pub fill_mem_pool : FreeListAllocate Heap → FreeListAllocate Heap
  fill_mem_pool s =
      let (h, start) = malloc s.heap chunk_size in
      record s {
        heap = h;
        mem_pool_start = start;
        mem_pool_size = if is_some start then chunk_size else s.mem_pool_size;
      }

  -- The code calls itself once the pool is filled; two rounds are enough where `malloc` succeeds.
  unfoldable pub fill_slot : ℕ → ℕ → FreeListAllocate Heap → Option (FreeListAllocate Heap)
  unfolding carve spare_rest fill_mem_pool
  fill_slot zero slot_index s = none
  fill_slot (suc fuel) slot_index s =
      let refilled : Option (FreeListAllocate Heap) =
        spare_rest s >>= λ s'. fill_slot fuel slot_index (fill_mem_pool s') in
      if leb (fill_block_cnt * block_size slot_index) s.mem_pool_size
      then carve fill_block_cnt slot_index s
      else if leb (block_size slot_index) s.mem_pool_size
      then carve (s.mem_pool_size / block_size slot_index) slot_index s
      else if s.mem_pool_size % 8 == 0
      then refilled
      else none

  unfoldable pub take_block : FreeListAllocate Heap → ℕ → Option (FreeListAllocate Heap × Option ℕ)
  take_block s i = s.memory_slot i >>= λ ret. some (pop s i ret, some ret)

  unfoldable pub allocate : FreeListAllocate Heap → ℕ → Option (FreeListAllocate Heap × Option ℕ)
  unfolding fill_slot take_block
  allocate s n =
      if n == 0
      then some (s, none)
      else if ltb max_obj_size n
      then (let (h, p) = malloc s.heap n in some (record s { heap = h }, p))
      else (elim (s.memory_slot (get_index n)) [
        | none ↦ fill_slot 2 (get_index n) s
        | some head ↦ some s
      ])
        >>= (λ s'. take_block s' (get_index n))

module _ {Heap : Type 0} (free : Heap → ℕ → Heap) where
  unfoldable pub deallocate : FreeListAllocate Heap → Option ℕ → ℕ → FreeListAllocate Heap
  deallocate s none n = s
  deallocate s (some p) n =
      if n == 0
      then s
      else if ltb max_obj_size n
      then record s { heap = free s.heap p }
      else push s (get_index n) p

module _ {Heap : Type 0} (malloc : Heap → ℕ → Heap × Option ℕ) (free : Heap → ℕ → Heap) where
  unfoldable pub reallocate :
      FreeListAllocate Heap → Option ℕ → ℕ → ℕ → Option (FreeListAllocate Heap × Option ℕ)
  unfolding allocate deallocate
  reallocate s p old_size new_size = allocate malloc (deallocate free s p old_size) new_size
