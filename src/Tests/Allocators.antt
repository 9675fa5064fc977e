-- ===== src/Tests/Allocators.antt =====
-- The allocator (src/memory/allocate.cpp) at concrete inputs, over a heap that is the address of its
-- first free byte.
use smallkv.Base.{ℕ, ◌+◌, ◌≡◌, refl, Option, none, some, List, [], ◌∷◌, arith}
use smallkv.Alloc.{
  FreeListAllocate, chunk_size, get_index, new_allocator, allocate, deallocate, fill_slot,
}
use smallkv.Alloc.Owners.{outside, idle, retag, set_free}
use smallkv.Alloc.Fill.{IsAllocator, HasBlock}
use smallkv.Alloc.Refill.{fill_refill}
use smallkv.Alloc.Safety.{
  CanServe, room, Served, first_pool, allocate-Served, deallocate-IsAllocator,
  new_allocator-IsAllocator,
}
use smallkv.Alloc.Faults.{allocate-faults}

abbrev bump : ℕ → ℕ → ℕ × Option ℕ
bump h n = (h + n, some h)

abbrev no_free : ℕ → ℕ → ℕ
no_free h p = h

abbrev fresh : FreeListAllocate ℕ
fresh = new_allocator bump 8

abbrev no_blocks : ℕ → List ℕ
no_blocks i = []

fresh-IsAllocator : IsAllocator fresh no_blocks (first_pool 8)
fresh-IsAllocator = new_allocator-IsAllocator bump 8 (8 + chunk_size) 8 refl

has_room : CanServe bump fresh (get_index 20) (first_pool 8)
unfolding new_allocator
has_room = room (omega arith)

-- Twenty bytes.
twenty : Served (allocate bump fresh 20) 20 (first_pool 8)
twenty =
    allocate-Served bump fresh no_blocks (first_pool 8) 20 fresh-IsAllocator (omega arith)
      (omega arith) has_room

allocate-Served_example : Served (allocate bump fresh 20) 20 (first_pool 8)
allocate-Served_example =
    allocate-Served bump fresh no_blocks (first_pool 8) 20 fresh-IsAllocator (omega arith)
      (omega arith) has_room

deallocate-IsAllocator_example :
    IsAllocator
      (deallocate no_free twenty.result (some twenty.block) 20)
      (set_free twenty.free 2 (twenty.block ∷ twenty.free 2))
      (retag twenty.owners (idle twenty.block 2) twenty.block 2)
deallocate-IsAllocator_example =
    deallocate-IsAllocator no_free twenty.result twenty.free twenty.owners twenty.block 20
      twenty.well (omega arith) (omega arith) twenty.mine

-- An allocator whose pool is used up, and one with sixteen bytes left.
abbrev empty : FreeListAllocate ℕ
empty = record {
  memory_slot = λ i. none;
  next = λ p. none;
  mem_pool_start = none;
  mem_pool_size = 0;
  heap = 8;
}

empty-IsAllocator : IsAllocator empty no_blocks (λ a. outside)
empty-IsAllocator = record {
  owned = record {
    linked = λ i. refl;
    free_blocks = λ i. tt;
    distinct = λ i. tt;
    pooled = λ a k l. absurd (omega arith);
  };
  backed = λ e. refl;
}

fill_refill_example : HasBlock (fill_slot bump 2 3 empty) 3 (λ a. outside)
fill_refill_example =
    fill_refill bump 0 3 empty no_blocks (λ a. outside) (8 + chunk_size) 8 empty-IsAllocator
      (omega arith) refl refl (λ a h k. refl)

allocate-faults_example :
    allocate bump (record empty { mem_pool_start = some 8; mem_pool_size = 16 }) 20 ≡ none
allocate-faults_example =
    allocate-faults bump (record empty { mem_pool_start = some 8; mem_pool_size = 16 }) 20
      (omega arith) (omega arith) refl (omega arith) (omega arith) refl
