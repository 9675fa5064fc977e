-- ===== src/Alloc/Faults.antt =====
-- Where the allocator breaks (src/memory/allocate.cpp): the rest of a pool that is too small for a
-- block goes behind the head of the slot of its size, which may be null.
use smallkv.Base.{
  ℕ, suc, ◌*◌, ◌%◌, ◌≤◌, ◌<◌, ◌≡◌, refl, ◌∙◌, Bool, true, false, Option, none, some, arith, ltb,
  leb, ◌==◌, if◌then◌else◌, if_false,
}
use smallkv.Base.Maybe.{◌>>=◌}
use smallkv.Alloc.{
  FreeListAllocate, max_obj_size, fill_block_cnt, get_index, block_size, spare_rest, fill_slot,
  allocate,
}

module _ {Heap : Type 0} (malloc : Heap → ℕ → Heap × Option ℕ) where
  spare_rest-faults :
      (s : FreeListAllocate Heap)
      → 8 ≤ s.mem_pool_size
      → s.memory_slot (get_index s.mem_pool_size) ≡ none
      → spare_rest s ≡ none
  unfolding spare_rest
  spare_rest-faults s rest bare =
      let t : ltb s.mem_pool_size 8 ≡ false = ground arith in if_false _ _ _ t ∙ go s.mem_pool_start
    where
      go :
          (start : Option ℕ)
          → (start >>= λ node. s.memory_slot (get_index s.mem_pool_size) >>= λ top. some (record s {
            next = λ p.
                if p == top
                then some node
                else if p == node
                then s.memory_slot (get_index s.mem_pool_size)
                else s.next p;
            mem_pool_start = none;
            mem_pool_size = 0;
          }))
            ≡ none
      go none = refl
      go (some node) = rw bare refl

  fill_slot-faults :
      (fuel i : ℕ) (s : FreeListAllocate Heap)
      → 8 ≤ s.mem_pool_size
      → s.mem_pool_size < block_size i
      → s.memory_slot (get_index s.mem_pool_size) ≡ none
      → fill_slot malloc (suc fuel) i s ≡ none
  unfolding fill_slot
  fill_slot-faults fuel i s rest less bare =
      let t₁ : leb (fill_block_cnt * block_size i) s.mem_pool_size ≡ false = ground arith in
      let t₂ : leb (block_size i) s.mem_pool_size ≡ false = ground arith in
      if_false _ _ _ t₁
      ∙ if_false _ _ _ t₂
      ∙ rw (spare_rest-faults s rest bare, ◌>>=◌) (go (s.mem_pool_size % 8 == 0))
    where
      go : (b : Bool) → ◌≡◌ {A = Option (FreeListAllocate Heap)} (if b then none else none) none
      go true = refl
      go false = refl

  -- A request for 1 to MAX_OBJ_SIZE bytes whose slot is empty faults, if the rest of the pool is
  -- smaller than a block but not below eight bytes and the slot of its size is empty: the rest is
  -- hung behind a null head.
  pub allocate-faults :
      (s : FreeListAllocate Heap) (n : ℕ)
      → 0 < n
      → n ≤ max_obj_size
      → s.memory_slot (get_index n) ≡ none
      → 8 ≤ s.mem_pool_size
      → s.mem_pool_size < block_size (get_index n)
      → s.memory_slot (get_index s.mem_pool_size) ≡ none
      → allocate malloc s n ≡ none
  unfolding allocate
  allocate-faults s n some_bytes small empty rest less bare =
      let t₁ : (n == 0) ≡ false = ground arith in
      let t₂ : ltb max_obj_size n ≡ false = ground arith in
      if_false _ _ _ t₁
      ∙ if_false _ _ _ t₂
      ∙ rw (empty, fill_slot-faults 1 (get_index n) s rest less bare, ◌>>=◌) refl
