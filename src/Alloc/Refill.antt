-- ===== src/Alloc/Refill.antt =====
-- How the allocator (src/memory/allocate.cpp) fills a slot: from the pool, or from a new pool.
use smallkv.Base.{
  ℕ, suc, ◌+◌, ◌-◌, ◌*◌, ◌/◌, ◌%◌, ◌≤◌, ◌<◌, ◌≡◌, refl, ap, ◌∙◌, true, false, ◌&&◌, Option, some,
  List, [], ◌∷◌, All, arith, ltb, leb, ◌==◌, if◌then◌else◌, Bool-cases, Option-cases, inl, inr,
  leb→le, if_true, if_false,
}
use smallkv.Base.Maybe.{◌>>=◌}
use smallkv.Alloc.{
  FreeListAllocate, max_obj_size, chunk_size, fill_block_cnt, block_size, carve, spare_rest,
  fill_mem_pool, fill_slot,
}
use smallkv.Alloc.Owners.{outside, pool, idle, Owners, Region, Owned}
use smallkv.Alloc.Fill.{
  SameUsed, SameUsed-trans, start_of, IsAllocator, HasBlock, HasBlock-of, carve-HasBlock,
}
use mathlib.Core.Path.{subst}
use native.Mathlib.Nat.{div-mul-le_self, le-div_iff_mul-le}

-- A number of blocks that is not zero, as the quotient by the size of a block.
quotient : (size b : ℕ) → 0 < b → b ≤ size → (n : ℕ) × (size / b ≡ suc n) × (suc n * b ≤ size)
quotient size b h k =
    let some_block : 1 ≤ size / b = (le-div_iff_mul-le h).1 (omega arith) in
    let e : size / b ≡ suc (size / b - 1) = omega arith in
    (size / b - 1, e, subst (λ t. t * b ≤ size) e (div-mul-le_self size b))

module _ {Heap : Type 0} (malloc : Heap → ℕ → Heap × Option ℕ) where
  -- With room for a block in the pool the slot is filled at once.
  pub fill_room :
      (fuel slot_index : ℕ) (s : FreeListAllocate Heap) (free : ℕ → List ℕ) (o : Owners)
      → IsAllocator s free o
      → block_size slot_index ≤ s.mem_pool_size
      → HasBlock (fill_slot malloc (suc fuel) slot_index s) slot_index o
  unfolding fill_slot
  fill_room fuel i s free o w h = elim (Option-cases s.mem_pool_start) [
    | inl e ↦ absurd (omega (arith, w.backed e))
    | inr (start, e) ↦
        let owned : Owned s start s.mem_pool_size free o =
          subst (λ t. Owned s (start_of t) s.mem_pool_size free o) e w.owned in
        elim (Bool-cases (leb (fill_block_cnt * block_size i) s.mem_pool_size)) [
          | inl t ↦
              HasBlock-of _ _ i o (if_true _ _ _ t)
                (carve-HasBlock i 9 start s free o e owned (leb→le _ _ t))
          | inr f ↦
              let (n, q, fits) = quotient s.mem_pool_size (block_size i) (omega arith) h in
              let one : leb (block_size i) s.mem_pool_size ≡ true = ground arith in
              HasBlock-of _ _ i o (if_false _ _ _ f ∙ if_true _ _ _ one ∙ ap (λ c. carve c i s) q)
                (carve-HasBlock i n start s free o e owned fits)
        ]
  ]

  -- An empty pool is filled first.
  fill_slot_step :
      (fuel slot_index : ℕ) (s : FreeListAllocate Heap) (h : Heap) (chunk : ℕ)
      → s.mem_pool_size ≡ 0
      → malloc s.heap chunk_size ≡ (h, some chunk)
      → fill_slot malloc (suc fuel) slot_index s
        ≡ fill_slot malloc fuel slot_index
            (record s { heap = h; mem_pool_start = some chunk; mem_pool_size = chunk_size })
  unfolding fill_slot spare_rest fill_mem_pool
  fill_slot_step fuel i s h chunk empty run =
      let t₁ : leb (fill_block_cnt * block_size i) s.mem_pool_size ≡ false = ground arith in
      let t₂ : leb (block_size i) s.mem_pool_size ≡ false = ground arith in
      let t₃ : (s.mem_pool_size % 8 == 0) ≡ true = ground arith in
      let t₄ : ltb s.mem_pool_size 8 ≡ true = ground arith in
      rw (t₁, t₂, t₃, t₄, ◌>>=◌) (rw run refl)

  -- The owners once a new pool is there.
  open_pool : Owners → ℕ → Owners
  open_pool o chunk a = if leb chunk a && ltb a (chunk + chunk_size) then pool else o a

  -- An idle block is not in the new pool.
  idle_kept :
      (o : Owners) (chunk i : ℕ) (ps : List ℕ)
      → ((a : ℕ) → chunk ≤ a → a < chunk + chunk_size → o a ≡ outside)
      → All (λ p. Region o (idle p i) p i) ps
      → All (λ p. Region (open_pool o chunk) (idle p i) p i) ps
  unfolding open_pool
  idle_kept o chunk i [] fresh r = tt
  idle_kept o chunk i (p ∷ ps) fresh r =
      ((λ a k l. ground (arith, fresh a, r.0 a)), idle_kept o chunk i ps fresh r.1)

  -- Filling a slot on a well-formed allocator whose pool is used up ends after one call of itself
  -- with a block in the slot, and the same bytes in use, if malloc gives a chunk that nobody owns.
  pub fill_refill :
      (fuel slot_index : ℕ) (s : FreeListAllocate Heap) (free : ℕ → List ℕ) (o : Owners) (h : Heap)
      (chunk : ℕ)
      → IsAllocator s free o
      → block_size slot_index ≤ max_obj_size
      → s.mem_pool_size ≡ 0
      → malloc s.heap chunk_size ≡ (h, some chunk)
      → ((a : ℕ) → chunk ≤ a → a < chunk + chunk_size → o a ≡ outside)
      → HasBlock (fill_slot malloc (suc (suc fuel)) slot_index s) slot_index o
  unfolding open_pool
  fill_refill fuel i s free o h chunk w small empty run fresh =
      let s' : FreeListAllocate Heap = record s {
        heap = h;
        mem_pool_start = some chunk;
        mem_pool_size = chunk_size;
      } in
      let opened : IsAllocator s' free (open_pool o chunk) = record {
        owned = record {
          linked = w.owned.linked;
          free_blocks = λ j. idle_kept o chunk j (free j) fresh (w.owned.free_blocks j);
          distinct = w.owned.distinct;
          pooled = λ a k l. ground arith;
        };
        backed = λ e. absurd (cc e);
      } in
      let same : SameUsed o (open_pool o chunk) = record {
        forth = λ a p j e. ground (arith, fresh a, e);
        back = λ a p j e. ground (arith, fresh a, e);
      } in
      let b = fill_room fuel i s' free (open_pool o chunk) opened (omega arith) in
      record {
        result = b.result;
        run = fill_slot_step (suc fuel) i s h chunk empty run ∙ b.run;
        free = b.free;
        owners = b.owners;
        well = b.well;
        same = SameUsed-trans o (open_pool o chunk) b.owners same b.same;
        node = b.node;
        rest = b.rest;
        some_block = b.some_block;
      }
