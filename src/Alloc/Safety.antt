-- ===== src/Alloc/Safety.antt =====
-- What the allocator promises (src/memory/allocate.cpp): a block that is handed out overlaps no
-- block in use.
use smallkv.Base.{
  ℕ, ◌+◌, ◌≤◌, ◌<◌, ◌≡◌, ◌≢◌, refl, sym, ◌∙◌, false, ◌&&◌, Option, none, some, List, [], ◌∷◌, All,
  arith, ltb, leb, ◌==◌, if◌then◌else◌, Option-cases, inl, inr, if_false,
}
use smallkv.Base.Maybe.{◌>>=◌}
use smallkv.Alloc.{
  FreeListAllocate, max_obj_size, chunk_size, get_index, block_size, pop, fill_slot, take_block,
  new_allocator, allocate, deallocate,
}
use smallkv.Alloc.Owners.{
  outside, pool, idle, used, Owners, Region, retag, retag_in, retag_out, Linked, set_free,
  push-Owned, pop-Owned,
}
use smallkv.Alloc.Fill.{SameUsed-refl, start_of, IsAllocator, HasBlock, HasBlock-of}
use smallkv.Alloc.Refill.{fill_room, fill_refill}
use mathlib.Core.Path.{subst}

-- When a request can be served: the slot has a block, or the pool has room for one, or the pool is
-- used up to the last byte and `malloc` gives a new one that nobody owns.
pub data CanServe {Heap : Type 0} (malloc : Heap → ℕ → Heap × Option ℕ) (s : FreeListAllocate Heap)
    (slot_index : ℕ) (o : Owners) : Type 0 where
  ready : (p : ℕ) → s.memory_slot slot_index ≡ some p → CanServe malloc s slot_index o
  room : block_size slot_index ≤ s.mem_pool_size → CanServe malloc s slot_index o
  refill :
      (h : Heap) (chunk : ℕ)
      → s.mem_pool_size ≡ 0
      → malloc s.heap chunk_size ≡ (h, some chunk)
      → ((a : ℕ) → chunk ≤ a → a < chunk + chunk_size → o a ≡ outside)
      → CanServe malloc s slot_index o

-- A request that ends with a block: it is large enough, none of its bytes was in use, and what was
-- in use still is.
pub record Served {Heap : Type 0} (r : Option (FreeListAllocate Heap × Option ℕ)) (n : ℕ)
    (o : Owners) : Type 0 where
  pub result : FreeListAllocate Heap
  pub block : ℕ
  pub free : ℕ → List ℕ
  pub owners : Owners
  pub run : r ≡ some (result, some block)
  pub well : IsAllocator result free owners
  pub mine : Region owners (used block (get_index n)) block (get_index n)
  pub enough : n ≤ block_size (get_index n)
  pub apart :
      (a : ℕ) → block ≤ a → a < block + block_size (get_index n) → (q j : ℕ) → o a ≢ used q j
  pub kept : (a q j : ℕ) → o a ≡ used q j → owners a ≡ used q j

module _ {Heap : Type 0} (malloc : Heap → ℕ → Heap × Option ℕ) where
  -- A slot with a block needs no filling.
  head_block :
      (s : FreeListAllocate Heap) (free : ℕ → List ℕ) (o : Owners) (i p : ℕ)
      → IsAllocator s free o
      → s.memory_slot i ≡ some p
      → (ps : List ℕ) × (free i ≡ p ∷ ps)
  head_block s free o i p w e = go (free i) refl (w.owned.linked i)
    where
      go :
          (l : List ℕ)
          → free i ≡ l
          → Linked s.next (s.memory_slot i) l
          → (ps : List ℕ) × (free i ≡ p ∷ ps)
      go [] f l = absurd (cc (l, e))
      go (q ∷ ps) f l = (ps, cc (f, l.0, e))

  serve :
      (s : FreeListAllocate Heap) (free : ℕ → List ℕ) (o : Owners) (i : ℕ)
      → IsAllocator s free o
      → block_size i ≤ max_obj_size
      → CanServe malloc s i o
      → HasBlock (elim (s.memory_slot i) [ none ↦ fill_slot malloc 2 i s | some head ↦ some s ]) i o
  serve s free o i w small c = elim (Option-cases (s.memory_slot i)) [
    | inr (p, e) ↦
        let (ps, f) = head_block s free o i p w e in
        record {
          result = s;
          run = rw e refl;
          free = free;
          owners = o;
          well = w;
          same = SameUsed-refl o;
          node = p;
          rest = ps;
          some_block = f;
        }
    | inl e ↦ HasBlock-of _ _ i o (rw e refl) (go c e)
  ]
    where
      go : CanServe malloc s i o → s.memory_slot i ≡ none → HasBlock (fill_slot malloc 2 i s) i o
      go (ready p f) e = absurd (cc (e, f))
      go (room h) e = fill_room malloc 1 i s free o w h
      go (refill h chunk empty run fresh) e =
          fill_refill malloc 0 i s free o h chunk w small empty run fresh

  -- On a well-formed allocator, a request for 1 to MAX_OBJ_SIZE bytes that can be served (its slot
  -- has a block, or the pool has room for one, or the pool is used up and malloc gives a chunk that
  -- nobody owns) ends with a block that is large enough and that overlaps no block in use; what was
  -- in use still is, and the allocator stays well formed.
  pub allocate-Served :
      (s : FreeListAllocate Heap) (free : ℕ → List ℕ) (o : Owners) (n : ℕ)
      → IsAllocator s free o
      → 0 < n
      → n ≤ max_obj_size
      → CanServe malloc s (get_index n) o
      → Served (allocate malloc s n) n o
  unfolding allocate take_block
  allocate-Served s free o n w some_bytes small c =
      let i = get_index n in
      let b = serve s free o i w (omega arith) c in
      let linked =
        subst (λ l. Linked b.result.next (b.result.memory_slot i) l) b.some_block
          (b.well.owned.linked i) in
      let mine =
        subst (λ l. All (λ p. Region b.owners (idle p i) p i) l) b.some_block
          (b.well.owned.free_blocks i) in
      let t₁ : (n == 0) ≡ false = ground arith in
      let t₂ : ltb max_obj_size n ≡ false = ground arith in
      let popped =
        pop-Owned b.result (start_of b.result.mem_pool_start) b.result.mem_pool_size b.free b.owners
          b.well.owned i b.node b.rest b.some_block in
      record {
        result = pop b.result i b.node;
        block = b.node;
        free = set_free b.free i b.rest;
        owners = retag b.owners (used b.node i) b.node i;
        run = if_false _ _ _ t₁ ∙ if_false _ _ _ t₂ ∙ rw (b.run, ◌>>=◌) (rw (linked.0, ◌>>=◌) refl);
        well = record {
          owned = record {
            linked = popped.linked;
            free_blocks = popped.free_blocks;
            distinct = popped.distinct;
            pooled = popped.pooled;
          };
          backed = b.well.backed;
        };
        mine = λ a k l. retag_in b.owners (used b.node i) b.node i a k l;
        enough = omega arith;
        apart = λ a k l q j e. cc (b.same.forth a q j e, mine.0 a k l);
        kept = λ a q j e.
            retag_out b.owners (idle b.node i) (used b.node i) b.node i a mine.0
              (λ f. cc (b.same.forth a q j e, f))
            ∙ b.same.forth a q j e;
      }

module _ {Heap : Type 0} (free_heap : Heap → ℕ → Heap) where
  -- Deallocate of a block in use, with a size of its slot from 1 to MAX_OBJ_SIZE, keeps the
  -- allocator well formed: the block is at the head of the free list of its slot, and its bytes are
  -- idle.
  pub deallocate-IsAllocator :
      (s : FreeListAllocate Heap) (free : ℕ → List ℕ) (o : Owners) (p n : ℕ)
      → IsAllocator s free o
      → 0 < n
      → n ≤ max_obj_size
      → Region o (used p (get_index n)) p (get_index n)
      → IsAllocator
          (deallocate free_heap s (some p) n)
          (set_free free (get_index n) (p ∷ free (get_index n)))
          (retag o (idle p (get_index n)) p (get_index n))
  unfolding deallocate
  deallocate-IsAllocator s free o p n w some_bytes small r =
      let i = get_index n in
      let t₁ : (n == 0) ≡ false = ground arith in
      let t₂ : ltb max_obj_size n ≡ false = ground arith in
      let pushed =
        push-Owned s (start_of s.mem_pool_start) s.mem_pool_size free o w.owned i p (used p i)
          (start_of s.mem_pool_start) s.mem_pool_size r (λ q j e. absurd (cc e))
          (λ a h k.
            retag_out o (used p i) (idle p i) p i a r (λ e. absurd (cc (e, w.owned.pooled a h k)))
            ∙ w.owned.pooled a h k) in
      subst
        (λ (t : FreeListAllocate Heap).
          IsAllocator t (set_free free i (p ∷ free i)) (retag o (idle p i) p i))
        (sym (if_false _ _ _ t₁ ∙ if_false _ _ _ t₂)) (record { owned = pushed; backed = w.backed })

-- The owners when only the first pool is there.
abbrev pub first_pool : ℕ → Owners
first_pool chunk a = if leb chunk a && ltb a (chunk + chunk_size) then pool else outside

-- The constructor makes a well-formed allocator, if `malloc` gives it its pool.
pub new_allocator-IsAllocator :
    {Heap : Type 0} (malloc : Heap → ℕ → Heap × Option ℕ) (h h' : Heap) (chunk : ℕ)
    → malloc h chunk_size ≡ (h', some chunk)
    → IsAllocator (new_allocator malloc h) (λ i. []) (first_pool chunk)
unfolding new_allocator
new_allocator-IsAllocator malloc h h' chunk e =
    subst
      (λ t.
        IsAllocator
          (record {
            memory_slot = λ i. none;
            next = λ p. none;
            mem_pool_start = t.1;
            mem_pool_size = chunk_size;
            heap = t.0;
          })
          (λ i. []) (first_pool chunk))
      (sym e)
      (record {
        owned = record {
          linked = λ i. refl;
          free_blocks = λ i. tt;
          distinct = λ i. tt;
          pooled = λ a k l. ground arith;
        };
        backed = λ f. absurd (cc f);
      })
