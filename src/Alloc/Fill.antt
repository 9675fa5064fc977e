-- ===== src/Alloc/Fill.antt =====
-- Filling a slot of the allocator (src/memory/allocate.cpp): the blocks come from the pool, and no
-- block in use changes its owner.
use smallkv.Base.{
  ℕ, zero, suc, ◌+◌, ◌-◌, ◌*◌, ◌≤◌, ◌≡◌, refl, sym, ◌∙◌, Option, none, some, List, ◌∷◌, arith,
}
use smallkv.Base.Maybe.{◌>>=◌}
use smallkv.Alloc.{FreeListAllocate, block_size, push, carve_loop, carve}
use smallkv.Alloc.Owners.{
  Owner, pool, idle, used, Owners, Region, retag, retag_out, Owned, set_free, push-Owned,
}
use mathlib.Core.Path.{subst}
use native.Mathlib.Nat.{suc-mul}

-- The bytes in use are the same, and of the same blocks.
pub record SameUsed (o o' : Owners) : Type 0 where
  pub forth : (a p i : ℕ) → o a ≡ used p i → o' a ≡ used p i
  pub back : (a p i : ℕ) → o' a ≡ used p i → o a ≡ used p i

pub SameUsed-refl : (o : Owners) → SameUsed o o
SameUsed-refl o = record { forth = λ a p i e. e; back = λ a p i e. e }

pub SameUsed-trans : (o o' o'' : Owners) → SameUsed o o' → SameUsed o' o'' → SameUsed o o''
SameUsed-trans o o' o'' k l = record {
  forth = λ a p i e. l.forth a p i (k.forth a p i e);
  back = λ a p i e. k.back a p i (l.back a p i e);
}

-- A block of the pool becomes idle.
SameUsed-retag : (o : Owners) (p i : ℕ) → Region o pool p i → SameUsed o (retag o (idle p i) p i)
unfolding retag
SameUsed-retag o p i r = record {
  forth = λ a q j e. retag_out o pool (idle p i) p i a r (λ f. absurd (cc (e, f))) ∙ e;
  back = λ a q j e. ground (arith, r a, e);
}

-- What a filled slot leaves: a free list that is not empty, and the same bytes in use.
pub record Filled {Heap : Type 0} (s' : FreeListAllocate Heap) (start size slot_index : ℕ)
    (o : Owners) : Type 0 where
  pub free : ℕ → List ℕ
  pub owners : Owners
  pub owned : Owned s' start size free owners
  pub same : SameUsed o owners
  pub node : ℕ
  pub rest : List ℕ
  pub some_block : free slot_index ≡ node ∷ rest

-- Behind a block its owner does not matter.
retag_behind : (o : Owners) (t : Owner) (p i a : ℕ) → p + block_size i ≤ a → retag o t p i a ≡ o a
unfolding retag
retag_behind o t p i a h = ground arith

module _ {Heap : Type 0} (slot_index : ℕ) where
  carve_one :
      (node size : ℕ) (s : FreeListAllocate Heap) (free : ℕ → List ℕ) (o : Owners)
      → Owned s node (block_size slot_index + size) free o
      → Filled (push s slot_index node) (node + block_size slot_index) size slot_index o
  carve_one node size s free o w =
      let r : Region o pool node slot_index = λ a h k. w.pooled a h (omega arith) in
      record {
        free = set_free free slot_index (node ∷ free slot_index);
        owners = retag o (idle node slot_index) node slot_index;
        owned =
            push-Owned s node (block_size slot_index + size) free o w slot_index node pool
              (node + block_size slot_index) size r (λ q j e. absurd (cc e))
              (λ a h k.
                retag_behind o (idle node slot_index) node slot_index a h
                ∙ w.pooled a (omega arith) (omega arith));
        same = SameUsed-retag o node slot_index r;
        node = node;
        rest = free slot_index;
        some_block = ground arith;
      }

  -- The rounds of the loop: as many blocks as rounds leave the pool.
  carve_more :
      (n start i node all size : ℕ) (s : FreeListAllocate Heap) (free : ℕ → List ℕ) (o : Owners)
      → node ≡ start + i * block_size slot_index
      → all ≡ suc n * block_size slot_index
      → Owned s node (all + size) free o
      → Filled (carve_loop (suc n) start slot_index i s) (node + all) size slot_index o
  unfolding carve_loop
  carve_more zero start i node all size s free o e f w =
      let one : all ≡ block_size slot_index = omega arith in
      subst
        (λ t.
          Filled (push s slot_index (start + i * block_size slot_index)) (node + t) size slot_index
            o)
        (sym one)
        (subst (λ p. Filled (push s slot_index p) (node + block_size slot_index) size slot_index o)
          e (carve_one node size s free o (subst (λ t. Owned s node (t + size) free o) one w)))
  carve_more (suc n) start i node all size s free o e f w =
      let more = suc n * block_size slot_index in
      let split : all ≡ block_size slot_index + more =
        omega (arith, suc-mul (suc n) (block_size slot_index)) in
      let c =
        carve_one node (more + size) s free o
          (subst (λ t. Owned s node t free o) (omega (arith, split)) w) in
      let d =
        carve_more n start (suc i) (node + block_size slot_index) more size (push s slot_index node)
          c.free c.owners (omega (arith, suc-mul i (block_size slot_index), e)) refl c.owned in
      let whole : Owned (carve_loop (suc n) start slot_index (suc i) (push s slot_index node))
          (node + all) size d.free d.owners =
        subst
          (λ t.
            Owned (carve_loop (suc n) start slot_index (suc i) (push s slot_index node)) t size
              d.free d.owners)
          (omega (arith, split)) d.owned in
      record {
        free = d.free;
        owners = d.owners;
        owned =
            subst
              (λ p.
                Owned (carve_loop (suc n) start slot_index (suc i) (push s slot_index p))
                  (node + all) size d.free d.owners)
              e whole;
        same = SameUsed-trans o c.owners d.owners c.same d.same;
        node = d.node;
        rest = d.rest;
        some_block = d.some_block;
      }

-- The start of the pool; a pool with no start is empty.
abbrev pub start_of : Option ℕ → ℕ
start_of none = 0
start_of (some p) = p

-- A well-formed allocator: its free lists and its pool are as the owners say.
pub record IsAllocator {Heap : Type 0} (s : FreeListAllocate Heap) (free : ℕ → List ℕ) (o : Owners)
    : Type 0 where
  pub owned : Owned s (start_of s.mem_pool_start) s.mem_pool_size free o
  pub backed : s.mem_pool_start ≡ none → s.mem_pool_size ≡ 0

-- An operation that ends with a block in the slot, and the same bytes in use.
pub record HasBlock {Heap : Type 0} (r : Option (FreeListAllocate Heap)) (slot_index : ℕ)
    (o : Owners) : Type 0 where
  pub result : FreeListAllocate Heap
  pub run : r ≡ some result
  pub free : ℕ → List ℕ
  pub owners : Owners
  pub well : IsAllocator result free owners
  pub same : SameUsed o owners
  pub node : ℕ
  pub rest : List ℕ
  pub some_block : free slot_index ≡ node ∷ rest

pub HasBlock-of :
    {Heap : Type 0} (r r' : Option (FreeListAllocate Heap)) (i : ℕ) (o : Owners)
    → r ≡ r'
    → HasBlock r' i o
    → HasBlock r i o
HasBlock-of r r' i o e h = subst (λ t. HasBlock t i o) (sym e) h

module _ {Heap : Type 0} (slot_index : ℕ) where
  -- Cutting blocks off a pool that is large enough.
  pub carve-HasBlock :
      (n start : ℕ) (s : FreeListAllocate Heap) (free : ℕ → List ℕ) (o : Owners)
      → s.mem_pool_start ≡ some start
      → Owned s start s.mem_pool_size free o
      → suc n * block_size slot_index ≤ s.mem_pool_size
      → HasBlock (carve (suc n) slot_index s) slot_index o
  unfolding carve
  carve-HasBlock n start s free o e w h =
      let all = suc n * block_size slot_index in
      let f =
        carve_more slot_index n start 0 start all (s.mem_pool_size - all) s free o (omega arith)
          refl (subst (λ t. Owned s start t free o) (omega arith) w) in
      record {
        result = record (carve_loop (suc n) start slot_index 0 s) {
          mem_pool_start = some (start + all);
          mem_pool_size = s.mem_pool_size - all;
        };
        run = rw (e, ◌>>=◌) refl;
        free = f.free;
        owners = f.owners;
        well = record {
          owned = record {
            linked = f.owned.linked;
            free_blocks = f.owned.free_blocks;
            distinct = f.owned.distinct;
            pooled = f.owned.pooled;
          };
          backed = λ k. absurd (cc k);
        };
        same = f.same;
        node = f.node;
        rest = f.rest;
        some_block = f.some_block;
      }
