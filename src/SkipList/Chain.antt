-- ===== src/SkipList/Chain.antt =====
-- The shape of a skip list: the nodes in key order, and every cell of every node pointing to the
-- next node that is tall enough (src/memtable/skiplist.h).
use smallkv.Base.{
  ℕ, ◌+◌, ◌≤◌, ◌<◌, ◌≡◌, ◌≢◌, refl, ap, Option, none, some, List, [], ◌∷◌, ◌++◌, length, All, ltb,
  if◌then◌else◌, arith,
}
use smallkv.Base.Bytes.{Bytes, Order, lt, eq, compare_bytes, ge-lt_trans, compare_bytes-above}
use mathlib.Core.Path.{subst}
use native.Mathlib.Decide.{dec_lt}
use smallkv.SkipList.{Ptr, Node, SkipList, head, max_height}

-- The first node of more than `j` levels.
unfoldable pub first_tall : (Ptr → Node) → ℕ → List Ptr → Option Ptr
first_tall nd j [] = none
first_tall nd j (q ∷ qs) = if ltb j (nd q).level then some q else first_tall nd j qs

-- The last node of more than `j` levels, `p` if there is none.
unfoldable pub last_tall : (Ptr → Node) → ℕ → Ptr → List Ptr → Ptr
last_tall nd j p [] = p
last_tall nd j p (q ∷ qs) = if ltb j (nd q).level then last_tall nd j q qs else last_tall nd j p qs

-- The cells of `p` are right, if `qs` are the nodes behind it.
abbrev pub Tower : SkipList → Ptr → List Ptr → Type 0
Tower l p qs = (j : ℕ) → j < (l.node p).level → l.next p j ≡ first_tall l.node j qs

abbrev pub Chain : SkipList → Ptr → List Ptr → Type 0
Chain l p [] = Tower l p []
Chain l p (q ∷ qs) = Tower l p (q ∷ qs) × Chain l q qs

abbrev pub Below : SkipList → Bytes → Ptr → Type 0
Below l key q = compare_bytes (l.node q).key key ≡ lt

abbrev pub Above : SkipList → Bytes → Ptr → Type 0
Above l key q = compare_bytes key (l.node q).key ≡ lt

-- The keys increase strictly.
abbrev pub Ordered : SkipList → List Ptr → Type 0
Ordered l [] = Unit
Ordered l (q ∷ qs) = All (Above l (l.node q).key) qs × Ordered l qs

abbrev pub Fits : SkipList → Ptr → Type 0
Fits l q = (0 < q) × (q < l.fresh) × (1 ≤ (l.node q).level) × ((l.node q).level ≤ l.max_level)

-- The bytes of the keys and the values.
unfoldable pub usage : (Ptr → Node) → List Ptr → ℕ
usage nd [] = 0
usage nd (q ∷ qs) = length (nd q).key + length (nd q).value + usage nd qs

-- `l` is a skip list whose nodes are `qs`, in this order.
pub record Represents (l : SkipList) (qs : List Ptr) : Type 0 where
  pub chain : Chain l head qs
  pub ordered : Ordered l qs
  pub fits : All (Fits l) qs
  pub fresh : 0 < l.fresh
  pub tall_head : (l.node head).level ≡ max_height
  pub height : (1 ≤ l.max_level) × (l.max_level ≤ max_height)
  pub size : l.size ≡ length qs
  pub mem_usage : l.mem_usage ≡ usage l.node qs

abbrev pub Entries : Type 0
Entries = List (Bytes × Bytes)

-- The abstract view: the pairs in key order.
unfoldable pub entries : (Ptr → Node) → List Ptr → Entries
entries nd [] = []
entries nd (q ∷ qs) = ((nd q).key, (nd q).value) ∷ entries nd qs

unfoldable pub lookup : Bytes → Entries → Option Bytes
lookup key [] = none
lookup key ((k, v) ∷ m) = elim (compare_bytes k key) [ eq ↦ some v | _ ↦ lookup key m ]

module _ {κ} (P : Ptr → Type κ) where
  pub All-append : (xs ys : List Ptr) → All P (xs ++ ys) → All P xs × All P ys
  All-append [] ys a = (tt, a)
  All-append (x ∷ xs) ys a = let r = All-append xs ys a.1 in ((a.0, r.0), r.1)

  pub All-join : (xs ys : List Ptr) → All P xs → All P ys → All P (xs ++ ys)
  All-join [] ys a b = b
  All-join (x ∷ xs) ys a b = (a.0, All-join xs ys a.1 b)

  pub All-map {μ} :
      (Q : Ptr → Type μ) (f : (q : Ptr) → P q → Q q) (xs : List Ptr) → All P xs → All Q xs
  All-map Q f [] a = tt
  All-map Q f (x ∷ xs) a = (f x a.0, All-map Q f xs a.1)

module _ (l : SkipList) where
  abbrev pub NotBelow : Bytes → Ptr → Type 0
  NotBelow key q = compare_bytes (l.node q).key key ≢ lt

  -- A search key splits the nodes into those below it and the rest.
  pub record Split (key : Bytes) (qs : List Ptr) : Type 0 where
    pub pre : List Ptr
    pub post : List Ptr
    pub joined : qs ≡ pre ++ post
    pub below : All (Below l key) pre
    pub not_below : All (NotBelow key) post

  Above-NotBelow :
      (key : Bytes) (q : Ptr) (qs : List Ptr)
      → NotBelow key q
      → All (Above l (l.node q).key) qs
      → All (NotBelow key) qs
  Above-NotBelow key q qs h =
      All-map _ _
        (λ r a e. cc (compare_bytes-above key (l.node r).key (ge-lt_trans key _ _ h a), e)) qs

  Split-at :
      (key : Bytes) (q : Ptr) (qs : List Ptr) (o : Order)
      → compare_bytes (l.node q).key key ≡ o
      → All (Above l (l.node q).key) qs
      → Split key qs
      → Split key (q ∷ qs)
  Split-at key q qs lt e a s = record {
    pre = q ∷ s.pre;
    post = s.post;
    joined = ap (◌∷◌ q) s.joined;
    below = (e, s.below);
    not_below = s.not_below;
  }
  Split-at key q qs o e a s = record {
    pre = [];
    post = q ∷ qs;
    joined = refl;
    below = tt;
    not_below = ((λ f. cc (e, f)), Above-NotBelow key q qs (λ f. cc (e, f)) a);
  }

  pub split : (key : Bytes) (qs : List Ptr) → Ordered l qs → Split key qs
  split key [] o = record { pre = []; post = []; joined = refl; below = tt; not_below = tt }
  split key (q ∷ qs) o = Split-at key q qs _ refl o.0 (split key qs o.1)

  pub Chain-append :
      (p : Ptr) (xs : List Ptr) (q : Ptr) (ys : List Ptr) → Chain l p (xs ++ q ∷ ys) → Chain l q ys
  Chain-append p [] q ys c = c.1
  Chain-append p (x ∷ xs) q ys c = Chain-append x xs q ys c.1

  pub Chain-Tower : (p : Ptr) (qs : List Ptr) → Chain l p qs → Tower l p qs
  Chain-Tower p [] c = c
  Chain-Tower p (q ∷ qs) c = c.0

  pub Ordered-append : (xs ys : List Ptr) → Ordered l (xs ++ ys) → Ordered l ys
  Ordered-append [] ys o = o
  Ordered-append (x ∷ xs) ys o = Ordered-append xs ys o.1

  -- The nodes below the key do not count in a lookup.
  pub lookup-Below :
      (key : Bytes) (xs ys : List Ptr)
      → All (Below l key) xs
      → lookup key (entries l.node (xs ++ ys)) ≡ lookup key (entries l.node ys)
  unfolding lookup entries
  lookup-Below key [] ys b = refl
  lookup-Below key (x ∷ xs) ys b = ground (arith, lookup-Below key xs ys b.1)

  -- A key that no node has is not found.
  pub lookup-Above :
      (key : Bytes) (ys : List Ptr) → All (Above l key) ys → lookup key (entries l.node ys) ≡ none
  unfolding lookup entries
  lookup-Above key [] a = refl
  lookup-Above key (y ∷ ys) a =
      ground (arith, lookup-Above key ys a.1, compare_bytes-above key (l.node y).key a.0)

-- A hop: what stands before the first tall node, that node, and what stands behind it.
pub record Hop (nd : Ptr → Node) (j : ℕ) (qs : List Ptr) (q : Ptr) : Type 0 where
  pub skipped : List Ptr
  pub rest : List Ptr
  pub joined : qs ≡ skipped ++ q ∷ rest
  pub tall : j < (nd q).level
  pub short : All (λ r. (nd r).level ≤ j) skipped

module _ (nd : Ptr → Node) where
  pub hop : (j : ℕ) (qs : List Ptr) (q : Ptr) → first_tall nd j qs ≡ some q → Hop nd j qs q
  unfolding first_tall
  hop j [] q e = absurd (cc e)
  hop j (r ∷ qs) q e = elim (dec_lt j (nd r).level) [
    | yes p ↦
        let same : r ≡ q = ground arith in
        record {
          skipped = [];
          rest = qs;
          joined = ap (λ t. t ∷ qs) same;
          tall = subst (λ t. j < (nd t).level) same p;
          short = tt;
        }
    | no p ↦
        let h = hop j qs q (ground arith) in
        record {
          skipped = r ∷ h.skipped;
          rest = h.rest;
          joined = ap (◌∷◌ r) h.joined;
          tall = h.tall;
          short = (omega arith, h.short);
        }
  ]

  pub first_tall-append :
      (j : ℕ) (xs ys : List Ptr)
      → first_tall nd j xs ≡ none
      → first_tall nd j (xs ++ ys) ≡ first_tall nd j ys
  unfolding first_tall
  first_tall-append j [] ys e = refl
  first_tall-append j (x ∷ xs) ys e = ground (arith, first_tall-append j xs ys)

  pub first_tall-append_some :
      (j : ℕ) (xs ys : List Ptr) (q : Ptr)
      → first_tall nd j xs ≡ some q
      → first_tall nd j (xs ++ ys) ≡ some q
  unfolding first_tall
  first_tall-append_some j [] ys q e = absurd (cc e)
  first_tall-append_some j (x ∷ xs) ys q e = ground (arith, first_tall-append_some j xs ys q)

  -- From a node on, only what stands behind it matters.
  pub last_tall-hop :
      (j : ℕ) (p : Ptr) (xs : List Ptr) (q : Ptr) (ys : List Ptr)
      → j < (nd q).level
      → last_tall nd j p (xs ++ q ∷ ys) ≡ last_tall nd j q ys
  unfolding last_tall
  last_tall-hop j p [] q ys h = ground arith
  last_tall-hop j p (x ∷ xs) q ys h =
      ground (arith, last_tall-hop j p xs q ys h, last_tall-hop j x xs q ys h)

  pub last_tall-none :
      (j : ℕ) (p : Ptr) (xs : List Ptr) → first_tall nd j xs ≡ none → last_tall nd j p xs ≡ p
  unfolding first_tall last_tall
  last_tall-none j p [] e = refl
  last_tall-none j p (x ∷ xs) e = ground (arith, last_tall-none j p xs)
