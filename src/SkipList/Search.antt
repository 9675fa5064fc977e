-- ===== src/SkipList/Search.antt =====
-- `Contains` and `Get` (src/memtable/skiplist.h) find exactly the pairs of the list.
use smallkv.Base.{
  ℕ, zero, suc, ◌+◌, ◌-◌, ◌<◌, ◌≡◌, refl, sym, ap, ◌∙◌, Bool, true, false, none, some, List, [],
  ◌∷◌, ◌++◌, length, All, arith, is_some, Option-cases, Bool-cases, length-append, inl, inr,
  append_assoc,
}
use smallkv.Base.Bytes.{
  Bytes, Order, lt, eq, gt, compare_bytes, compare_bytes-eq, compare_bytes-gt, compare_bytes_trans,
}
use smallkv.SkipList.{
  Ptr, SkipList, head, next_at, get_loop, get, contains_loop, contains, fuel_for,
}
use smallkv.SkipList.Chain.{
  first_tall, Chain, Ordered, Fits, Represents, entries, lookup, All-append, NotBelow, Above, Below,
  split, Chain-append, Chain-Tower, Ordered-append, lookup-Below, lookup-Above, Hop, hop,
  first_tall-append, first_tall-append_some,
}
use mathlib.Core.Path.{subst}
use mathlib.Core.Option

is_gt : Order → Bool
is_gt gt = true
is_gt _ = false

pub next_at_lem :
    (l : SkipList) (p : Ptr) (j : ℕ) (qs : List Ptr)
    → Chain l p qs
    → j < (l.node p).level
    → next_at l p j ≡ some (first_tall l.node j qs)
unfolding next_at
next_at_lem l p j qs c h = ground (arith, Chain-Tower l p qs c j)

module _ (l : SkipList) (key : Bytes) where
  -- The first node that is not below the key decides the lookup.
  pub lookup_gt :
      (q : Ptr) (qs : List Ptr)
      → Ordered l (q ∷ qs)
      → compare_bytes (l.node q).key key ≡ gt
      → lookup key (entries l.node (q ∷ qs)) ≡ none
  lookup_gt q qs o e =
      let k : Above l key q = compare_bytes-gt _ _ e in
      lookup-Above l key (q ∷ qs) (k, trans_all qs o.0 k)
    where
      trans_all :
          (rs : List Ptr) → All (Above l (l.node q).key) rs → Above l key q → All (Above l key) rs
      trans_all [] a k = tt
      trans_all (r ∷ rs) a k = (compare_bytes_trans _ _ _ k a.0, trans_all rs a.1 k)

  pub hit_first :
      (q : Ptr) (sk rest : List Ptr)
      → Ordered l (sk ++ q ∷ rest)
      → All (NotBelow l key) (sk ++ q ∷ rest)
      → compare_bytes (l.node q).key key ≡ eq
      → sk ≡ []
  hit_first q [] rest o n e = refl
  hit_first q (x ∷ sk) rest o n e =
      let a : All (Above l (l.node x).key) (q ∷ rest) = (All-append _ sk (q ∷ rest) o.0).1 in
      absurd (n.0 (rw (compare_bytes-eq _ _ e) at a.0))

  -- At the lowest level the first node is met.
  pub lookup_bottom :
      (post : List Ptr)
      → Ordered l post
      → All (Fits l) post
      → ((q : Ptr) → first_tall l.node 0 post ≡ some q → compare_bytes (l.node q).key key ≡ gt)
      → lookup key (entries l.node post) ≡ none
  unfolding lookup entries first_tall
  lookup_bottom [] o f g = refl
  lookup_bottom (q ∷ qs) o f g = lookup_gt q qs o (g q (ground arith))

  module _ (post : List Ptr) (o : Ordered l post) (n : All (NotBelow l key) post)
      (fits : All (Fits l) post) where
    hit_value :
        (j : ℕ) (q : Ptr)
        → first_tall l.node j post ≡ some q
        → compare_bytes (l.node q).key key ≡ eq
        → lookup key (entries l.node post) ≡ some (l.node q).value
    unfolding lookup entries
    hit_value j q f e =
        let h = hop l.node j post q f in
        let s =
          hit_first q h.skipped h.rest (subst (Ordered l) h.joined o)
            (subst (All (NotBelow l key)) h.joined n) e in
        ground (arith, h.joined, s)

    pub post_NotBelow : (j : ℕ) (q : Ptr) → first_tall l.node j post ≡ some q → NotBelow l key q
    post_NotBelow j q f =
        let h = hop l.node j post q f in
        (All-append _ h.skipped (q ∷ h.rest) (subst (All (NotBelow l key)) h.joined n)).1.0

    -- Where the walk stands when it can go no further to the right below the key.
    pub at_edge :
        (cur : Ptr) (pre : List Ptr) (level : ℕ)
        → level < (l.node cur).level
        → Chain l cur (pre ++ post)
        → first_tall l.node level pre ≡ none
        → next_at l cur level ≡ some (first_tall l.node level post)
    at_edge cur pre level t c e =
        next_at_lem l cur level (pre ++ post) c t
        ∙ ap some (first_tall-append l.node level pre post e)

    -- Where it can, and what is left behind the node it goes to.
    pub at-Hop :
        (cur : Ptr) (pre : List Ptr) (level : ℕ) (q : Ptr)
        → level < (l.node cur).level
        → Chain l cur (pre ++ post)
        → All (Below l key) pre
        → first_tall l.node level pre ≡ some q
        → (h : Hop l.node level pre q) × (next_at l cur level ≡ some (some q))
          × (compare_bytes (l.node q).key key ≡ lt)
          × Chain l q (h.rest ++ post)
          × All (Below l key) h.rest
          × (length h.rest < length pre)
    at-Hop cur pre level q t c b e =
        let h = hop l.node level pre q e in
        let b' = All-append _ h.skipped (q ∷ h.rest) (subst (All (Below l key)) h.joined b) in
        let c' : Chain l cur ((h.skipped ++ q ∷ h.rest) ++ post) =
          subst (λ t. Chain l cur (t ++ post)) h.joined c in
        (
          h,
          next_at_lem l cur level (pre ++ post) c t
              ∙ ap some (first_tall-append_some l.node level pre post q e),
          b'.1.0,
          Chain-append l cur h.skipped q (h.rest ++ post) (rw append_assoc at c'),
          b'.1.1,
          omega (arith, ap length h.joined, length-append h.skipped (q ∷ h.rest)),
        )

    pub get_loop-lookup :
        (fuel : ℕ) (cur : Ptr) (pre : List Ptr) (level : ℕ)
        → level < (l.node cur).level
        → Chain l cur (pre ++ post)
        → All (Below l key) pre
        → length pre + level < fuel
        → get_loop fuel l key cur level ≡ some (lookup key (entries l.node post))
    unfolding get_loop is_gt
    get_loop-lookup zero cur pre level t c b f = absurd (omega arith)
    get_loop-lookup (suc fuel) cur pre zero t c b f =
        elim (Option-cases (first_tall l.node 0 pre)) [
          | inl e ↦ elim (Option-cases (first_tall l.node 0 post)) [
            | inl e' ↦
                ground (
                  arith,
                  at_edge cur pre 0 t c e,
                  e',
                  lookup_bottom post o fits (λ q g. cc (e', g)),
                )
            | inr (q, e') ↦ elim (Bool-cases (is_gt (compare_bytes (l.node q).key key))) [
              | inl g ↦ ground (
                arith,
                at_edge cur pre 0 t c e,
                e',
                g,
                lookup_bottom post o fits (λ r k. ground arith),
              )
              | inr g ↦
                  ground
                    (arith, at_edge cur pre 0 t c e, e', g, post_NotBelow 0 q e', hit_value 0 q e')
            ]
          ]
          | inr (q, e) ↦
              let (h, at, below, c', b', less) = at-Hop cur pre 0 q t c b e in
              ground (arith, at, below, get_loop-lookup fuel q h.rest 0 h.tall c' b' (omega arith))
        ]
    get_loop-lookup (suc fuel) cur pre (suc lower) t c b f =
        elim (Option-cases (first_tall l.node (suc lower) pre)) [
          | inl e ↦
              let down = get_loop-lookup fuel cur pre lower (omega arith) c b (omega arith) in
              elim (Option-cases (first_tall l.node (suc lower) post)) [
                | inl e' ↦ ground (arith, at_edge cur pre (suc lower) t c e, e', down)
                | inr (q, e') ↦ ground (
                  arith,
                  at_edge cur pre (suc lower) t c e,
                  e',
                  down,
                  post_NotBelow (suc lower) q e',
                  hit_value (suc lower) q e',
                )
              ]
          | inr (q, e) ↦
              let (h, at, below, c', b', less) = at-Hop cur pre (suc lower) q t c b e in
              ground (
                arith,
                at,
                below,
                get_loop-lookup fuel q h.rest (suc lower) h.tall c' b' (omega arith),
              )
        ]

-- The walk of `Contains` is that of `Get`.
contains_loop-get_loop :
    (fuel : ℕ) (l : SkipList) (key : Bytes) (cur : Ptr) (level : ℕ)
    → contains_loop fuel l key cur level ≡ Option.map is_some (get_loop fuel l key cur level)
unfolding contains_loop get_loop
contains_loop-get_loop zero l key cur level = refl
contains_loop-get_loop (suc fuel) l key cur zero = elim (Option-cases (next_at l cur 0)) [
  | inl e ↦ ground (arith, e)
  | inr (none, e) ↦ ground (arith, e)
  | inr (some q, e) ↦ ground (arith, e, contains_loop-get_loop fuel l key q 0)
]
contains_loop-get_loop (suc fuel) l key cur (suc lower) =
    elim (Option-cases (next_at l cur (suc lower))) [
      | inl e ↦ ground (arith, e)
      | inr (none, e) ↦ ground (arith, e, contains_loop-get_loop fuel l key cur lower)
      | inr (some q, e) ↦ ground (
        arith,
        e,
        contains_loop-get_loop fuel l key q (suc lower),
        contains_loop-get_loop fuel l key cur lower,
      )
    ]

-- Get on a well-formed list ends without a fault and returns the value of the key among the pairs,
-- or nothing if there is none.
pub get-lookup :
    (l : SkipList) (qs : List Ptr) (key : Bytes)
    → Represents l qs
    → get l key ≡ some (lookup key (entries l.node qs))
unfolding get
get-lookup l qs key r =
    let s = split l key qs r.ordered in
    let chain = subst (Chain l head) s.joined r.chain in
    let ordered = Ordered-append l s.pre s.post (subst (Ordered l) s.joined r.ordered) in
    let fits = (All-append _ s.pre s.post (subst (All (Fits l)) s.joined r.fits)).1 in
    let enough : length s.pre + (l.max_level - 1) < fuel_for l =
      omega (arith, r.size, r.height, ap length s.joined, length-append s.pre s.post) in
    let top : l.max_level - 1 < (l.node head).level = omega (arith, r.height, r.tall_head) in
    let skip : lookup key (entries l.node qs) ≡ lookup key (entries l.node s.post) =
      ap (λ t. lookup key (entries l.node t)) s.joined ∙ lookup-Below l key s.pre s.post s.below in
    get_loop-lookup l key s.post ordered s.not_below fits (fuel_for l) head s.pre (l.max_level - 1)
      top chain s.below enough
    ∙ ap some (sym skip)

-- Contains on a well-formed list ends without a fault and tells whether the key is among the pairs.
pub contains-lookup :
    (l : SkipList) (qs : List Ptr) (key : Bytes)
    → Represents l qs
    → contains l key ≡ some (is_some (lookup key (entries l.node qs)))
unfolding contains get
contains-lookup l qs key r =
    contains_loop-get_loop (fuel_for l) l key head (l.max_level - 1)
    ∙ ap (Option.map is_some) (get-lookup l qs key r)
