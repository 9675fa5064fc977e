-- ===== src/SkipList/Refine.antt =====
-- The skip list refines an ordered list of pairs (src/memtable/skiplist.h): every operation, from
-- the empty list on, ends without a fault and does to the pairs what its specification says.
use smallkv.Base.{
  ℕ, ◌≡◌, refl, sym, ap, ◌∙◌, inl, inr, Option, some, List, [], ◌∷◌, ◌++◌, All, arith, is_some,
  Option-cases,
}
use smallkv.Base.Maybe.{◌>>=◌}
use smallkv.Base.Bytes.{Bytes}
use smallkv.SkipList.{Ptr, SkipList, init, insert, delete, get, contains}
use smallkv.SkipList.Chain.{
  Ordered, Represents, Entries, entries, lookup, usage, NotBelow, Split, split, Ordered-append,
  lookup-Below, first_tall,
}
use smallkv.SkipList.Search.{contains-lookup, get-lookup}
use smallkv.SkipList.Entries.{insert_entry, add_entry}
use smallkv.SkipList.Insert.{insert_new-Represents}
use smallkv.SkipList.Delete.{remove_entry, delete_present-Represents, present-first, remove_absent}
use mathlib.Core.Path.{subst}
use mathlib.Core.List.{foldl}

-- The result of an operation: it ends, with a skip list that holds these pairs.
abbrev pub Holds : Option SkipList → Entries → Type 0
Holds o m =
    (l : SkipList) × (qs : List Ptr) × (o ≡ some l) × Represents l qs × (entries l.node qs ≡ m)

-- The constructor makes a skip list with no nodes.
pub init-Represents : Represents init []
unfolding init first_tall usage
init-Represents = record {
  chain = λ j h. refl;
  ordered = tt;
  fits = tt;
  fresh = omega arith;
  tall_head = refl;
  height = omega arith;
  size = refl;
  mem_usage = refl;
}

module _ (l : SkipList) (qs : List Ptr) (key : Bytes) (r : Represents l qs) where
  lookup_post :
      (s : Split l key qs) → lookup key (entries l.node qs) ≡ lookup key (entries l.node s.post)
  lookup_post s =
      ap (λ t. lookup key (entries l.node t)) s.joined ∙ lookup-Below l key s.pre s.post s.below

  -- On a well-formed skip list Insert ends without a fault, whatever rand returns; the list stays
  -- well formed and holds the pair in its place, and nothing changes if the key was there.
  pub insert-Holds :
      (value : Bytes) (rand : ℕ → ℕ)
      → Holds (insert l key value rand) (add_entry key value (entries l.node qs))
  unfolding insert add_entry
  insert-Holds value rand = elim (Option-cases (lookup key (entries l.node qs))) [
    | inr (v, e) ↦ (l, qs, ground (arith, contains-lookup l qs key r, e), r, ground (arith, e))
    | inl e ↦
        let s = split l key qs r.ordered in
        let (l', qs', run, r', m) =
          insert_new-Represents l key value rand s.pre s.post (subst (Represents l) s.joined r)
            s.below s.not_below (sym (lookup_post s) ∙ e) in
        (
          l',
          qs',
          rw (contains-lookup l qs key r, e, ◌>>=◌) run,
          r',
          m
              ∙ ap (λ t. insert_entry key value (entries l.node t)) (sym s.joined)
              ∙ ground (arith, e),
        )
  ]

  -- On a well-formed skip list Delete ends without a fault; the list stays well formed and the pair
  -- of the key is gone, and nothing changes if there was none.
  pub delete-Holds : Holds (delete l key) (remove_entry key (entries l.node qs))
  unfolding delete
  delete-Holds = elim (Option-cases (lookup key (entries l.node qs))) [
    | inl e ↦ (
      l,
      qs,
      rw (contains-lookup l qs key r, e, ◌>>=◌) refl,
      r,
      sym (remove_absent l key (entries l.node qs) e),
    )
    | inr (v, e) ↦
        let s = split l key qs r.ordered in
        let ordered = Ordered-append l s.pre s.post (subst (Ordered l) s.joined r.ordered) in
        let (t, rest, first, hit) =
          present-first l key s.post s.not_below ordered (λ k. cc (lookup_post s, e, k)) in
        let joined : qs ≡ s.pre ++ t ∷ rest = s.joined ∙ ap (λ u. s.pre ++ u) first in
        let (l', qs', run, r', m) =
          delete_present-Represents l key s.pre t rest (subst (Represents l) joined r) s.below
            (subst (All (NotBelow l key)) first s.not_below) hit in
        (
          l',
          qs',
          rw (contains-lookup l qs key r, e, ◌>>=◌) run,
          r',
          m ∙ ap (λ u. remove_entry key (entries l.node u)) (sym joined),
        )
  ]

-- A client's call: with the values that `rand` returns during it.
pub data Call : Type 0 where
  insert_call : Bytes → Bytes → (ℕ → ℕ) → Call
  delete_call : Bytes → Call

unfoldable pub run_call : SkipList → Call → Option SkipList
run_call l (insert_call k v rand) = insert l k v rand
run_call l (delete_call k) = delete l k

unfoldable pub run_calls : List Call → SkipList → Option SkipList
run_calls [] l = some l
run_calls (c ∷ cs) l = run_call l c >>= run_calls cs

unfoldable pub apply_call : Entries → Call → Entries
apply_call m (insert_call k v rand) = add_entry k v m
apply_call m (delete_call k) = remove_entry k m

run_call-Holds :
    (l : SkipList) (qs : List Ptr) (c : Call)
    → Represents l qs
    → Holds (run_call l c) (apply_call (entries l.node qs) c)
unfolding run_call apply_call
run_call-Holds l qs (insert_call k v rand) r = insert-Holds l qs k r v rand
run_call-Holds l qs (delete_call k) r = delete-Holds l qs k r

run_calls-from :
    (cs : List Call) (l : SkipList) (qs : List Ptr)
    → Represents l qs
    → Holds (run_calls cs l) (foldl apply_call (entries l.node qs) cs)
unfolding run_calls
run_calls-from [] l qs r = (l, qs, refl, r, refl)
run_calls-from (c ∷ cs) l qs r =
    let (l', qs', run, r', m) = run_call-Holds l qs c r in
    let (l'', qs'', run', r'', m') = run_calls-from cs l' qs' r' in
    (l'', qs'', rw (run, ◌>>=◌) run', r'', m' ∙ ap (λ t. foldl apply_call t cs) m)

-- Any sequence of insertions and deletions, started from the constructor and with any values of
-- rand, ends without a fault; the list is well formed and holds the pairs of the ordered-list
-- specification.
pub run_calls-Holds : (cs : List Call) → Holds (run_calls cs init) (foldl apply_call [] cs)
unfolding entries
run_calls-Holds cs = run_calls-from cs init [] init-Represents

-- After any sequence of insertions and deletions from the constructor, Get and Contains end and
-- answer as the ordered-list specification does.
pub get-run_calls :
    (cs : List Call) (key : Bytes)
    → (l : SkipList) × (run_calls cs init ≡ some l)
      × (get l key ≡ some (lookup key (foldl apply_call [] cs)))
      × (contains l key ≡ some (is_some (lookup key (foldl apply_call [] cs))))
get-run_calls cs key =
    let (l, qs, run, r, m) = run_calls-Holds cs in
    (
      l,
      run,
      get-lookup l qs key r ∙ ap (λ t. some (lookup key t)) m,
      contains-lookup l qs key r ∙ ap (λ t. some (is_some (lookup key t))) m,
    )
