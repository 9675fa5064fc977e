-- ===== src/Tests/Lists.antt =====
-- The skip list (src/memtable/skiplist.h) at concrete inputs.
use smallkv.Base.{ℕ, ◌≡◌, some, List, [], ◌∷◌, is_some}
use smallkv.SkipList.{SkipList, insert, delete, get, contains, init}
use smallkv.SkipList.Chain.{entries, lookup}
use smallkv.SkipList.Search.{get-lookup}
use smallkv.SkipList.Entries.{add_entry}
use smallkv.SkipList.Delete.{remove_entry}
use smallkv.SkipList.Refine.{
  Holds, Call, insert_call, delete_call, run_calls, apply_call, run_calls-Holds, insert-Holds,
  delete-Holds, get-run_calls,
}
use mathlib.Core.List.{foldl}

-- `rand` as it goes up by one at every call
abbrev counting : ℕ → ℕ
counting i = i

-- `rand` when it always returns 1: a tower of full height
abbrev ones : ℕ → ℕ
ones i = 1

abbrev some_calls : List Call
some_calls =
    insert_call (5 ∷ []) (50 ∷ []) ones
    ∷ insert_call (3 ∷ 1 ∷ []) (31 ∷ []) counting
    ∷ insert_call (9 ∷ []) (90 ∷ []) counting
    ∷ delete_call (5 ∷ [])
    ∷ []

built : Holds (run_calls some_calls init) (foldl apply_call [] some_calls)
built = run_calls-Holds some_calls

run_calls-Holds_example : Holds (run_calls some_calls init) (foldl apply_call [] some_calls)
run_calls-Holds_example = run_calls-Holds some_calls

get-run_calls_example :
    (l : SkipList) × (run_calls some_calls init ≡ some l)
    × (get l (9 ∷ []) ≡ some (lookup (9 ∷ []) (foldl apply_call [] some_calls)))
    × (contains l (9 ∷ []) ≡ some (is_some (lookup (9 ∷ []) (foldl apply_call [] some_calls))))
get-run_calls_example = get-run_calls some_calls (9 ∷ [])

insert-Holds_example :
    Holds
      (insert built.0 (4 ∷ []) (40 ∷ []) ones)
      (add_entry (4 ∷ []) (40 ∷ []) (entries built.0.node built.1))
insert-Holds_example = insert-Holds built.0 built.1 (4 ∷ []) built.3 (40 ∷ []) ones

delete-Holds_example :
    Holds (delete built.0 (9 ∷ [])) (remove_entry (9 ∷ []) (entries built.0.node built.1))
delete-Holds_example = delete-Holds built.0 built.1 (9 ∷ []) built.3

get-lookup_example : get built.0 (9 ∷ []) ≡ some (lookup (9 ∷ []) (entries built.0.node built.1))
get-lookup_example = get-lookup built.0 built.1 (9 ∷ []) built.3
