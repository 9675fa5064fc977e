-- ===== src/SkipList/Prev.antt =====
-- `FindPrevNode` (src/memtable/skiplist.h): on every level in use, the last node below the key.
use smallkv.Base.{
  ℕ, zero, suc, ◌+◌, ◌≤◌, ◌<◌, ◌≡◌, sym, ap, ◌∙◌, none, some, List, ◌++◌, length, All, arith,
  Option-cases, inl, inr,
}
use smallkv.Base.Bytes.{Bytes}
use smallkv.SkipList.{Ptr, SkipList, Prev, set_prev, find_prev_loop}
use smallkv.SkipList.Chain.{
  first_tall, last_tall, Chain, Ordered, Fits, NotBelow, Below, Hop, last_tall-hop, last_tall-none,
}
use native.Mathlib.Decide.{dec_le}
use smallkv.SkipList.Search.{at_edge, at-Hop, post_NotBelow}

-- `prev'` is `prev` with the levels up to `level` filled by a walk from `cur` over `pre`.
pub record Filled (l : SkipList) (cur : Ptr) (pre : List Ptr) (level : ℕ) (prev prev' : Prev)
    : Type 0 where
  pub low : (j : ℕ) → j ≤ level → prev' j ≡ some (last_tall l.node j cur pre)
  pub high : (j : ℕ) → level < j → prev' j ≡ prev j

module _ (l : SkipList) (pre : List Ptr) (cur : Ptr) (prev : Prev) where
  Filled-stop : first_tall l.node 0 pre ≡ none → Filled l cur pre 0 prev (set_prev prev 0 cur)
  Filled-stop e = record {
    low = λ j h.
        let z : j ≡ 0 = omega arith in rw z (ground (arith, last_tall-none l.node 0 cur pre e));
    high = λ j h. ground arith;
  }

  Filled-down :
      (lower : ℕ) {prev' : Prev}
      → first_tall l.node (suc lower) pre ≡ none
      → Filled l cur pre lower (set_prev prev (suc lower) cur) prev'
      → Filled l cur pre (suc lower) prev prev'
  Filled-down lower e f = record {
    low = λ j h. elim (dec_le j lower) [
      | yes p ↦ f.low j p
      | no p ↦
          let z : j ≡ suc lower = omega arith in
          rw z (ground (arith, f.high (suc lower), last_tall-none l.node (suc lower) cur pre e))
    ];
    high = λ j h. ground (arith, f.high j);
  }

  Filled-right :
      (level : ℕ) (q : Ptr) (h : Hop l.node level pre q) {prev' : Prev}
      → Filled l q h.rest level prev prev'
      → Filled l cur pre level prev prev'
  Filled-right level q h f = record {
    low = λ j k.
        f.low j k
        ∙ ap some (
            sym (last_tall-hop l.node j cur h.skipped q h.rest (omega (arith, h.tall)))
            ∙ ap (last_tall l.node j cur) (sym h.joined));
    high = f.high;
  }

module _ (l : SkipList) (key : Bytes) (post : List Ptr) (o : Ordered l post)
    (n : All (NotBelow l key) post) (fits : All (Fits l) post) where
  pub find_prev_loop-Filled :
      (fuel : ℕ) (cur : Ptr) (pre : List Ptr) (level : ℕ) (prev : Prev)
      → level < (l.node cur).level
      → Chain l cur (pre ++ post)
      → All (Below l key) pre
      → length pre + level < fuel
      → (prev' : Prev) × (find_prev_loop fuel l key cur level prev ≡ some prev')
        × Filled l cur pre level prev prev'
  unfolding find_prev_loop
  find_prev_loop-Filled zero cur pre level prev t c b f = absurd (omega arith)
  find_prev_loop-Filled (suc fuel) cur pre zero prev t c b f =
      elim (Option-cases (first_tall l.node 0 pre)) [
        | inl e ↦
            let here = at_edge l key post o n fits cur pre 0 t c e in
            (
              set_prev prev 0 cur,
              elim (Option-cases (first_tall l.node 0 post)) [
                | inl e' ↦ ground (arith, here, e')
                | inr (q, e') ↦ ground (arith, here, e', post_NotBelow l key post o n fits 0 q e')
              ],
              Filled-stop l pre cur prev e,
            )
        | inr (q, e) ↦
            let (h, at, below, c', b', less) = at-Hop l key post o n fits cur pre 0 q t c b e in
            let (prev', run, filled) =
              find_prev_loop-Filled fuel q h.rest 0 prev h.tall c' b' (omega arith) in
            (prev', ground (arith, at, below, run), Filled-right l pre cur prev 0 q h filled)
      ]
  find_prev_loop-Filled (suc fuel) cur pre (suc lower) prev t c b f =
      elim (Option-cases (first_tall l.node (suc lower) pre)) [
        | inl e ↦
            let here = at_edge l key post o n fits cur pre (suc lower) t c e in
            let (prev', run, filled) =
              find_prev_loop-Filled fuel cur pre lower (set_prev prev (suc lower) cur) (omega arith)
                c b (omega arith) in
            (
              prev',
              elim (Option-cases (first_tall l.node (suc lower) post)) [
                | inl e' ↦ ground (arith, here, e', run)
                | inr (q, e') ↦
                    ground
                      (arith, here, e', run, post_NotBelow l key post o n fits (suc lower) q e')
              ],
              Filled-down l pre cur prev lower e filled,
            )
        | inr (q, e) ↦
            let (h, at, below, c', b', less) =
              at-Hop l key post o n fits cur pre (suc lower) q t c b e in
            let (prev', run, filled) =
              find_prev_loop-Filled fuel q h.rest (suc lower) prev h.tall c' b' (omega arith) in
            (
              prev',
              ground (arith, at, below, run),
              Filled-right l pre cur prev (suc lower) q h filled,
            )
      ]
