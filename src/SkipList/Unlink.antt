-- ===== src/SkipList/Unlink.antt =====
-- The walk of `Delete` and its loop that takes the node out (src/memtable/skiplist.h).
use smallkv.Base.{
  ℕ, zero, suc, ◌+◌, ◌≤◌, ◌<◌, ◌≡◌, ◌≢◌, refl, sym, ap, ◌∙◌, ◌⊎◌, inl, inr, Option, none, some,
  List, ◌∷◌, ◌++◌, length, All, arith, Option-cases,
}
use smallkv.Base.Bytes.{Bytes, Order, lt, eq, gt, compare_bytes}
use smallkv.SkipList.{Ptr, SkipList, Prev, set_prev, delete_loop}
use smallkv.SkipList.Chain.{
  first_tall, last_tall, Chain, Ordered, Fits, NotBelow, Below, Hop, last_tall-hop, last_tall-none,
}
use smallkv.SkipList.Search.{at_edge, at-Hop, post_NotBelow}
use native.Mathlib.Decide.{dec_le}

compare_cases : (o : Order) → (o ≡ eq) ⊎ (o ≢ eq)
compare_cases lt = inr (λ e. cc e)
compare_cases eq = inl refl
compare_cases gt = inr (λ e. cc e)

-- `prev'` is `prev` with the levels up to `level` on which the target stands filled by a walk.
pub record Marked (l : SkipList) (cur : Ptr) (pre : List Ptr) (level height : ℕ) (prev prev' : Prev)
    : Type 0 where
  pub low : (j : ℕ) → j ≤ level → j < height → prev' j ≡ some (last_tall l.node j cur pre)
  pub high : (j : ℕ) → level < j → prev' j ≡ prev j

module _ (l : SkipList) (pre : List Ptr) (cur : Ptr) (height : ℕ) (prev : Prev) where
  Marked-stop :
      first_tall l.node 0 pre ≡ none → Marked l cur pre 0 height prev (set_prev prev 0 cur)
  Marked-stop e = record {
    low = λ j h k.
        let z : j ≡ 0 = omega arith in rw z (ground (arith, last_tall-none l.node 0 cur pre e));
    high = λ j h. ground arith;
  }

  Marked-down :
      (lower : ℕ) {prev' : Prev}
      → first_tall l.node (suc lower) pre ≡ none
      → Marked l cur pre lower height (set_prev prev (suc lower) cur) prev'
      → Marked l cur pre (suc lower) height prev prev'
  Marked-down lower e f = record {
    low = λ j h k. elim (dec_le j lower) [
      | yes p ↦ f.low j p k
      | no p ↦
          let z : j ≡ suc lower = omega arith in
          rw z (ground (arith, f.high (suc lower), last_tall-none l.node (suc lower) cur pre e))
    ];
    high = λ j h. ground (arith, f.high j);
  }

  Marked-skip :
      (lower : ℕ) {prev' : Prev}
      → height ≤ suc lower
      → Marked l cur pre lower height prev prev'
      → Marked l cur pre (suc lower) height prev prev'
  Marked-skip lower e f = record {
    low = λ j h k. f.low j (omega arith) k;
    high = λ j h. f.high j (omega arith);
  }

  Marked-right :
      (level : ℕ) (q : Ptr) (h : Hop l.node level pre q) {prev' : Prev}
      → Marked l q h.rest level height prev prev'
      → Marked l cur pre level height prev prev'
  Marked-right level q h f = record {
    low = λ j k m.
        f.low j k m
        ∙ ap some (
            sym (last_tall-hop l.node j cur h.skipped q h.rest (omega (arith, h.tall)))
            ∙ ap (last_tall l.node j cur) (sym h.joined));
    high = f.high;
  }

module _ (l : SkipList) (key : Bytes) (t : Ptr) (rest : List Ptr) (o : Ordered l (t ∷ rest))
    (n : All (NotBelow l key) (t ∷ rest)) (fits : All (Fits l) (t ∷ rest))
    (hit : compare_bytes (l.node t).key key ≡ eq) where
  abbrev height : ℕ
  height = (l.node t).level

  pub delete_loop-Marked :
      (fuel : ℕ) (cur : Ptr) (pre : List Ptr) (level : ℕ) (prev : Prev) (target : Option ℕ)
      → level < (l.node cur).level
      → Chain l cur (pre ++ t ∷ rest)
      → All (Below l key) pre
      → length pre + level < fuel
      → (prev' : Prev) × (delete_loop fuel l key cur level prev target ≡ some (prev', some height))
        × Marked l cur pre level height prev prev'
  unfolding delete_loop first_tall
  delete_loop-Marked zero cur pre level prev target tall c b f = absurd (omega arith)
  delete_loop-Marked (suc fuel) cur pre zero prev target tall c b f =
      elim (Option-cases (first_tall l.node 0 pre)) [
        | inl e ↦ (
          set_prev prev 0 cur,
          ground (arith, at_edge l key (t ∷ rest) o n fits cur pre 0 tall c e, fits.0, hit),
          Marked-stop l pre cur height prev e,
        )
        | inr (q, e) ↦
            let (h, at, below, c', b', less) =
              at-Hop l key (t ∷ rest) o n fits cur pre 0 q tall c b e in
            let (prev', run, marked) =
              delete_loop-Marked fuel q h.rest 0 prev target h.tall c' b' (omega arith) in
            (prev', ground (arith, at, below, run), Marked-right l pre cur height prev 0 q h marked)
      ]
  delete_loop-Marked (suc fuel) cur pre (suc lower) prev target tall c b f =
      elim (Option-cases (first_tall l.node (suc lower) pre)) [
        | inl e ↦
            let here = at_edge l key (t ∷ rest) o n fits cur pre (suc lower) tall c e in
            elim (Option-cases (first_tall l.node (suc lower) (t ∷ rest))) [
              | inl e' ↦
                  let (prev', run, marked) =
                    delete_loop-Marked fuel cur pre lower prev target (omega arith) c b
                      (omega arith) in
                  (
                    prev',
                    ground (arith, here, e', run),
                    Marked-skip l pre cur height prev lower (ground (arith, e')) marked,
                  )
              | inr (q, e') ↦ elim (compare_cases (compare_bytes (l.node q).key key)) [
                | inl k ↦
                    let (prev', run, marked) =
                      delete_loop-Marked fuel cur pre lower (set_prev prev (suc lower) cur)
                        (some (l.node q).level) (omega arith) c b (omega arith) in
                    (
                      prev',
                      ground (arith, here, e', k, run),
                      Marked-down l pre cur height prev lower e marked,
                    )
                | inr w ↦
                    let (prev', run, marked) =
                      delete_loop-Marked fuel cur pre lower (set_prev prev (suc lower) cur) target
                        (omega arith) c b (omega arith) in
                    (
                      prev',
                      ground (
                        arith,
                        here,
                        e',
                        w,
                        run,
                        post_NotBelow l key (t ∷ rest) o n fits (suc lower) q e',
                      ),
                      Marked-down l pre cur height prev lower e marked,
                    )
              ]
            ]
        | inr (q, e) ↦
            let (h, at, below, c', b', less) =
              at-Hop l key (t ∷ rest) o n fits cur pre (suc lower) q tall c b e in
            let (prev', run, marked) =
              delete_loop-Marked fuel q h.rest (suc lower) prev target h.tall c' b' (omega arith) in
            (
              prev',
              ground (arith, at, below, run),
              Marked-right l pre cur height prev (suc lower) q h marked,
            )
      ]
