-- ===== src/Safety/Descendants.antt =====
-- The worklist of Scheduler.cancel in harness/scheduler/service.py: it comes to an end, with the run
-- and all its descendants.
use mathlib.Core.List.{map-append}
use mi_harness.Prelude.{
  get_or_else, ℕ, zero, suc, ◌+◌, ◌≤◌, ◌<◌, String, ◌≡◌, refl, sym, subst, ap, ◌∙◌, inl, inr, ◌||◌,
  ◌&&◌, Option, none, some, List, [], ◌∷◌, ◌++◌, arith, length, length-append, All, All-append,
  same, same→eq, select, any, contains, Bool-cases,
}
use mi_harness.Exec.{World, ok}
use mi_harness.Exec.Answers.{Answers, Answers-then, Answers-pure}
use mi_harness.Store.Schema.{RunRow, DependencyRow, Database}
use mi_harness.Scheduler.Cancel.{descendants}
use mi_harness.Safety.Counting.{
  occurrences, occurrences-append, led_to, children_in, children_of, led_to-visit, led_to_le,
  led_to-lowest, length_le, contains-occurrences, any-led_to, led_to-cong, led_to-none,
  length-children_in,
}
use mi_harness.Safety.Children.{ids, IsKnown, children-Answers}

-- No run has two parents, and each delegation leads to a run of a higher rank; the depth of a run is
-- such a rank.
pub record IsForest (rank : String → ℕ) (es : List DependencyRow) : Type 0 where
  pub once : (k : String) → occurrences k (children_in es) ≤ 1
  pub up : All (λ (e : DependencyRow). rank e.parent_id < rank e.child_id) es

module _ (rank : String → ℕ) (root : String) where
  children_low :
      (r : String) (es : List DependencyRow)
      → All (λ (e : DependencyRow). rank e.parent_id < rank e.child_id) es
      → rank root ≤ rank r
      → All (λ j. rank root ≤ rank j) (children_of r es)
  unfolding select
  children_low r [] up h = tt
  children_low r (e ∷ es) up h =
      let others : All (λ j. rank root ≤ rank j) (children_of r es) = children_low r es up.1 h in
      elim (Bool-cases (same e.parent_id r)) [
        | inl own ↦ rw own (
          omega (arith, h, subst (λ j. rank j < rank e.child_id) (same→eq e.parent_id r own) up.0),
          others,
        )
        | inr other ↦ rw other others
      ]

  module _ (es : List DependencyRow) where
    -- The runs `seen` have been visited, and `todo` are in the list behind them.
    record Walk (seen todo : List String) : Type 0 where
      counted :
          (k : String)
          → occurrences k seen + occurrences k todo ≡ occurrences k (root ∷ []) + led_to k es seen
      once : (k : String) → occurrences k seen + occurrences k todo ≤ 1
      low : All (λ j. rank root ≤ rank j) seen
      low_todo : All (λ j. rank root ≤ rank j) todo

    module _ (forest : IsForest rank es) where
      visit-counted :
          (seen todo : List String) (r : String)
          → Walk seen (r ∷ todo)
          → (k : String)
          → occurrences k (r ∷ seen) + occurrences k (todo ++ children_of r es)
            ≡ occurrences k (root ∷ []) + led_to k es (r ∷ seen)
      unfolding occurrences
      visit-counted seen todo r w k = ground (
        arith,
        w.counted k,
        led_to-visit k r es seen,
        occurrences-append k todo (children_of r es),
      )

      visit-once :
          (seen todo : List String) (r : String)
          → Walk seen (r ∷ todo)
          → (k : String) → occurrences k (r ∷ seen) + occurrences k (todo ++ children_of r es) ≤ 1
      unfolding occurrences
      visit-once seen todo r w k =
          let all_once : (j : String) → occurrences j (r ∷ seen) ≤ 1 =
            λ j. ground (arith, w.once j) in
          let counted = visit-counted seen todo r w k in
          elim (Bool-cases (same root k)) [
            | inl own ↦ ground (
              arith,
              own,
              counted,
              subst (λ j. led_to j es (r ∷ seen) ≡ 0) (same→eq root k own)
                  (led_to-lowest rank root es (r ∷ seen) forest.up (w.low_todo.0, w.low)),
            )
            | inr other ↦
                ground (arith, other, counted, led_to_le k es (r ∷ seen) all_once, forest.once k)
          ]

      visit-Walk :
          (seen todo : List String) (r : String)
          → Walk seen (r ∷ todo)
          → Walk (r ∷ seen) (todo ++ children_of r es)
      visit-Walk seen todo r w = record {
        counted = visit-counted seen todo r w;
        once = visit-once seen todo r w;
        low = (w.low_todo.0, w.low);
        low_todo = All-append _ todo _ w.low_todo.1 (children_low r es forest.up w.low_todo.0);
      }

      -- No more runs are in the list than delegations and the root.
      Walk-length :
          (seen todo : List String) → Walk seen todo → length (seen ++ todo) ≤ suc (length es)
      unfolding occurrences
      Walk-length seen todo w =
          let bounded = length_le (seen ++ todo) (root ∷ children_in es) (λ k. ground (
            arith,
            w.counted k,
            occurrences-append k seen todo,
            led_to_le k es seen (λ j. omega (arith, w.once j)),
          )) in
          omega (arith, bounded, length-children_in es)

module _ (rank : String → ℕ) (root : RunRow) (d : Database) where
  -- All runs have been visited; `rs` are those after `seen`.
  abbrev Finds : List String → Option (List RunRow) → Type 0
  Finds seen found =
      (rs : List RunRow) × (found ≡ some rs)
      × (all_seen : List String) × (Walk rank root.id d.run_dependencies all_seen [])
      × ((k : String) → occurrences k all_seen ≡ occurrences k (ids rs) + occurrences k seen)

  found-Finds :
      (seen : List String) (r : RunRow) (rest : Option (List RunRow))
      → Finds (r.id ∷ seen) rest
      → Finds seen (elim rest [ none ↦ none | some rs ↦ some (r ∷ rs) ])
  unfolding occurrences
  found-Finds seen r none (rs, is, done, w, count) = absurd (ground (arith, is))
  found-Finds seen r (some xs) (rs, is, done, w, count) =
      let same_list : xs ≡ rs = ap (λ o. get_or_else o xs) is in
      (
        r ∷ xs,
        refl,
        done,
        w,
        λ k. ground (arith, count k, ap (λ ys. occurrences k (ids ys)) same_list),
      )

  module _ (forest : IsForest rank d.run_dependencies)
      (known : All (λ (e : DependencyRow). IsKnown d e.child_id) d.run_dependencies) where
    descendants-Finds :
        (rounds : ℕ) (todo : List RunRow) (seen : List String)
        → Walk rank root.id d.run_dependencies seen (ids todo)
        → rounds + length seen ≡ suc (length d.run_dependencies)
        → Answers d (Finds seen) (descendants rounds todo)
    unfolding descendants occurrences
    descendants-Finds rounds [] seen w enough =
        Answers-pure d (some []) ([], refl, seen, w, λ k. omega arith)
    descendants-Finds zero (r ∷ todo) seen w enough = absurd (
        omega (
          arith,
          enough,
          length-append seen (r.id ∷ ids todo),
          Walk-length rank root.id d.run_dependencies forest seen (r.id ∷ ids todo) w,
        ))
    descendants-Finds (suc rounds) (r ∷ todo) seen w enough =
        Answers-then d _ _ _ (children-Answers d r.id known) (λ cs own.
          Answers-then d _ _ _
            (descendants-Finds rounds (todo ++ cs) (r.id ∷ seen)
              (subst (Walk rank root.id d.run_dependencies (r.id ∷ seen))
                (sym (map-append _ todo cs ∙ ap (λ js. ids todo ++ js) own))
                (visit-Walk rank root.id d.run_dependencies forest seen (ids todo) r.id w))
              (omega (arith, enough)))
            (λ rest finds. Answers-pure d _ (found-Finds seen r rest finds)))

    start-Walk : Walk rank root.id d.run_dependencies [] (root.id ∷ [])
    unfolding occurrences
    start-Walk = record {
      counted = λ k. ground (arith, led_to-none k d.run_dependencies);
      once = λ k. ground arith;
      low = tt;
      low_todo = (omega arith, tt);
    }

-- Let no run have two parents, let each delegation lead to a run of a higher rank, as its depth is,
-- and let its runs be in the table. The worklist of `cancel` comes to an end without an error, in as
-- many rounds as there are delegations and one: it is a list of runs in which none occurs twice, and a
-- run is in it just where it is the root or the child of a run in it.
pub worklist_complete :
    (rank : String → ℕ) (root : RunRow) (w : World Database)
    → IsForest rank w.db.run_dependencies
    → All (λ (e : DependencyRow). IsKnown w.db e.child_id) w.db.run_dependencies
    → (rs : List RunRow) × ((descendants (suc (length w.db.run_dependencies)) (root ∷ []) w).0
        ≡ ok (some rs))
      × ((k : String)
          → contains k (ids rs) ≡ (
              same root.id k
              || any
                  (λ (e : DependencyRow). same e.child_id k && contains e.parent_id (ids rs))
                  w.db.run_dependencies))
      × ((k : String) → occurrences k (ids rs) ≤ 1)
unfolding occurrences
worklist_complete rank root w forest known =
    let d = w.db in
    let (found, w', here, stays, finds) =
      (descendants-Finds rank root d forest known (suc (length d.run_dependencies)) (root ∷ []) []
          (start-Walk rank root d forest known) (omega arith)).at
        w refl in
    let (rs, is, done, walk, count) = finds in
    let same_count : (k : String) → occurrences k (ids rs) ≡ occurrences k done =
      λ k. ground (arith, count k) in
    (
      rs,
      ap (λ p. p.0) here ∙ ap (λ o. ok o) is,
      λ k. ground (
        arith,
        walk.counted k,
        same_count k,
        contains-occurrences k (ids rs),
        any-led_to k d.run_dependencies (ids rs),
        led_to-cong k d.run_dependencies (ids rs) done same_count,
      ),
      λ k. ground (arith, same_count k, walk.once k),
    )
