-- ===== src/Safety/Children.antt =====
-- Store.children of harness/storage/store.py returns the children that are recorded.
use mi_harness.Prelude.{
  is_some, Option-cases, String, ◌≡◌, refl, sym, subst, ap, ◌∙◌, inl, inr, true, none, some, List,
  [], ◌∷◌, map, arith, All, same, same→eq, select, Bool-cases, find_row_sound,
}
use mi_harness.Exec.{not_found}
use mi_harness.Exec.Answers.{
  Answers, Answers-then, Answers-gets, Answers-pure, Answers-or_raise, Answers-require,
}
use mi_harness.Store.Schema.{RunRow, DependencyRow, Database}
use mi_harness.Store.Runs.{with_run_id, find_run, run}
use mi_harness.Store.Waits.{child_ids_of, runs_of, children}
use mi_harness.Safety.Counting.{children_of}

abbrev pub ids : List RunRow → List String
ids rs = map (λ (r : RunRow). r.id) rs

abbrev pub IsKnown : Database → String → Type 0
IsKnown d k = is_some (find_run k d) ≡ true

run-Answers : (d : Database) (k : String) → IsKnown d k → Answers d (λ r. r.id ≡ k) (run k none)
unfolding run
run-Answers d k known = elim (Option-cases (find_run k d)) [
  | inl missing ↦ absurd (ground (arith, known, missing))
  | inr (r, found) ↦ Answers-then d _ _ _ (Answers-gets d (find_run k)) (λ o at.
      Answers-then d _ _ _ (Answers-or_raise d not_found o r (sym at ∙ found)) (λ x is.
        Answers-require d _ not_found _ refl (
          Answers-pure d x (
            same→eq x.id k
              (find_row_sound (with_run_id k) d.runs x (found ∙ ap (λ y. some y) is))))))
]

runs_of-Answers :
    (d : Database) (ks : List String)
    → All (IsKnown d) ks
    → Answers d (λ rs. ids rs ≡ ks) (runs_of ks)
unfolding runs_of
runs_of-Answers d [] known = Answers-pure d [] refl
runs_of-Answers d (k ∷ ks) known = Answers-then d _ _ _ (run-Answers d k known.0) (λ r own.
    Answers-then d _ _ _ (runs_of-Answers d ks known.1)
      (λ rs others. Answers-pure d (r ∷ rs) (rw (own, others) refl)))

children-IsKnown :
    (d : Database) (k : String) (es : List DependencyRow)
    → All (λ (e : DependencyRow). IsKnown d e.child_id) es
    → All (IsKnown d) (children_of k es)
unfolding select
children-IsKnown d k [] h = tt
children-IsKnown d k (e ∷ es) h =
    let others : All (IsKnown d) (children_of k es) = children-IsKnown d k es h.1 in
    elim (Bool-cases (same e.parent_id k)) [
      | inl own ↦ rw own (h.0, others)
      | inr other ↦ rw other others
    ]

pub children-Answers :
    (d : Database) (k : String)
    → All (λ (e : DependencyRow). IsKnown d e.child_id) d.run_dependencies
    → Answers d (λ rs. ids rs ≡ children_of k d.run_dependencies) (children k)
unfolding children
children-Answers d k known = Answers-then d _ _ _ (Answers-gets d (child_ids_of k)) (λ ks at.
    subst (λ js. Answers d (λ rs. ids rs ≡ children_of k d.run_dependencies) (runs_of js)) at
      (runs_of-Answers d (children_of k d.run_dependencies)
        (children-IsKnown d k d.run_dependencies known)))
