-- ===== src/Safety/Extensions.antt =====
-- The names that plugins contribute to ExtensionRegistry of harness/plugins/registry.py.
use mi_harness.Prelude.{
  not-true, same_sym, String, ◌≡◌, refl, sym, subst, ◌∙◌, inl, inr, Bool, true, false, not, List,
  [], ◌∷◌, arith, All, All-append, All-imp, All-update_rows, same, eq→same, any, delete_rows,
  Bool-cases,
}
use mi_harness.Exec.{Code, Result, World, ok, err, modify, continue, ◌>>=◌, value_error}
use mi_harness.Exec.Keeps.{Keeps, Keeps-modify}
use mi_harness.Exec.Atomic.{IsAtomic}
use mi_harness.Exec.Reads.{
  ReadsFrom, ReadsFrom-then, ReadsFrom-require, ReadsFrom-gets, ReadsFrom-pure, ReadsFrom-raise,
}
use mi_harness.Plugins.Manifest.{Contribution, PluginManifest, name_of}
use mi_harness.Plugins.Extensions.{
  Entry, same_key, is_taken_by, put_entry, put_entries, named, stage, stage_all, register_atomic,
  unregister,
}

taken_sym : (a b : Entry) → is_taken_by a b ≡ is_taken_by b a
taken_sym a b =
    rw (same_sym b.category a.category)
      (rw (same_sym b.name a.name) (rw (same_sym b.plugin_id a.plugin_id) refl))

own_name :
    (a b : Entry) (plugin_id : String)
    → a.plugin_id ≡ plugin_id
    → b.plugin_id ≡ plugin_id
    → is_taken_by a b ≡ false
own_name a b plugin_id ha hb =
    let own : same b.plugin_id a.plugin_id ≡ true = eq→same b.plugin_id a.plugin_id (hb ∙ sym ha) in
    ground (arith, own)

-- No entry has its category and name in common with another plugin's.
pub IsExclusive : List Entry → Type 0
IsExclusive es = All (λ a. any (is_taken_by a) es ≡ false) es

none-All : (p : Entry → Bool) (es : List Entry) → any p es ≡ false → All (λ x. p x ≡ false) es
unfolding any
none-All p [] h = tt
none-All p (x ∷ xs) h = (ground (arith, h), none-All p xs (ground (arith, h)))

All-none : (p : Entry → Bool) (es : List Entry) → All (λ x. p x ≡ false) es → any p es ≡ false
unfolding any
All-none p [] h = refl
All-none p (x ∷ xs) h = rw h.0 (All-none p xs h.1)

All-both :
    (P Q R : Entry → Type 0) (es : List Entry)
    → ((e : Entry) → P e → Q e → R e)
    → All P es
    → All Q es
    → All R es
All-both P Q R [] f h k = tt
All-both P Q R (x ∷ xs) f h k = (f x h.0 k.0, All-both P Q R xs f h.1 k.1)

All-put_entry :
    (Q : Entry → Type 0) (es : List Entry) (e : Entry) → All Q es → Q e → All Q (put_entry es e)
unfolding put_entry
All-put_entry Q es e h own = elim (Bool-cases (any (λ x. same_key x e) es)) [
  | inl known ↦ rw known (All-update_rows Q (λ x. same_key x e) (λ x. e) es (λ x found old. own) h)
  | inr new ↦ rw new (All-append Q es (e ∷ []) h (own, tt))
]

any-put_entry :
    (p : Entry → Bool) (es : List Entry) (e : Entry)
    → any p es ≡ false
    → p e ≡ false
    → any p (put_entry es e) ≡ false
any-put_entry p es e h own =
    All-none p (put_entry es e) (All-put_entry (λ x. p x ≡ false) es e (none-All p es h) own)

put_entry-IsExclusive :
    (es : List Entry) (e : Entry)
    → IsExclusive es
    → any (is_taken_by e) es ≡ false
    → IsExclusive (put_entry es e)
unfolding IsExclusive
put_entry-IsExclusive es e h free =
    All-put_entry (λ a. any (is_taken_by a) (put_entry es e) ≡ false) es e
      (All-both (λ a. any (is_taken_by a) es ≡ false) (λ a. is_taken_by e a ≡ false) _ es
        (λ a old other. any-put_entry (is_taken_by a) es e old (taken_sym a e ∙ other)) h
        (none-All (is_taken_by e) es free))
      (any-put_entry (is_taken_by e) es e free (own_name e e e.plugin_id refl refl))

module _ (plugin_id : String) where
  -- An entry of the plugin, whose name no other plugin has in `es`.
  abbrev IsFree : List Entry → Entry → Type 0
  IsFree es e = (e.plugin_id ≡ plugin_id) × (any (is_taken_by e) es ≡ false)

  put_entries-IsExclusive :
      (es staged : List Entry)
      → IsExclusive es
      → All (IsFree es) staged
      → IsExclusive (put_entries es staged)
  unfolding put_entries
  put_entries-IsExclusive es [] h free = h
  put_entries-IsExclusive es (e ∷ staged) h free =
      put_entries-IsExclusive (put_entry es e) staged (put_entry-IsExclusive es e h free.0.1) (
        All-imp (IsFree es) (IsFree (put_entry es e))
          (λ a f.
            (f.0, any-put_entry (is_taken_by a) es e f.1 (own_name a e plugin_id f.0 free.0.0)))
          staged free.1)

named-Reads : (es : List Entry) (r : Result String) → ReadsFrom es (λ s. Unit {0}) (named r)
named-Reads es (ok s) = ReadsFrom-pure es s tt
named-Reads es (err c) = ReadsFrom-raise es c

module _ (supported : List String) (m : PluginManifest) (es : List Entry) where
  stage-Reads :
      (category : String) (cs : List Contribution) (staged : List Entry)
      → All (IsFree m.id es) staged
      → ReadsFrom es (All (IsFree m.id es)) (stage supported m category cs staged)
  unfolding stage
  stage-Reads category [] staged free = ReadsFrom-pure es staged free
  stage-Reads category (c ∷ cs) staged free =
      ReadsFrom-then es (λ s. Unit) _ _ (named-Reads es (name_of c))
        (λ name u. ReadsFrom-require es _ value_error _ (λ new.
          ReadsFrom-then es _ _ _ (ReadsFrom-gets es _) (λ taken found.
            ReadsFrom-require es (not taken) value_error _ (λ unused. stage-Reads category cs _ (
              All-append (IsFree m.id es) staged _ free
                ((refl, found ∙ not-true taken unused), tt))))))

  stage_all-Reads :
      (contributes : List (String × List Contribution)) (staged : List Entry)
      → All (IsFree m.id es) staged
      → ReadsFrom es (All (IsFree m.id es)) (stage_all supported m contributes staged)
  unfolding stage_all
  stage_all-Reads [] staged free = ReadsFrom-pure es staged free
  stage_all-Reads ((category, cs) ∷ rest) staged free =
      ReadsFrom-require es _ value_error _ (λ allowed.
        ReadsFrom-then es _ _ _ (stage-Reads category cs staged free)
          (λ more known. stage_all-Reads rest more known))

module _ (supported : List String) (m : PluginManifest) where
  registered :
      (es : List Entry) (r : Result (List Entry)) (w : World (List Entry))
      → (w.db ≡ es) × ((staged : List Entry) → r ≡ ok staged → All (IsFree m.id es) staged)
      → IsExclusive es
      → IsExclusive (continue r (λ staged. modify (λ entries. put_entries entries staged)) w).1.db
  unfolding IsExclusive ◌>>=◌
  registered es (ok staged) w known h =
      subst (λ x. IsExclusive (put_entries x staged)) (sym known.0)
        (put_entries-IsExclusive m.id es staged h (known.1 staged refl))
  registered es (err c) w known h = subst IsExclusive (sym known.0) h

  register_atomic-Keeps : Keeps IsExclusive (register_atomic supported m)
  unfolding register_atomic ◌>>=◌
  register_atomic-Keeps = record {
    at = λ w h.
        registered w.db (stage_all supported m m.contributes [] w).0
          (stage_all supported m m.contributes [] w).1
          ((stage_all-Reads supported m w.db m.contributes [] tt).at w refl) h;
  }

  unregistered :
      (es : List Entry) (r : Result (List Entry)) (w : World (List Entry)) (c : Code)
      → w.db ≡ es
      → (continue r (λ staged. modify (λ entries. put_entries entries staged)) w).0 ≡ err c
      → (continue r (λ staged. modify (λ entries. put_entries entries staged)) w).1.db ≡ es
  unfolding ◌>>=◌
  unregistered es (ok staged) w c same_state h = cc
  unregistered es (err e) w c same_state h = same_state

  register_atomic-IsAtomic : IsAtomic (register_atomic supported m)
  unfolding register_atomic ◌>>=◌
  register_atomic-IsAtomic = record {
    at = λ w c h.
        unregistered w.db (stage_all supported m m.contributes [] w).0
          (stage_all supported m m.contributes [] w).1 c
          ((stage_all-Reads supported m w.db m.contributes [] tt).at w refl).0 h;
  }

any-delete_rows :
    (p q : Entry → Bool) (es : List Entry) → any p es ≡ false → any p (delete_rows q es) ≡ false
unfolding any delete_rows
any-delete_rows p q [] h = refl
any-delete_rows p q (x ∷ xs) h = ground (arith, h, any-delete_rows p q xs)

All-delete_rows :
    (P : Entry → Type 0) (q : Entry → Bool) (es : List Entry) → All P es → All P (delete_rows q es)
unfolding delete_rows
All-delete_rows P q [] h = tt
All-delete_rows P q (x ∷ xs) h = elim (Bool-cases (q x)) [
  | inl y ↦ rw y (All-delete_rows P q xs h.1)
  | inr n ↦ rw n (h.0, All-delete_rows P q xs h.1)
]

unregister-Keeps : (plugin_id version : String) → Keeps IsExclusive (unregister plugin_id version)
unfolding unregister IsExclusive
unregister-Keeps plugin_id version = Keeps-modify _ (λ es h.
    All-delete_rows _ _ es (All-imp _ _ (λ a free. any-delete_rows (is_taken_by a) _ es free) es h))

-- Registering a manifest and taking a version of a plugin out again both keep the entries such that
-- no two plugins share a name of a category, and a registration that fails leaves all entries as
-- they were.
pub extension_names_exclusive :
    (supported : List String) (m : PluginManifest) (plugin_id version : String)
    → Keeps IsExclusive (register_atomic supported m)
      × Keeps IsExclusive (unregister plugin_id version)
      × IsAtomic (register_atomic supported m)
extension_names_exclusive supported m plugin_id version = (
  register_atomic-Keeps supported m,
  unregister-Keeps plugin_id version,
  register_atomic-IsAtomic supported m,
)
