-- ===== src/Base/SkipList/Runs.antt =====
-- A skiplist that the operations made, and the map that they describe.
use iceberg_db.Prelude.{
  ℕ, ◌≡◌, refl, subst, sym, ap, ◌∙◌, Bool, Option, none, some, List, [], inl, inr, Option-cases,
  not, if◌then◌else◌,
}
use iceberg_db.Base.Slice.{is_zero}
use iceberg_db.Base.Comparator.{Comparator}
use iceberg_db.Base.SkipList.{SkipList, new, insert, remove, get, contains}
use iceberg_db.Base.SkipList.Chain.{Entry}
use iceberg_db.Base.SkipList.Entries.{lookup}
use iceberg_db.Base.SkipList.Invariant.{Holds}
use iceberg_db.Base.SkipList.Lookup.{get-lookup, contains-lookup, is_some}
use iceberg_db.Base.SkipList.Insert.{insert-Inserts, insert-present}
use iceberg_db.Base.SkipList.Remove.{remove-Removes}
use iceberg_db.Base.SkipList.New.{new-Holds}

some-eq : {A : Type 0} {a b : A} → some a ≡ some b → a ≡ b
some-eq e = cc

module _ {K V : Type 0} (o : Comparator K) where
  -- The map with the value of one key changed.
  abbrev pub assign : (K → Option V) → K → Option V → K → Option V
  assign m key v k = if is_zero (o.compare key k) then v else m k

  -- The skiplists that runs of the operations leave, each with the abstract map.
  pub data Run : SkipList K V → (K → Option V) → Type 0 where
    from_new :
        (memory : ℕ → ℕ → Option ℕ) (key : K) (value : V) (s : SkipList K V)
        → new memory key value ≡ some s
        → Run s (λ k. none)
    from_insert :
        (s s' : SkipList K V) (m : K → Option V) (key : K) (value : V)
        → Run s m
        → insert o s key value ≡ some s'
        → Run s' (assign m key (some value))
    from_remove :
        (s s' : SkipList K V) (m : K → Option V) (key : K) (found : Bool)
        → Run s m
        → remove o s key ≡ some (s', found)
        → Run s' (assign m key none)

  abbrev pub Implements : SkipList K V → (K → Option V) → Type 0
  Implements s m = (es : List (Entry K V)) × Holds o s es × ((k : K) → lookup o es k ≡ m k)

  -- The operations of a skiplist on the map that it implements.
  pub new-Implements :
      (memory : ℕ → ℕ → Option ℕ) (key : K) (value : V)
      → (s : SkipList K V) × (new memory key value ≡ some s) × Implements s (λ k. none)
  new-Implements memory key value =
      let (s, returns, holds) = new-Holds o memory key value in (s, returns, ([], holds, λ k. refl))

  pub get-Implements :
      (s : SkipList K V) (m : K → Option V)
      → Implements s m
      → (key : K) → get o s key ≡ some (m key)
  get-Implements s m (es, holds, same) key = get-lookup o s es holds key ∙ ap some (same key)

  pub contains-Implements :
      (s : SkipList K V) (m : K → Option V)
      → Implements s m
      → (key : K) → contains o s key ≡ some (is_some (m key))
  contains-Implements s m (es, holds, same) key =
      contains-lookup o s es holds key ∙ ap (λ (v : Option V). some (is_some v)) (same key)

  pub insert-Implements :
      (s : SkipList K V) (m : K → Option V) (key : K) (value : V)
      → Implements s m
      → m key ≡ none
      → (s' : SkipList K V) × (insert o s key value ≡ some s')
        × Implements s' (assign m key (some value))
  insert-Implements s m key value (es, holds, same) absent =
      let (s', es', returns, holds', looks) =
        insert-Inserts o s es holds key value (same key ∙ absent) in
      (
        s',
        returns,
        (
          es',
          holds',
          λ k.
              looks k
              ∙ ap (λ (v : Option V). if is_zero (o.compare key k) then some value else v) (same k),
        ),
      )

  pub remove-Implements :
      (s : SkipList K V) (m : K → Option V) (key : K)
      → Implements s m
      → (s' : SkipList K V) × (remove o s key ≡ some (s', is_some (m key)))
        × Implements s' (assign m key none)
  remove-Implements s m key (es, holds, same) =
      let (s', es', returns, holds', looks) = remove-Removes o s es holds key in
      (
        s',
        returns ∙ ap (λ (v : Option V). some (s', is_some v)) (same key),
        (
          es',
          holds',
          λ k.
              looks k
              ∙ ap (λ (v : Option V). if is_zero (o.compare key k) then none else v) (same k),
        ),
      )

  created-Implements :
      (memory : ℕ → ℕ → Option ℕ) (key : K) (value : V) (s : SkipList K V)
      → new memory key value ≡ some s
      → Implements s (λ k. none)
  created-Implements memory key value s e =
      let (s', returns, holds) = new-Holds o memory key value in
      ([], subst (λ (t : SkipList K V). Holds o t []) (some-eq (sym returns ∙ e)) holds, λ k. refl)

  inserted-Implements :
      (s s' : SkipList K V) (m : K → Option V) (key : K) (value : V)
      → Implements s m
      → insert o s key value ≡ some s'
      → Implements s' (assign m key (some value))
  inserted-Implements s s' m key value (es, holds, same) e = elim (Option-cases (lookup o es key)) [
    | inl absent ↦
        let (s2, es', returns, holds', looks) = insert-Inserts o s es holds key value absent in
        (
          es',
          subst (λ (t : SkipList K V). Holds o t es') (some-eq (sym returns ∙ e)) holds',
          λ k.
              looks k
              ∙ ap (λ (v : Option V). if is_zero (o.compare key k) then some value else v) (same k),
        )
    | inr (v, present) ↦
        let fault = insert-present o s es holds key value (ap is_some present) in cc
  ]

  removed-Implements :
      (s s' : SkipList K V) (m : K → Option V) (key : K) (found : Bool)
      → Implements s m
      → remove o s key ≡ some (s', found)
      → Implements s' (assign m key none)
  removed-Implements s s' m key found (es, holds, same) e =
      let (s2, es', returns, holds', looks) = remove-Removes o s es holds key in
      let both = some-eq (sym returns ∙ e) in
      (
        es',
        subst (λ (t : SkipList K V). Holds o t es') (ap (λ (p : SkipList K V × Bool). p.0) both)
            holds',
        λ k.
            looks k ∙ ap (λ (v : Option V). if is_zero (o.compare key k) then none else v) (same k),
      )

  pub Run-Implements : (s : SkipList K V) (m : K → Option V) → Run s m → Implements s m
  Run-Implements t m (from_new memory key value s e) = created-Implements memory key value s e
  Run-Implements t m (from_insert s s' n key value run e) =
      inserted-Implements s s' n key value (Run-Implements s n run) e
  Run-Implements t m (from_remove s s' n key found run e) =
      removed-Implements s s' n key found (Run-Implements s n run) e

  -- On a skiplist that the constructor made and that insertions and removals which return have
  -- changed, `FindEqual` of a key returns, and returns a node with the value that the run of these
  -- operations leaves at the key, or a null pointer where it leaves none; and `Contains` returns
  -- which of both it is.
  pub Run-get :
      (s : SkipList K V) (m : K → Option V)
      → Run s m
      → (key : K) → (get o s key ≡ some (m key)) × (contains o s key ≡ some (is_some (m key)))
  Run-get s m run key =
      let (es, holds, same) = Run-Implements s m run in
      (
        get-lookup o s es holds key ∙ ap some (same key),
        contains-lookup o s es holds key ∙ ap (λ (v : Option V). some (is_some v)) (same key),
      )

  -- On a skiplist that the constructor made and that insertions and removals which return have
  -- changed, `Insert` of a key returns exactly where the run has left no value at the key, its
  -- assertion fails elsewhere, and `Remove` of a key always returns, with true exactly where the
  -- run has left a value at the key.
  pub Run-returns :
      (s : SkipList K V) (m : K → Option V)
      → Run s m
      → (key : K) (value : V)
      → (is_some (insert o s key value) ≡ not (is_some (m key)))
        × ((s' : SkipList K V) × (remove o s key ≡ some (s', is_some (m key))))
  Run-returns s m run key value =
      let (es, holds, same) = Run-Implements s m run in
      let (s2, es', returns, holds', looks) = remove-Removes o s es holds key in
      (
        elim (Option-cases (lookup o es key)) [
          | inl absent ↦
              let (s3, es3, inserts, holds3, looks3) =
                insert-Inserts o s es holds key value absent in
              rw (inserts, sym (same key), absent) refl
          | inr (v, present) ↦
              rw
                (
                  insert-present o s es holds key value (ap is_some present),
                  sym (same key),
                  present,
                )
                refl
        ],
        (s2, returns ∙ ap (λ (v : Option V). some (s2, is_some v)) (same key)),
      )
