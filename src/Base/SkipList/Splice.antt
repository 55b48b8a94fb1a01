-- ===== src/Base/SkipList/Splice.antt =====
-- An entry put between the entries of a skiplist, and one taken from them.
use iceberg_db.Prelude.{
  ◌≡◌, ◌≢◌, refl, sym, ap, ◌∙◌, true, false, none, some, List, [], ◌∷◌, ◌++◌, if◌then◌else◌, All,
  All-map, All-insert, All-delete, All-append_right, subst, arith, inl, inr, Bool-cases,
}
use iceberg_db.Base.Slice.{Sign, negative, zero_sign, positive, is_zero}
use iceberg_db.Base.Slice.Order.{opposite}
use iceberg_db.Base.Comparator.{Comparator}
use iceberg_db.Base.SkipList.{is_negative}
use iceberg_db.Base.SkipList.Chain.{Entry, Without, Distinct}
use iceberg_db.Base.SkipList.Entries.{under, from, Before, Sorted, lookup, is_negative-eq}
use iceberg_db.Base.SkipList.Lookup.{Sign-cases}

pub is_zero-eq : (s : Sign) → is_zero s ≡ true → s ≡ zero_sign
unfolding is_zero
is_zero-eq negative h = cc
is_zero-eq zero_sign h = refl
is_zero-eq positive h = cc

module _ {K V : Type 0} where
  pub Distinct-insert :
      (xs : List (Entry K V)) (n : Entry K V) (ys : List (Entry K V))
      → Distinct (xs ++ ys)
      → Without n.at (xs ++ ys)
      → Distinct (xs ++ n ∷ ys)
  Distinct-insert [] n ys h fresh = (fresh, h)
  Distinct-insert (x ∷ xs) n ys h fresh = (
    All-insert (λ e. e.at ≢ x.at) xs n ys h.0 (λ e. fresh.0 (sym e)),
    Distinct-insert xs n ys h.1 fresh.1,
  )

  pub Distinct-delete :
      (xs : List (Entry K V)) (n : Entry K V) (ys : List (Entry K V))
      → Distinct (xs ++ n ∷ ys)
      → Distinct (xs ++ ys)
  Distinct-delete [] n ys h = h.1
  Distinct-delete (x ∷ xs) n ys h =
      (All-delete (λ e. e.at ≢ x.at) xs n ys h.0, Distinct-delete xs n ys h.1)

  module _ (o : Comparator K) where
    pub Sorted-insert :
        (xs : List (Entry K V)) (n : Entry K V) (ys : List (Entry K V))
        → Sorted o (xs ++ ys)
        → All (λ e. Before o e n) xs
        → All (Before o n) ys
        → Sorted o (xs ++ n ∷ ys)
    Sorted-insert [] n ys h before after = (after, h)
    Sorted-insert (x ∷ xs) n ys h before after =
        (All-insert (Before o x) xs n ys h.0 before.0, Sorted-insert xs n ys h.1 before.1 after)

    pub Sorted-delete :
        (xs : List (Entry K V)) (n : Entry K V) (ys : List (Entry K V))
        → Sorted o (xs ++ n ∷ ys)
        → Sorted o (xs ++ ys)
    Sorted-delete [] n ys h = h.1
    Sorted-delete (x ∷ xs) n ys h = (All-delete (Before o x) xs n ys h.0, Sorted-delete xs n ys h.1)

    pub under-before :
        (key : K) (es : List (Entry K V))
        → All (λ e. o.compare e.key key ≡ negative) (under o key es)
    under-before key [] = tt
    under-before key (e ∷ es) = elim (Bool-cases (is_negative (o.compare e.key key))) [
      | inl b ↦ rw b (is_negative-eq (o.compare e.key key) b, under-before key es)
      | inr b ↦ rw b tt
    ]

    lookup-behind :
        (e : Entry K V) (es : List (Entry K V)) (key : K)
        → is_zero (o.compare e.key key) ≡ false
        → lookup o (e ∷ es) key ≡ lookup o es key
    lookup-behind e es key other = rw other refl

    -- A key that is not there is before all that it is not behind.
    pub from-after :
        (key : K) (es : List (Entry K V))
        → Sorted o es
        → lookup o es key ≡ none
        → All (λ e. o.compare key e.key ≡ negative) (from o key es)
    unfolding is_zero opposite
    from-after key [] h absent = tt
    from-after key (e ∷ es) h absent = elim (Sign-cases (o.compare e.key key)) [
      | inl before ↦
          let absent' : lookup o es key ≡ none =
            sym (lookup-behind e es key (ap is_zero before)) ∙ absent in
          rw before (from-after key es h.1 absent')
      | inr (inl same) ↦ let there : lookup o (e ∷ es) key ≡ some e.value = rw same refl in cc
      | inr (inr behind) ↦
          let after : o.compare key e.key ≡ negative =
            o.compare-flip e.key key ∙ ap opposite behind in
          rw behind (
            after,
            All-map (Before o e) (λ d. o.compare key d.key ≡ negative) es
                (λ d b. o.lt_trans key e.key d.key after b) h.0,
          )
    ]

    -- A lookup finds its way by the entries before the key, or at once.
    pub lookup-insert :
        (xs : List (Entry K V)) (n : Entry K V) (ys : List (Entry K V))
        → All (λ e. Before o e n) xs
        → (key : K)
        → lookup o (xs ++ n ∷ ys) key
          ≡ (if is_zero (o.compare n.key key) then some n.value else lookup o (xs ++ ys) key)
    unfolding is_zero
    lookup-insert [] n ys before key = refl
    lookup-insert (x ∷ xs) n ys before key = elim (Bool-cases (is_zero (o.compare n.key key))) [
      | inl same ↦
          let before_key : o.compare x.key key ≡ negative =
            subst (λ (k : K). o.compare x.key k ≡ negative)
              (o.eq_of_zero n.key key (is_zero-eq (o.compare n.key key) same)) before.0 in
          lookup-behind x (xs ++ n ∷ ys) key (ap is_zero before_key)
          ∙ lookup-insert xs n ys before.1 key
          ∙ rw same refl
      | inr other ↦ ground (arith, other, lookup-insert xs n ys before.1 key)
    ]

    lookup-none :
        (es : List (Entry K V)) (key : K)
        → All (λ e. is_zero (o.compare e.key key) ≡ false) es
        → lookup o es key ≡ none
    lookup-none [] key h = refl
    lookup-none (e ∷ es) key h = lookup-behind e es key h.0 ∙ lookup-none es key h.1

    -- The keys on both sides of an entry differ from its key.
    sides-apart :
        (xs : List (Entry K V)) (n : Entry K V) (ys : List (Entry K V))
        → Sorted o (xs ++ n ∷ ys)
        → All (λ e. is_zero (o.compare e.key n.key) ≡ false) (xs ++ ys)
    unfolding is_zero opposite
    sides-apart [] n ys h =
        All-map (Before o n) (λ e. is_zero (o.compare e.key n.key) ≡ false) ys
          (λ e b. ap is_zero (o.compare-flip n.key e.key ∙ ap opposite b)) h.0
    sides-apart (x ∷ xs) n ys h =
        (ap is_zero (All-append_right (Before o x) xs (n ∷ ys) h.0).0, sides-apart xs n ys h.1)

    sides-Before :
        (xs : List (Entry K V)) (n : Entry K V) (ys : List (Entry K V))
        → Sorted o (xs ++ n ∷ ys)
        → All (λ e. Before o e n) xs
    sides-Before [] n ys h = tt
    sides-Before (x ∷ xs) n ys h =
        ((All-append_right (Before o x) xs (n ∷ ys) h.0).0, sides-Before xs n ys h.1)

    pub lookup-delete :
        (xs : List (Entry K V)) (n : Entry K V) (ys : List (Entry K V))
        → Sorted o (xs ++ n ∷ ys)
        → (key : K)
        → lookup o (xs ++ ys) key
          ≡ (if is_zero (o.compare n.key key) then none else lookup o (xs ++ n ∷ ys) key)
    lookup-delete xs n ys h key = elim (Bool-cases (is_zero (o.compare n.key key))) [
      | inl same ↦
          let eq = o.eq_of_zero n.key key (is_zero-eq (o.compare n.key key) same) in
          rw same (
            subst (λ (k : K). lookup o (xs ++ ys) k ≡ none) eq
              (lookup-none (xs ++ ys) n.key (sides-apart xs n ys h)))
      | inr other ↦
          rw other (sym (lookup-insert xs n ys (sides-Before xs n ys h) key ∙ rw other refl))
    ]
