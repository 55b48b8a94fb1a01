-- ===== src/Base/SkipList/Relink.antt =====
-- The chain of a level when a node is linked into it, and when one is taken out.
use iceberg_db.Prelude.{
  ℕ, ◌<◌, ◌≡◌, ◌≢◌, subst, sym, ◌∙◌, Option, none, some, List, [], ◌∷◌, ◌++◌, All, All-map,
  All-both, All-append_left, All-append_right, arith,
}
use iceberg_db.Base.SkipList.{update}
use iceberg_db.Base.SkipList.Chain.{
  Entry, last_or, at_level, at_level-append, at_level-through, All-at_level, Distinct-at_level,
  Chain, Chain-frame, Without, Distinct,
}

-- The pointers of a level with `n` behind `q`, and those with the node behind `q` taken out.
abbrev pub linked : (ℕ → Option ℕ) → ℕ → ℕ → ℕ → Option ℕ
linked f n q = update (update f n (f q)) q (some n)

abbrev pub unlinked : (ℕ → Option ℕ) → ℕ → ℕ → ℕ → Option ℕ
unlinked f p q = update (update f q (f p)) p none

linked_at : (f : ℕ → Option ℕ) (n q : ℕ) → linked f n q q ≡ some n
linked_at f n q = ground arith

linked_new : (f : ℕ → Option ℕ) (n q : ℕ) → q ≢ n → linked f n q n ≡ f q
linked_new f n q h = ground arith

linked_other : (f : ℕ → Option ℕ) (n q p : ℕ) → p ≢ n → p ≢ q → linked f n q p ≡ f p
linked_other f n q p h k = ground arith

unlinked_at : (f : ℕ → Option ℕ) (p q : ℕ) → q ≢ p → unlinked f p q q ≡ f p
unlinked_at f p q h = ground arith

unlinked_other : (f : ℕ → Option ℕ) (p q r : ℕ) → r ≢ p → r ≢ q → unlinked f p q r ≡ f r
unlinked_other f p q r h k = ground arith

module _ {K V : Type 0} where
  -- The last of some entries is none that they, and the one before them, are distinct from.
  last_or-distinct : (p c : ℕ) (es : List (Entry K V)) → c ≢ p → Without p es → last_or c es ≢ p
  last_or-distinct p c [] h k = h
  last_or-distinct p c (e ∷ es) h k = last_or-distinct p e.at es k.0 k.1

  Chain-link :
      (f : ℕ → Option ℕ) (c : ℕ) (xs ys : List (Entry K V)) (n : Entry K V)
      → Chain f (f c) (xs ++ ys)
      → Without c (xs ++ ys)
      → Distinct (xs ++ ys)
      → Without n.at (xs ++ ys)
      → c ≢ n.at
      → let g = linked f n.at (last_or c xs) in Chain g (g c) (xs ++ n ∷ ys)
  Chain-link f c [] ys n h apart distinct fresh new =
      let kept : All (λ e. linked f n.at c e.at ≡ f e.at) ys =
        All-map _ _ ys (λ e d. linked_other f n.at c e.at d.0 d.1)
          (All-both (λ e. e.at ≢ n.at) (λ e. e.at ≢ c) ys fresh apart) in
      (
        linked_at f n.at c,
        rw (linked_new f n.at c new) (Chain-frame f (linked f n.at c) (f c) ys kept h),
      )
  Chain-link f c (x ∷ xs) ys n h apart distinct fresh new =
      let q = last_or x.at xs in
      let other = last_or-distinct c x.at xs apart.0 (All-append_left _ xs ys apart.1) in
      (
        linked_other f n.at q c new (λ e. other (sym e)) ∙ h.0,
        Chain-link f x.at xs ys n h.1 distinct.0 distinct.1 fresh.1 fresh.0,
      )

  Chain-unlink :
      (f : ℕ → Option ℕ) (c : ℕ) (xs ys : List (Entry K V)) (n : Entry K V)
      → Chain f (f c) (xs ++ n ∷ ys)
      → Without c (xs ++ n ∷ ys)
      → Distinct (xs ++ n ∷ ys)
      → let g = unlinked f n.at (last_or c xs) in Chain g (g c) (xs ++ ys)
  Chain-unlink f c [] ys n h apart distinct =
      let kept : All (λ e. unlinked f n.at c e.at ≡ f e.at) ys =
        All-map _ _ ys (λ e d. unlinked_other f n.at c e.at d.0 d.1)
          (All-both (λ e. e.at ≢ n.at) (λ e. e.at ≢ c) ys distinct.0 apart.1) in
      rw (unlinked_at f n.at c (λ e. apart.0 (sym e)))
        (Chain-frame f (unlinked f n.at c) (f n.at) ys kept h.1)
  Chain-unlink f c (x ∷ xs) ys n h apart distinct =
      let q = last_or x.at xs in
      let other = last_or-distinct c x.at xs apart.0 (All-append_left _ xs (n ∷ ys) apart.1) in
      let behind = All-append_right (λ e. e.at ≢ c) xs (n ∷ ys) apart.1 in
      (
        unlinked_other f n.at q c (λ e. behind.0 (sym e)) (λ e. other (sym e)) ∙ h.0,
        Chain-unlink f x.at xs ys n h.1 distinct.0 distinct.1,
      )

  module _ (f : ℕ → Option ℕ) (c i : ℕ) (xs ys : List (Entry K V)) (n : Entry K V) where
    -- The same at a level, for an entry that is high enough.
    pub Chain-link_level :
        i < n.height
        → Chain f (f c) (at_level i (xs ++ ys))
        → Without c (xs ++ ys)
        → Distinct (xs ++ ys)
        → Without n.at (xs ++ ys)
        → c ≢ n.at
        → let g = linked f n.at (last_or c (at_level i xs)) in
          Chain g (g c) (at_level i (xs ++ n ∷ ys))
    Chain-link_level high h apart distinct fresh new =
        let parts = at_level-append i xs ys in
        let g = linked f n.at (last_or c (at_level i xs)) in
        subst (Chain g (g c)) (sym (at_level-through i xs n ys high)) (
          Chain-link f c (at_level i xs) (at_level i ys) n (subst (Chain f (f c)) parts h)
            (subst (Without c) parts (All-at_level (λ e. e.at ≢ c) i (xs ++ ys) apart))
            (subst Distinct parts (Distinct-at_level i (xs ++ ys) distinct))
            (subst (Without n.at) parts (All-at_level (λ e. e.at ≢ n.at) i (xs ++ ys) fresh)) new)

    pub Chain-unlink_level :
        i < n.height
        → Chain f (f c) (at_level i (xs ++ n ∷ ys))
        → Without c (xs ++ n ∷ ys)
        → Distinct (xs ++ n ∷ ys)
        → let g = unlinked f n.at (last_or c (at_level i xs)) in
          Chain g (g c) (at_level i (xs ++ ys))
    Chain-unlink_level high h apart distinct =
        let parts = at_level-through i xs n ys high in
        let g = unlinked f n.at (last_or c (at_level i xs)) in
        subst (Chain g (g c)) (sym (at_level-append i xs ys)) (
          Chain-unlink f c (at_level i xs) (at_level i ys) n (subst (Chain f (f c)) parts h)
            (subst (Without c) parts (All-at_level (λ e. e.at ≢ c) i (xs ++ n ∷ ys) apart))
            (subst Distinct parts (Distinct-at_level i (xs ++ n ∷ ys) distinct)))
