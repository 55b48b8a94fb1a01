-- ===== src/Base/Maps.antt =====
-- `std::map`, as the list of its entries in the order of their keys, which a comparator gives.
use iceberg_db.Prelude.{
  ◌≡◌, refl, ap, sym, ◌∙◌, true, false, if◌then◌else◌, is_some, inl, inr, Option, none, some, List,
  [], ◌∷◌, All, subst,
}
use iceberg_db.Base.Slice.{Sign, negative, zero_sign, positive, is_zero}
use iceberg_db.Base.Slice.Order.{opposite}
use iceberg_db.Base.Comparator.{Comparator, Sign-cases}

-- What is done where a key is before, at and after the one that is looked for.
abbrev pub at_sign {ℓ} : {A : Type ℓ} → Sign → A → A → A → A
at_sign negative before at after = before
at_sign zero_sign before at after = at
at_sign positive before at after = after

abbrev pub or_else {ℓ} : {A : Type ℓ} → Option A → A → A
or_else none a = a
or_else (some b) a = b

opposite_itself : (s : Sign) → s ≡ opposite s → s ≡ zero_sign
unfolding opposite
opposite_itself negative h = cc
opposite_itself zero_sign h = refl
opposite_itself positive h = cc

pub same_sign : {K : Type 0} (order : Comparator K) (k : K) → order.compare k k ≡ zero_sign
same_sign order k = opposite_itself (order.compare k k) (order.compare-flip k k)

after_sign :
    {K : Type 0} (order : Comparator K) (k j i : K)
    → order.compare j k ≡ positive
    → order.compare k i ≡ positive
    → order.compare j i ≡ positive
unfolding opposite
after_sign order k j i e d =
    let e' : order.compare k j ≡ negative = order.compare-flip j k ∙ ap opposite e in
    let d' : order.compare i k ≡ negative = order.compare-flip k i ∙ ap opposite d in
    order.compare-flip i j ∙ ap opposite (order.lt_trans i k j d' e')

module _ {K V : Type 0} (order : Comparator K) where
  -- `find`: the value, and `none` for `end()`
  unfoldable pub find : K → List (K × V) → Option V
  find k [] = none
  find k ((j, v) ∷ m) = let rest = find k m in at_sign (order.compare j k) rest (some v) none

  -- `insert(std::make_pair(k, v))`, which keeps an entry that the key has
  unfoldable pub insert : K → V → List (K × V) → List (K × V)
  insert k v [] = (k, v) ∷ []
  insert k v ((j, w) ∷ m) =
      let rest = insert k v m in
      at_sign (order.compare j k) ((j, w) ∷ rest) ((j, w) ∷ m) ((k, v) ∷ (j, w) ∷ m)

  -- What a write through the reference that `at` or `find` gives leaves in the map.
  unfoldable pub assign : K → V → List (K × V) → List (K × V)
  assign k v [] = []
  assign k v ((j, w) ∷ m) =
      let rest = assign k v m in
      at_sign (order.compare j k) ((j, w) ∷ rest) ((j, v) ∷ m) ((j, w) ∷ m)

  -- `erase` of the entry that the key has
  unfoldable pub erase : K → List (K × V) → List (K × V)
  erase k [] = []
  erase k ((j, w) ∷ m) =
      let rest = erase k m in at_sign (order.compare j k) ((j, w) ∷ rest) m ((j, w) ∷ m)

  -- A key that was inserted has the value that it had, or else the new one.
  pub find-insert :
      (k : K) (v : V) (m : List (K × V)) → find k (insert k v m) ≡ some (or_else (find k m) v)
  unfolding find insert
  find-insert k v [] = rw (same_sign order k) refl
  find-insert k v ((j, w) ∷ m) = elim (Sign-cases (order.compare j k)) [
    | inl e ↦ rw (e, e) (find-insert k v m)
    | inr (inl e) ↦ rw (e, e) refl
    | inr (inr e) ↦ rw (e, same_sign order k) refl
  ]

  -- What holds of a new entry and of all entries holds after an insertion.
  pub All-insert {κ} :
      (P : K × V → Type κ) (k : K) (v : V) (m : List (K × V))
      → P (k, v)
      → All P m
      → All P (insert k v m)
  unfolding insert
  All-insert P k v [] p h = (p, tt)
  All-insert P k v ((j, w) ∷ m) p h = elim (Sign-cases (order.compare j k)) [
    | inl e ↦ rw e (h.0, All-insert P k v m p h.1)
    | inr (inl e) ↦ rw e h
    | inr (inr e) ↦ rw e (p, h)
  ]

  -- What holds of all entries holds of the one that a key has.
  pub All-find {κ} :
      (P : K × V → Type κ) (k : K) (v : V) (m : List (K × V))
      → All P m
      → find k m ≡ some v
      → P (k, v)
  unfolding find
  All-find P k v [] h e = cc
  All-find P k v ((j, w) ∷ m) h e = elim (Sign-cases (order.compare j k)) [
    | inl c ↦ let rest : find k m ≡ some v = cc in All-find P k v m h.1 rest
    | inr (inl c) ↦
        let same : w ≡ v = cc in
        subst (λ (u : V). P (k, u)) same (subst (λ (i : K). P (i, w)) (order.eq_of_zero j k c) h.0)
    | inr (inr c) ↦ cc
  ]

  -- A write leaves which keys there are.
  pub is_some-find-assign :
      (k i : K) (v : V) (m : List (K × V)) → is_some (find i (assign k v m)) ≡ is_some (find i m)
  unfolding find assign
  is_some-find-assign k i v [] = refl
  is_some-find-assign k i v ((j, w) ∷ m) = elim (Sign-cases (order.compare j k)) [
    | inl e ↦ elim (Sign-cases (order.compare j i)) [
      | inl d ↦ rw (e, d) (is_some-find-assign k i v m)
      | inr (inl d) ↦ rw (e, d) refl
      | inr (inr d) ↦ rw (e, d) refl
    ]
    | inr (inl e) ↦ elim (Sign-cases (order.compare j i)) [
      | inl d ↦ rw (e, d) refl
      | inr (inl d) ↦ rw (e, d) refl
      | inr (inr d) ↦ rw (e, d) refl
    ]
    | inr (inr e) ↦ rw e refl
  ]

  -- A key that the map has gets the value that is written.
  pub find-assign :
      (k : K) (v w : V) (m : List (K × V)) → find k m ≡ some w → find k (assign k v m) ≡ some v
  unfolding find assign
  find-assign k v w [] h = cc
  find-assign k v w ((j, u) ∷ m) h = elim (Sign-cases (order.compare j k)) [
    | inl e ↦ let rest : find k m ≡ some w = cc in rw (e, e) (find-assign k v w m rest)
    | inr (inl e) ↦ rw (e, e) refl
    | inr (inr e) ↦ cc
  ]

  -- Other keys keep their values.
  pub find-assign_other :
      (k i : K) (v : V) (m : List (K × V))
      → is_zero (order.compare k i) ≡ false
      → find i (assign k v m) ≡ find i m
  unfolding find assign is_zero
  find-assign_other k i v [] h = refl
  find-assign_other k i v ((j, w) ∷ m) h = elim (Sign-cases (order.compare j k)) [
    | inl e ↦ rw e (
        ap (λ (o : Option V). at_sign (order.compare j i) o (some w) none)
          (find-assign_other k i v m h))
    | inr (inl e) ↦
        let same = order.eq_of_zero j k e in
        elim (Sign-cases (order.compare j i)) [
          | inl d ↦ rw (e, d) refl
          | inr (inl d) ↦
              let zero_too : order.compare k i ≡ zero_sign =
                ap (λ (x : K). order.compare x i) (sym same) ∙ d in
              cc
          | inr (inr d) ↦ rw (e, d) refl
        ]
    | inr (inr e) ↦ rw e refl
  ]

  pub find-insert_other :
      (k i : K) (v : V) (m : List (K × V))
      → is_zero (order.compare k i) ≡ false
      → find i (insert k v m) ≡ find i m
  unfolding find insert is_zero
  find-insert_other k i v [] h = elim (Sign-cases (order.compare k i)) [
    | inl d ↦ rw d refl
    | inr (inl d) ↦ cc
    | inr (inr d) ↦ rw d refl
  ]
  find-insert_other k i v ((j, w) ∷ m) h = elim (Sign-cases (order.compare j k)) [
    | inl e ↦ rw e (
        ap (λ (o : Option V). at_sign (order.compare j i) o (some w) none)
          (find-insert_other k i v m h))
    | inr (inl e) ↦ rw e refl
    | inr (inr e) ↦ elim (Sign-cases (order.compare k i)) [
      | inl d ↦ rw (e, d) refl
      | inr (inl d) ↦ cc
      | inr (inr d) ↦ rw (e, d, after_sign order k j i e d) refl
    ]
  ]

  -- An insertion adds its key to those that there are.
  pub is_some-find-insert :
      (k i : K) (v : V) (m : List (K × V))
      → is_some (find i (insert k v m))
        ≡ (if is_zero (order.compare k i) then true else is_some (find i m))
  unfolding is_zero
  is_some-find-insert k i v m = elim (Sign-cases (order.compare k i)) [
    | inl d ↦ rw d (ap is_some (find-insert_other k i v m (rw d refl)))
    | inr (inl d) ↦
        let same = order.eq_of_zero k i d in
        rw d (
          ap (λ (x : K). is_some (find x (insert k v m))) (sym same)
          ∙ ap is_some (find-insert k v m))
    | inr (inr d) ↦ rw d (ap is_some (find-insert_other k i v m (rw d refl)))
  ]
