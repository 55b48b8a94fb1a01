-- ===== src/Base/SkipList/Chain.antt =====
-- The lists that the pointers of one level of a skiplist run through.
use iceberg_db.Prelude.{
  ℕ, ◌<◌, ◌≤◌, ◌≡◌, ◌≢◌, refl, ◌∙◌, true, false, Option, none, some, List, [], ◌∷◌, ◌++◌, ltb,
  if◌then◌else◌, All, arith, inl, inr, Bool-cases,
}
use iceberg_db.Base.SkipList.{update}

-- What a node holds, and where it is.
pub record Entry (K V : Type 0) : Type 0 where
  pub at : ℕ
  pub height : ℕ
  pub key : K
  pub value : V

pub update_same : {A : Type 0} (f : ℕ → A) (p : ℕ) (v : A) → update f p v p ≡ v
update_same f p v = ground arith

pub update_other : {A : Type 0} (f : ℕ → A) (p : ℕ) (v : A) (q : ℕ) → p ≢ q → update f p v q ≡ f q
update_other f p v q h = ground arith

module _ {K V : Type 0} where
  abbrev pub first : List (Entry K V) → Option ℕ
  first [] = none
  first (e ∷ es) = some e.at

  abbrev pub last_or : ℕ → List (Entry K V) → ℕ
  last_or c [] = c
  last_or c (e ∷ es) = last_or e.at es

  -- The entries that have a pointer at a level.
  abbrev pub at_level : ℕ → List (Entry K V) → List (Entry K V)
  at_level i [] = []
  at_level i (e ∷ es) = if ltb i e.height then e ∷ at_level i es else at_level i es

  -- From a first pointer on, the pointers run through the entries, to null.
  abbrev pub Chain : (ℕ → Option ℕ) → Option ℕ → List (Entry K V) → Type 0
  Chain f start [] = start ≡ none
  Chain f start (e ∷ es) = (start ≡ some e.at) × Chain f (f e.at) es

  abbrev pub Without : ℕ → List (Entry K V) → Type 0
  Without p es = All (λ e. e.at ≢ p) es

  abbrev pub Distinct : List (Entry K V) → Type 0
  Distinct [] = Unit
  Distinct (e ∷ es) = Without e.at es × Distinct es

  pub Chain-first :
      (f : ℕ → Option ℕ) (start : Option ℕ) (es : List (Entry K V))
      → Chain f start es
      → start ≡ first es
  Chain-first f start [] h = h
  Chain-first f start (e ∷ es) h = h.0

  pub Chain-append_right :
      (f : ℕ → Option ℕ) (c : ℕ) (xs ys : List (Entry K V))
      → Chain f (f c) (xs ++ ys)
      → Chain f (f (last_or c xs)) ys
  Chain-append_right f c [] ys h = h
  Chain-append_right f c (x ∷ xs) ys h = Chain-append_right f x.at xs ys h.1

  -- A chain is kept by pointers that agree on its entries.
  pub Chain-frame :
      (f g : ℕ → Option ℕ) (start : Option ℕ) (es : List (Entry K V))
      → All (λ e. g e.at ≡ f e.at) es
      → Chain f start es
      → Chain g start es
  Chain-frame f g start [] same h = h
  Chain-frame f g start (e ∷ es) same h = (h.0, rw same.0 (Chain-frame f g (f e.at) es same.1 h.1))

  pub at_level-append :
      (i : ℕ) (xs ys : List (Entry K V)) → at_level i (xs ++ ys) ≡ at_level i xs ++ at_level i ys
  at_level-append i [] ys = refl
  at_level-append i (x ∷ xs) ys = ground (arith, at_level-append i xs ys)

  pub All-at_level :
      (P : Entry K V → Type 0) (i : ℕ) (es : List (Entry K V)) → All P es → All P (at_level i es)
  All-at_level P i [] h = tt
  All-at_level P i (e ∷ es) h = elim (Bool-cases (ltb i e.height)) [
    | inl t ↦ rw t (h.0, All-at_level P i es h.1)
    | inr t ↦ rw t (All-at_level P i es h.1)
  ]

  pub Distinct-at_level : (i : ℕ) (es : List (Entry K V)) → Distinct es → Distinct (at_level i es)
  Distinct-at_level i [] h = tt
  Distinct-at_level i (e ∷ es) h = elim (Bool-cases (ltb i e.height)) [
    | inl t ↦ rw t (All-at_level (λ d. d.at ≢ e.at) i es h.0, Distinct-at_level i es h.1)
    | inr t ↦ rw t (Distinct-at_level i es h.1)
  ]

  pub at_level-through :
      (i : ℕ) (ds : List (Entry K V)) (e : Entry K V) (es : List (Entry K V))
      → i < e.height
      → at_level i (ds ++ e ∷ es) ≡ at_level i ds ++ e ∷ at_level i es
  at_level-through i ds e es above =
      let here : ltb i e.height ≡ true = ground (arith, above) in
      at_level-append i ds (e ∷ es) ∙ rw here refl

  pub at_level-past :
      (i : ℕ) (ds : List (Entry K V)) (e : Entry K V) (es : List (Entry K V))
      → e.height ≤ i
      → at_level i (ds ++ e ∷ es) ≡ at_level i (ds ++ es)
  at_level-past i ds e es below =
      let here : ltb i e.height ≡ false = ground (arith, below) in
      at_level-append i ds (e ∷ es) ∙ rw (here, at_level-append i ds es) refl

  pub last_or-append :
      (c : ℕ) (ds : List (Entry K V)) (e : Entry K V) (es : List (Entry K V))
      → last_or c (ds ++ e ∷ es) ≡ last_or e.at es
  last_or-append c [] e es = refl
  last_or-append c (d ∷ ds) e es = last_or-append d.at ds e es
