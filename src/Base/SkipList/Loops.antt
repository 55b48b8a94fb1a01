-- ===== src/Base/SkipList/Loops.antt =====
-- The loops of `RandomHeight`, `Insert` and `Remove`.
use iceberg_db.Prelude.{
  ℕ, zero, suc, ◌+◌, ◌-◌, ◌≤◌, ◌<◌, ◌≡◌, ◌≢◌, subst, refl, ap, ◌∙◌, Option, none, some, arith, ◌⊎◌,
  inl, inr,
}
use iceberg_db.Base.Random.{Random}
use iceberg_db.Base.Random
use iceberg_db.Base.SkipList.{
  update, Heap, store_next, clear_next, link, unlink, fill_prev, grow, random_height,
  max_height_limit,
}
use iceberg_db.Base.SkipList.Chain.{update_same, update_other}
use iceberg_db.Base.SkipList.Relink.{linked, unlinked}
use iceberg_db.Base.SkipList.Search.{load_next-below}

le_cases : (i j : ℕ) → i ≤ j → (i ≡ j) ⊎ (suc i ≤ j)
le_cases i j h = ground arith

grow-bounds :
    (rounds : ℕ) (rnd : Random) (height : ℕ)
    → (height ≤ (grow rounds rnd height).1) × ((grow rounds rnd height).1 ≤ height + rounds)
unfolding grow
grow-bounds zero rnd height = (omega arith, omega arith)
grow-bounds (suc rounds) rnd height =
    let others = grow-bounds rounds (Random.next rnd) (height + 1) in
    (ground (arith, others.0), ground (arith, others.1))

-- `RandomHeight` gives a height from 1 to `kMaxHeight`, as it asserts, from any state of the
-- generator.
pub random_height-bounds :
    (rnd : Random) → (0 < (random_height rnd).1) × ((random_height rnd).1 ≤ max_height_limit)
unfolding random_height
random_height-bounds rnd =
    let bounds = grow-bounds (max_height_limit - 1) rnd 1 in
    (omega (arith, bounds.0), omega (arith, bounds.1))

pub fill_prev-eq :
    (n i head : ℕ) (prev : ℕ → Option ℕ) (j : ℕ)
    → ((j < i) → fill_prev n i head prev j ≡ prev j)
      × ((i ≤ j) → (j < i + n) → fill_prev n i head prev j ≡ some head)
unfolding fill_prev
fill_prev-eq zero i head prev j = (λ h. refl, λ h k. absurd (omega arith))
fill_prev-eq (suc n) i head prev j =
    let others = fill_prev-eq n (suc i) head (update prev i (some head)) j in
    (
      λ h. others.0 (omega arith) ∙ ground arith,
      λ h k. elim (le_cases i j h) [
        | inl same ↦ others.0 (omega arith) ∙ ground arith
        | inr above ↦ others.1 above (omega arith)
      ],
    )

-- Two pointers of a level are written, one after the other.
abbrev rewritten : (ℕ → ℕ → Option ℕ) → ℕ → ℕ → Option ℕ → ℕ → Option ℕ → ℕ → ℕ → Option ℕ
rewritten f i p v r w = let f1 = update f i (update (f i) p v) in update f1 i (update (f1 i) r w)

module _ (f next : ℕ → ℕ → Option ℕ) (i n p : ℕ) (v : Option ℕ) (r : ℕ) (w : Option ℕ) where
  rewritten_same : rewritten f i p v r w i ≡ update (update (f i) p v) r w
  rewritten_same =
      update_same (update f i (update (f i) p v)) i _
      ∙ ap (λ (g : ℕ → Option ℕ). update g r w) (update_same f i (update (f i) p v))

  rewritten_other : (j : ℕ) → i ≢ j → rewritten f i p v r w j ≡ f j
  rewritten_other j apart =
      update_other (update f i (update (f i) p v)) i _ j apart
      ∙ update_other f i (update (f i) p v) j apart

  rewritten_first :
      (change : (ℕ → Option ℕ) → ℕ → ℕ → Option ℕ)
      → ((j : ℕ) → suc i ≤ j → j < suc i + n → next j ≡ change (rewritten f i p v r w j) j)
      → next i ≡ rewritten f i p v r w i
      → update (update (f i) p v) r w ≡ change (f i) i
      → (j : ℕ) → i ≤ j
      → j < i + suc n
      → next j ≡ change (f j) j
  rewritten_first change inside here changed j low high = elim (le_cases i j low) [
    | inl same ↦ subst (λ (j : ℕ). next j ≡ change (f j) j) same (here ∙ rewritten_same ∙ changed)
    | inr above ↦
        inside j above (omega arith)
        ∙ ap (λ (g : ℕ → Option ℕ). change g j) (rewritten_other j (omega arith))
  ]

  rewritten_outside :
      ((j : ℕ) → (j < suc i) ⊎ (suc i + n ≤ j) → next j ≡ rewritten f i p v r w j)
      → (j : ℕ) → (j < i) ⊎ (i + suc n ≤ j)
      → next j ≡ f j
  rewritten_outside outside j (inl before) =
      outside j (inl (omega arith)) ∙ rewritten_other j (omega arith)
  rewritten_outside outside j (inr behind) =
      outside j (inr (omega arith)) ∙ rewritten_other j (omega arith)

module _ {K V : Type 0} where
  store_next-below :
      (h : Heap K V) (p i : ℕ) (x : Option ℕ)
      → i < h.height p
      → store_next h p i x ≡ some (record h { next = update h.next i (update (h.next i) p x) })
  unfolding store_next
  store_next-below h p i x below = ground arith

  -- The nodes to be linked have pointers at the levels from `i` on.
  abbrev pub Linkable : Heap K V → (ℕ → Option ℕ) → (ℕ → ℕ) → ℕ → ℕ → ℕ → Type 0
  Linkable h prev q x i n =
      (j : ℕ) → i ≤ j → j < i + n → (prev j ≡ some (q j)) × (j < h.height (q j)) × (j < h.height x)

  -- Only pointers change, level by level.
  abbrev pub Relinks :
      Heap K V → ((ℕ → Option ℕ) → ℕ → ℕ → Option ℕ) → ℕ → ℕ → Option (Heap K V) → Type 0
  Relinks h change i n result =
      (next : ℕ → ℕ → Option ℕ) × (result ≡ some (record h { next = next }))
      × ((j : ℕ) → i ≤ j → j < i + n → next j ≡ change (h.next j) j)
      × ((j : ℕ) → (j < i) ⊎ (i + n ≤ j) → next j ≡ h.next j)

  pub link-Relinks :
      (n i : ℕ) (prev : ℕ → Option ℕ) (q : ℕ → ℕ) (x : ℕ) (h : Heap K V)
      → Linkable h prev q x i n
      → Relinks h (λ f j. linked f x (q j)) i n (link n i prev x h)
  unfolding link
  link-Relinks zero i prev q x h able =
      (h.next, refl, λ j low high. absurd (omega arith), λ j out. refl)
  link-Relinks (suc n) i prev q x h able =
      let (is_q, q_high, x_high) = able i (omega arith) (omega arith) in
      let behind = h.next i (q i) in
      let h1 : Heap K V = record h { next = update h.next i (update (h.next i) x behind) } in
      let h2 : Heap K V = record h1 { next = rewritten h.next i x behind (q i) (some x) } in
      let (next, returns, inside, outside) =
        link-Relinks n (suc i) prev q x h2 (λ j low high. able j (omega arith) (omega arith)) in
      (
        next,
        rw
            (
              is_q,
              load_next-below h (q i) i q_high,
              store_next-below h x i behind x_high,
              store_next-below h1 (q i) i (some x) q_high,
            )
            returns,
        rewritten_first h.next next i n x behind (q i) (some x) (λ f j. linked f x (q j)) inside
            (outside i (inl (omega arith))) refl,
        rewritten_outside h.next next i n x behind (q i) (some x) outside,
      )

  pub unlink-Relinks :
      (n i : ℕ) (prev : ℕ → Option ℕ) (q : ℕ → ℕ) (x : ℕ) (h : Heap K V)
      → Linkable h prev q x i n
      → Relinks h (λ f j. unlinked f x (q j)) i n (unlink n i prev x h)
  unfolding unlink
  unlink-Relinks zero i prev q x h able =
      (h.next, refl, λ j low high. absurd (omega arith), λ j out. refl)
  unlink-Relinks (suc n) i prev q x h able =
      let (is_q, q_high, x_high) = able i (omega arith) (omega arith) in
      let behind = h.next i x in
      let h1 : Heap K V = record h { next = update h.next i (update (h.next i) (q i) behind) } in
      let h2 : Heap K V = record h1 { next = rewritten h.next i (q i) behind x none } in
      let (next, returns, inside, outside) =
        unlink-Relinks n (suc i) prev q x h2 (λ j low high. able j (omega arith) (omega arith)) in
      (
        next,
        rw
            (
              is_q,
              load_next-below h x i x_high,
              store_next-below h (q i) i behind q_high,
              store_next-below h1 x i none x_high,
            )
            returns,
        rewritten_first h.next next i n (q i) behind x none (λ f j. unlinked f x (q j)) inside
            (outside i (inl (omega arith))) refl,
        rewritten_outside h.next next i n (q i) behind x none outside,
      )

  pub clear_next-clears :
      (n head tail : ℕ) (h : Heap K V)
      → n ≤ h.height head
      → n ≤ h.height tail
      → (next : ℕ → ℕ → Option ℕ) × (clear_next n head tail h ≡ some (record h { next = next }))
        × ((j : ℕ) → j < n → next j head ≡ none)
  unfolding clear_next
  clear_next-clears zero head tail h head_high tail_high =
      (h.next, refl, λ j low. absurd (omega arith))
  clear_next-clears (suc i) head tail h head_high tail_high =
      let (next, clears, cleared) = clear_next-clears i head tail h (omega arith) (omega arith) in
      let h1 : Heap K V = record h { next = next } in
      let h2 : Heap K V = record h1 { next = update next i (update (next i) head none) } in
      (
        rewritten next i head none tail none,
        rw
            (
              clears,
              store_next-below h1 head i none (omega arith),
              store_next-below h2 tail i none (omega arith),
            )
            refl,
        λ j low. elim (le_cases j i (omega arith)) [
          | inl same ↦ rw same (
              ap (λ (g : ℕ → Option ℕ). g head) (rewritten_same next next i 0 head none tail none)
              ∙ ground arith)
          | inr below ↦
              ap (λ (g : ℕ → Option ℕ). g head)
                (rewritten_other next next i 0 head none tail none j (omega arith))
              ∙ cleared j below
        ],
      )
