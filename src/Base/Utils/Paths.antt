-- ===== src/Base/Utils/Paths.antt =====
-- The directories that `MkdirRecur` makes.
use mathlib.Core.List.{append_assoc, append-nil}
use iceberg_db.Prelude.{
  ℕ, ◌≡◌, refl, ap, subst, Bool, true, List, [], ◌∷◌, ◌++◌, ◌==◌, arith, inl, inr, Bool-cases,
}
use iceberg_db.Base.Utils.{Made, is_there, mkdir, mkdir_from, mkdir_recur}

-- What the calls are documented to do: a directory is there after a call for it that made it or found it,
-- and no call removes one.
pub record Directories {World : Type 0} (call : World → List ℕ → World × Made) : Type 1 where
  pub There : World → List ℕ → Type 0
  pub makes :
      (w : World) (path : List ℕ) → is_there (call w path).1 ≡ true → There (call w path).0 path
  pub keeps : (w : World) (path other : List ℕ) → There w other → There (call w path).0 other

module _ {World : Type 0} (call : World → List ℕ → World × Made) (dirs : Directories call) where
  mkdir_from-keeps :
      (w : World) (front rest other : List ℕ)
      → dirs.There w other
      → dirs.There (mkdir_from call w front rest).0 other
  unfolding mkdir_from mkdir
  mkdir_from-keeps w front [] other there = dirs.keeps w front other there
  mkdir_from-keeps w front (c ∷ []) other there = dirs.keeps w (front ++ c ∷ []) other there
  mkdir_from-keeps w front (c ∷ d ∷ rest) other there = elim (Bool-cases (c == b'/')) [
    | inr e ↦ rw e (mkdir_from-keeps w (front ++ c ∷ []) (d ∷ rest) other there)
    | inl e ↦
        let next = front ++ c ∷ [] in
        let after = dirs.keeps w next other there in
        elim (Bool-cases (is_there (call w next).1)) [
          | inl ok ↦ rw (e, ok) (mkdir_from-keeps (call w next).0 next (d ∷ rest) other after)
          | inr failed ↦ rw (e, failed) after
        ]
  ]

  -- A call that went well in the middle of a path: the rest went well too, behind the call that made the
  -- front part where that ends in '/'.
  went_on :
      (w : World) (front : List ℕ) (c d : ℕ) (rest : List ℕ) (w' : World)
      → mkdir_from call w front (c ∷ d ∷ rest) ≡ (w', true)
      → (w1 : World) × (mkdir_from call w1 (front ++ c ∷ []) (d ∷ rest) ≡ (w', true))
        × (c ≡ b'/' → dirs.There w1 (front ++ c ∷ []))
  unfolding mkdir_from mkdir
  went_on w front c d rest w' ok = elim (Bool-cases (c == b'/')) [
    | inr e ↦ (w, ground arith, λ same. absurd (ground arith))
    | inl e ↦ elim (Bool-cases (is_there (call w (front ++ c ∷ [])).1)) [
      | inl there ↦
          ((call w (front ++ c ∷ [])).0, ground arith, λ same. dirs.makes w (front ++ c ∷ []) there)
      | inr failed ↦ absurd (ground arith)
    ]
  ]

  mkdir-There :
      (w : World) (path : List ℕ) (w' : World) → mkdir call w path ≡ (w', true) → dirs.There w' path
  unfolding mkdir
  mkdir-There w path w' ok =
      subst (λ (r : World × Bool). dirs.There r.0 path) ok
        (dirs.makes w path (ap (λ (r : World × Bool). r.1) ok))

  last_there :
      (w : World) (front rest : List ℕ) (w' : World)
      → mkdir_from call w front rest ≡ (w', true)
      → dirs.There w' (front ++ rest)
  unfolding mkdir_from
  last_there w front [] w' ok = rw (append-nil front) (mkdir-There w front w' ok)
  last_there w front (c ∷ []) w' ok = mkdir-There w (front ++ c ∷ []) w' ok
  last_there w front (c ∷ d ∷ rest) w' ok =
      let (w1, later, there) = went_on w front c d rest w' ok in
      subst (dirs.There w') (append_assoc front (c ∷ []) (d ∷ rest))
        (last_there w1 (front ++ c ∷ []) (d ∷ rest) w' later)

  ancestor_there :
      (w : World) (front before behind : List ℕ) (x : ℕ) (w' : World)
      → mkdir_from call w front (before ++ b'/' ∷ x ∷ behind) ≡ (w', true)
      → dirs.There w' (front ++ (before ++ b'/' ∷ []))
  ancestor_there w front [] behind x w' ok =
      let (w1, later, there) = went_on w front b'/' x behind w' ok in
      subst (λ (r : World × Bool). dirs.There r.0 (front ++ b'/' ∷ [])) later
        (mkdir_from-keeps w1 (front ++ b'/' ∷ []) (x ∷ behind) (front ++ b'/' ∷ []) (there refl))
  ancestor_there w front (b ∷ []) behind x w' ok =
      let (w1, later, there) = went_on w front b b'/' (x ∷ behind) w' ok in
      subst (dirs.There w') (append_assoc front (b ∷ []) (b'/' ∷ []))
        (ancestor_there w1 (front ++ b ∷ []) [] behind x w' later)
  ancestor_there w front (b ∷ c ∷ before) behind x w' ok =
      let (w1, later, there) = went_on w front b c (before ++ b'/' ∷ x ∷ behind) w' ok in
      subst (dirs.There w') (append_assoc front (b ∷ []) (c ∷ before ++ b'/' ∷ []))
        (ancestor_there w1 (front ++ b ∷ []) (c ∷ before) behind x w' later)

  -- Where `MkdirRecur` of a path returns true, the directory of the path is there, and so is that of each
  -- front part of the path that ends in a '/' and is not all of it.
  mkdir_recur-There :
      (w w' : World) (before behind : List ℕ) (x : ℕ)
      → mkdir_recur call w (before ++ b'/' ∷ x ∷ behind) ≡ (w', true)
      → dirs.There w' (before ++ b'/' ∷ []) × dirs.There w' (before ++ b'/' ∷ x ∷ behind)
  unfolding mkdir_recur
  mkdir_recur-There w w' before behind x ok = (
    ancestor_there w [] before behind x w' ok,
    last_there w [] (before ++ b'/' ∷ x ∷ behind) w' ok,
  )
