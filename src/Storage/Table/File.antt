-- ===== src/Storage/Table/File.antt =====
-- The bytes of a log file of messages, and the place of each message.
use mathlib.Core.List.{append_assoc}
use iceberg_db.Prelude.{
  ℕ, zero, suc, ◌+◌, ◌^◌, ◌≡◌, ◌<◌, ◌≤◌, refl, ap, sym, ◌∙◌, List, [], ◌∷◌, ◌++◌, length, take,
  drop, get_elem?, arith,
}
use iceberg_db.Storage.Disk.Layout.{message_bytes}

-- A message that `GetMessage` has memory for
abbrev pub Short : List ℕ → Type 0
Short message = length message + 1 < 2 ^ 31

-- The messages from an offset on, one behind the other
unfoldable pub file_bytes : ℕ → List (List ℕ) → List ℕ
file_bytes start [] = []
file_bytes start (m ∷ ms) = message_bytes start m ++ file_bytes (start + 1) ms

-- Where the message with an offset stands in the file of these messages.
unfoldable pub position : List (List ℕ) → ℕ → ℕ
position ms offset = length (file_bytes 0 (take offset ms))

pub file_bytes-append :
    (start : ℕ) (xs ys : List (List ℕ))
    → file_bytes start (xs ++ ys) ≡ file_bytes start xs ++ file_bytes (start + length xs) ys
unfolding file_bytes
file_bytes-append start [] ys =
    let same : start ≡ start + 0 = omega arith in ap (λ (n : ℕ). file_bytes n ys) same
file_bytes-append start (x ∷ xs) ys =
    let shift : start + 1 + length xs ≡ start + suc (length xs) = omega arith in
    ap (λ (bs : List ℕ). message_bytes start x ++ bs)
      (file_bytes-append (start + 1) xs ys
        ∙ ap (λ (n : ℕ). file_bytes (start + 1) xs ++ file_bytes n ys) shift)
    ∙ sym (
        append_assoc (message_bytes start x) (file_bytes (start + 1) xs)
          (file_bytes (start + suc (length xs)) ys))

take-append_le :
    {A : Type 0} (n : ℕ) (xs ys : List A) → n ≤ length xs → take n (xs ++ ys) ≡ take n xs
take-append_le zero xs ys h = refl
take-append_le (suc n) [] ys h = absurd (omega arith)
take-append_le (suc n) (x ∷ xs) ys h =
    ap (λ (zs : List _). x ∷ zs) (take-append_le n xs ys (omega arith))

-- What is put behind the messages does not move them.
pub position-append :
    (ms more : List (List ℕ)) (offset : ℕ)
    → offset ≤ length ms
    → position (ms ++ more) offset ≡ position ms offset
unfolding position
position-append ms more offset h =
    ap (λ (xs : List (List ℕ)). length (file_bytes 0 xs)) (take-append_le offset ms more h)

pub get_elem-append :
    {A : Type 0} (xs ys : List A) (i : ℕ) → i < length xs → get_elem? (xs ++ ys) i ≡ get_elem? xs i
get_elem-append [] ys i h = absurd (omega arith)
get_elem-append (x ∷ xs) ys zero h = refl
get_elem-append (x ∷ xs) ys (suc i) h = get_elem-append xs ys i (omega arith)

pub get_elem-drop :
    {A : Type 0} (n k : ℕ) (xs : List A) → get_elem? (drop n xs) k ≡ get_elem? xs (n + k)
get_elem-drop zero k xs = let same : k ≡ 0 + k = omega arith in ap (get_elem? xs) same
get_elem-drop (suc n) k [] = refl
get_elem-drop (suc n) k (x ∷ xs) =
    let same : suc (n + k) ≡ suc n + k = omega arith in
    get_elem-drop n k xs ∙ ap (get_elem? (x ∷ xs)) same
