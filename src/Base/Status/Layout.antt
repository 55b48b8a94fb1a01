-- ===== src/Base/Status/Layout.antt =====
-- The parts of the array of a status.
use iceberg_db.Prelude.{
  ℕ, ◌+◌, ◌%◌, ◌^◌, ◌<◌, ◌≡◌, ◌≢◌, ltb, refl, ap, false, none, some, List, [], ◌∷◌, ◌++◌, ◌==◌,
  if◌then◌else◌, length, take, drop, take_all, arith, length-append, Bool-cases, inl, inr,
}
use mathlib.Core.List.{append-nil}
use iceberg_db.Base.Coding.{Endian, little, big, object_bytes, object_value, byte_at}
use iceberg_db.Base.Coding.RoundTrip.{object_value-object_bytes}
use iceberg_db.Base.Status.{
  Code, code_number, new, construct, copy, copy_state, code, type_text, to_string,
}

-- The message of a status that was made of two.
abbrev pub message : List ℕ → List ℕ → List ℕ
message msg msg2 = msg ++ (if length msg2 == 0 then [] else b':' ∷ b' ' ∷ msg2)

abbrev pub Fits : List ℕ → List ℕ → Type 0
Fits msg msg2 = length msg + length msg2 + 7 < 2 ^ 32

parts_at :
    (host : Endian) (size c : ℕ) (text : List ℕ)
    → let state = object_bytes host 4 size ++ (c ∷ text) in
      (byte_at state 4 ≡ c) × (drop 5 state ≡ text) × (length state ≡ 5 + length text)
unfolding object_bytes
parts_at little size c text = (refl, refl, omega arith)
parts_at big size c text = (refl, refl, omega arith)

module _ (host : Endian) where
  state_parts :
      (size c : ℕ) (text : List ℕ)
      → size < 2 ^ 32
      → let state = object_bytes host 4 size ++ (c ∷ text) in
        (object_value host (take 4 state) ≡ size)
        × (byte_at state 4 ≡ c)
        × (drop 5 state ≡ text)
        × (length state ≡ 5 + length text)
  state_parts size c text h = (
    object_value-object_bytes host size (c ∷ text) h,
    (parts_at host size c text).0,
    (parts_at host size c text).1,
    (parts_at host size c text).2,
  )

  code_fits : (c : Code) → code_number c < 256
  unfolding code_number
  code_fits Code.ok = omega arith
  code_fits _ = omega arith

  length-message :
      (msg msg2 : List ℕ)
      → length msg + (if length msg2 == 0 then 0 else 2 + length msg2) ≡ length (message msg msg2)
  length-message msg msg2 = elim (Bool-cases (length msg2 == 0)) [
    | inl e ↦ rw (e, append-nil) (omega arith)
    | inr e ↦ rw e (omega (arith, length-append msg (b':' ∷ b' ' ∷ msg2)))
  ]

  size_lem :
      (msg msg2 : List ℕ)
      → Fits msg msg2
      → (length msg + (if length msg2 == 0 then 0 else 2 + length msg2)) % 2 ^ 32
        ≡ length (message msg msg2)
  size_lem msg msg2 fits = elim (Bool-cases (length msg2 == 0)) [
    | inl e ↦ rw (e, append-nil) (omega arith)
    | inr e ↦ rw e (omega (arith, length-append msg (b':' ∷ b' ' ∷ msg2)))
  ]

  -- The array as three parts, where the messages are short enough for a 32-bit length.
  new_lem :
      (c : Code) (msg msg2 : List ℕ)
      → Fits msg msg2
      → new host c msg msg2
        ≡ some
            (object_bytes host 4 (length (message msg msg2)) ++ (code_number c ∷ message msg msg2))
  unfolding new
  new_lem c msg msg2 fits =
      let e1 : length msg % 2 ^ 32 ≡ length msg = omega arith in
      let e2 : length msg2 % 2 ^ 32 ≡ length msg2 = omega arith in
      let t1 : take (length msg) msg ≡ msg = take_all (length msg) msg (omega arith) in
      let t2 : take (length msg2) msg2 ≡ msg2 = take_all (length msg2) msg2 (omega arith) in
      let ce : code_number c % 256 ≡ code_number c = omega (arith, code_fits c) in
      rw (e1, e2, t1, t2, ce, size_lem msg msg2 fits)

  construct_lem :
      (c : Code) (msg msg2 : List ℕ)
      → Fits msg msg2
      → code_number c ≢ 0
      → (construct host Code.ok msg msg2 ≡ none)
        × (construct host c msg msg2 ≡ some (new host c msg msg2))
  unfolding construct code_number
  construct_lem c msg msg2 fits error =
      let other : (code_number c == 0) ≡ false = ground (arith, error) in
      let e1 : length msg % 2 ^ 32 ≡ length msg = omega arith in
      let e2 : length msg2 % 2 ^ 32 ≡ length msg2 = omega arith in
      let len = length (message msg msg2) in
      let text : length msg + (if length msg2 == 0 then 0 else 2 + length msg2) ≡ len =
        length-message msg msg2 in
      let short : len + 5 < 2 ^ 32 = grind (arith, size_lem msg msg2 fits) in
      let room : ltb ((len % 2 ^ 32 + 5) % 2 ^ 32) (len + 5) ≡ false = ground (arith, short) in
      (refl, rw (other, e1, e2, text, room) refl)

  -- What the array of a status gives back
  array_faithful :
      (unknown : ℕ → List ℕ) (c : Code) (msg msg2 : List ℕ)
      → Fits msg msg2
      → (code host (new host c msg msg2) ≡ code_number c)
        × (to_string host unknown (new host c msg msg2)
            ≡ type_text host unknown (code_number c) ++ message msg msg2)
        × (copy host (new host c msg msg2) ≡ new host c msg msg2)
  unfolding code to_string copy copy_state
  array_faithful unknown c msg msg2 fits =
      let text = message msg msg2 in
      let short : length text + 5 < 2 ^ 32 = grind (arith, size_lem msg msg2 fits) in
      let (size, at, behind, whole) =
        state_parts (length text) (code_number c) text (omega arith) in
      let sized : (length text + 5) % 2 ^ 32 ≡ length text + 5 = omega (arith, short) in
      rw new_lem (
        at,
        rw (size, at, behind)
            (ap (λ (t : List ℕ). type_text host unknown (code_number c) ++ t)
              (take_all (length text) text (omega arith))),
        ap some (rw (size, sized) (take_all (length text + 5) _ (rw whole (omega arith)))),
      )

  -- The constructor faults for the code of OK. With any other code, and two messages that fit a 32-bit length
  -- with the two bytes between them and the five in front, it makes a status that has that code,
  -- prints the text of the code followed by the messages, and is copied whole.
  pub new_faithful :
      (unknown : ℕ → List ℕ) (c : Code) (msg msg2 : List ℕ)
      → Fits msg msg2
      → code_number c ≢ 0
      → (construct host Code.ok msg msg2 ≡ none)
        × (construct host c msg msg2 ≡ some (new host c msg msg2))
        × (code host (new host c msg msg2) ≡ code_number c)
        × (to_string host unknown (new host c msg msg2)
            ≡ type_text host unknown (code_number c) ++ message msg msg2)
        × (copy host (new host c msg msg2) ≡ new host c msg msg2)
  new_faithful unknown c msg msg2 fits error =
      let (refuses, makes) = construct_lem c msg msg2 fits error in
      let (has_code, prints, copies) = array_faithful unknown c msg msg2 fits in
      (refuses, makes, has_code, prints, copies)
