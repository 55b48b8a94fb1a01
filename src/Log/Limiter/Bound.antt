-- ===== src/Log/Limiter/Bound.antt =====
-- No more threads have acquired than the limiter allows.
use iceberg_db.Prelude.{
  ℕ, zero, suc, ◌+◌, ◌-◌, ◌%◌, ◌^◌, ◌≤◌, ◌<◌, ◌≡◌, refl, List, [], ◌∷◌, length, replicate,
  length-replicate, if◌then◌else◌, inl, inr, ◌⊎◌, Bool-cases, arith,
}
use iceberg_db.Log.Limiter.{
  Limiter, Phase, idle, holding, undoing, new, is_positive, acquire, add_one, next_operation, turn,
  turns,
}

abbrev holds_one : Phase → ℕ
holds_one idle = 0
holds_one holding = 1
holds_one undoing = 0

abbrev takes_one : Phase → ℕ
takes_one idle = 0
takes_one holding = 1
takes_one undoing = 1

-- How many threads have acquired, and how many have lowered the counter.
abbrev pub holders : List Phase → ℕ
holders [] = 0
holders (p ∷ ps) = holds_one p + holders ps

abbrev takers : List Phase → ℕ
takers [] = 0
takers (p ∷ ps) = takes_one p + takers ps

takers-length : (ps : List Phase) → takers ps ≤ length ps
takers-length [] = omega arith
takers-length (idle ∷ ps) = omega (arith, takers-length ps)
takers-length (holding ∷ ps) = omega (arith, takers-length ps)
takers-length (undoing ∷ ps) = omega (arith, takers-length ps)

holders-takers : (ps : List Phase) → holders ps ≤ takers ps
holders-takers [] = omega arith
holders-takers (idle ∷ ps) = omega (arith, holders-takers ps)
holders-takers (holding ∷ ps) = omega (arith, holders-takers ps)
holders-takers (undoing ∷ ps) = omega (arith, holders-takers ps)

idle-takers : (n : ℕ) → takers (replicate n idle) ≡ 0
idle-takers zero = refl
idle-takers (suc n) = omega (arith, idle-takers n)

-- What a turn does to the counter `c`, the takers `t` and the holders `h`.
abbrev Turned : ℕ → ℕ → ℕ → ℕ → ℕ → ℕ → Type 0
Turned c t h c' t' h' =
    ((c' ≡ c) × (t' ≡ t) × (h' ≡ h))
    ⊎ ((c' ≡ (c + (2 ^ 32 - 1)) % 2 ^ 32)
        × (t' ≡ t + 1)
        × (h' ≡ h + (if is_positive c then 1 else 0)))
    ⊎ ((c' ≡ (c + 1) % 2 ^ 32) × (t' + 1 ≡ t) × (h' ≤ h))

turn-Turned :
    (i : ℕ) (l : Limiter) (ps : List Phase)
    → Turned l.acquires_allowed
        (takers ps)
        (holders ps)
        (turn i l ps).0.acquires_allowed
        (takers (turn i l ps).1)
        (holders (turn i l ps).1)
unfolding turn next_operation acquire add_one
turn-Turned i l [] = inl (refl, refl, refl)
turn-Turned zero l (idle ∷ ps) = elim (Bool-cases (is_positive l.acquires_allowed)) [
  | inl b ↦ rw b (inr (inl (refl, omega arith, omega arith)))
  | inr b ↦ rw b (inr (inl (refl, omega arith, omega arith)))
]
turn-Turned zero l (holding ∷ ps) = inr (inr (refl, omega arith, omega arith))
turn-Turned zero l (undoing ∷ ps) = inr (inr (refl, omega arith, omega arith))
turn-Turned (suc i) l (p ∷ ps) = elim (turn-Turned i l ps) [
  | inl (c, t, h) ↦ inl (c, omega (arith, t), omega (arith, h))
  | inr (inl (c, t, h)) ↦ inr (inl (c, omega (arith, t), omega (arith, h)))
  | inr (inr (c, t, h)) ↦ inr (inr (c, omega (arith, t), omega (arith, h)))
]

length-turn : (i : ℕ) (l : Limiter) (ps : List Phase) → length (turn i l ps).1 ≡ length ps
unfolding turn
length-turn i l [] = refl
length-turn zero l (p ∷ ps) = refl
length-turn (suc i) l (p ∷ ps) = omega (arith, length-turn i l ps)

-- The counter and those that lowered it make up what is allowed.
abbrev Balanced : ℕ → ℕ → ℕ → ℕ → Type 0
Balanced allowed c t h = (c < 2 ^ 32) × ((c + t) % 2 ^ 32 ≡ allowed) × (h ≤ t) × (h ≤ allowed)

Turned-Balanced :
    (allowed c t h c' t' h' : ℕ)
    → allowed < 2 ^ 31
    → t' < 2 ^ 31
    → t < 2 ^ 31
    → Balanced allowed c t h
    → Turned c t h c' t' h'
    → (h' ≤ t')
    → Balanced allowed c' t' h'
unfolding is_positive
Turned-Balanced allowed c t h c' t' h' small few few' (a, b, d, e) turned within = elim turned [
  | inl (same, same_t, same_h) ↦
      (omega (arith, same), omega (arith, same, same_t), within, omega (arith, same_h))
  | inr (inl (down, more, held)) ↦
      (omega (arith, down), omega (arith, down, more), within, ground (arith, held))
  | inr (inr (up, fewer, held)) ↦
      (omega (arith, up), omega (arith, up, fewer), within, omega (arith, held))
]

turns-allowed :
    (order : List ℕ) (allowed : ℕ) (l : Limiter) (ps : List Phase)
    → length ps < 2 ^ 31
    → allowed < 2 ^ 31
    → Balanced allowed l.acquires_allowed (takers ps) (holders ps)
    → holders (turns order l ps).1 ≤ allowed
unfolding turns
turns-allowed [] allowed l ps few small h = h.3
turns-allowed (i ∷ order) allowed l ps few small h =
    turns-allowed order allowed (turn i l ps).0 (turn i l ps).1 (omega (arith, length-turn i l ps))
      small
      (Turned-Balanced allowed l.acquires_allowed (takers ps) (holders ps) _ _ _ small
        (omega (arith, takers-length (turn i l ps).1, length-turn i l ps))
        (omega (arith, takers-length ps)) h (turn-Turned i l ps) (holders-takers (turn i l ps).1))

-- Whatever the order in which less than 2^31 threads take their atomic steps, on a new limiter of less
-- than 2^31 resources, no more threads hold a resource than the limiter has.
pub holders-turns :
    (order : List ℕ) (max_acquires threads : ℕ)
    → threads < 2 ^ 31
    → max_acquires < 2 ^ 31
    → holders (turns order (new max_acquires) (replicate threads idle)).1 ≤ max_acquires
unfolding new
holders-turns order max_acquires threads few small =
    let none_taken = idle-takers threads in
    let none_held = holders-takers (replicate threads idle) in
    turns-allowed order max_acquires (new max_acquires) (replicate threads idle)
      (omega (arith, length-replicate threads idle)) small
      (omega arith, omega (arith, none_taken), omega arith, omega (arith, none_taken, none_held))
