-- ===== src/Log/Limiter.antt =====
-- ibdb/src/log/format.h: `Limiter`, on which threads act in any order. The `int` of the counter is its
-- value modulo 2^32. Each atomic operation is a step of a thread.
pub mod Bound
use iceberg_db.Prelude.{
  ℕ, zero, suc, ◌+◌, ◌-◌, ◌%◌, ◌^◌, Bool, ◌&&◌, List, [], ◌∷◌, ltb, if◌then◌else◌,
}

pub record Limiter : Type 0 where
  pub acquires_allowed : ℕ

-- `Limiter(int max_acquires)`
unfoldable pub new : ℕ → Limiter
new max_acquires = record { acquires_allowed = max_acquires % 2 ^ 32 }

-- A thread is outside, has acquired, or is about to give back what it took in vain.
pub data Phase : Type 0 where
  idle holding undoing : Phase

-- `old_acquires_allowed > 0`
unfoldable pub is_positive : ℕ → Bool
is_positive old = ltb 0 old && ltb old (2 ^ 31)

-- `bool Acquire()`, up to its test: the phase is what the test leads to.
unfoldable pub acquire : Limiter → Limiter × Phase
acquire l = (
  record { acquires_allowed = (l.acquires_allowed + (2 ^ 32 - 1)) % 2 ^ 32 },
  if is_positive l.acquires_allowed then holding else undoing,
)

-- `fetch_add(1)`: the rest of an `Acquire` that returns false, and `void Release()`
unfoldable pub add_one : Limiter → Limiter
add_one l = record { acquires_allowed = (l.acquires_allowed + 1) % 2 ^ 32 }

-- The next atomic operation of a thread that acquires and releases over and over.
unfoldable pub next_operation : Limiter → Phase → Limiter × Phase
next_operation l idle = acquire l
next_operation l holding = (add_one l, idle)
next_operation l undoing = (add_one l, idle)

-- A turn of one of the threads
unfoldable pub turn : ℕ → Limiter → List Phase → Limiter × List Phase
turn i l [] = (l, [])
turn zero l (p ∷ ps) = let (l', p') = next_operation l p in (l', p' ∷ ps)
turn (suc i) l (p ∷ ps) = let (l', ps') = turn i l ps in (l', p ∷ ps')

unfoldable pub turns : List ℕ → Limiter → List Phase → Limiter × List Phase
turns [] l ps = (l, ps)
turns (i ∷ order) l ps = let (l', ps') = turn i l ps in turns order l' ps'
