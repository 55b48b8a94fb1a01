-- ===== src/Base/Arena/Examples.antt =====
-- An arena over memory that grows upwards.
use iceberg_db.Prelude.{ℕ, ◌+◌, ◌*◌, ◌≤◌, refl, true, false, List, [], ◌∷◌, All, arith, inl, inr}
use iceberg_db.Base.Arena.{Region, new}
use iceberg_db.Base.Arena.Regions.{Apart, Fresh, IsArena}
use iceberg_db.Base.Arena.Calls.{Call, serve, Served, serve-new-Served}

-- An address behind every block.
abbrev top : List Region → ℕ
top [] = 8
top (b ∷ bs) = b.address + b.size + top bs

abbrev growing : List Region → ℕ → ℕ
growing blocks n = 8 * top blocks

behind-Apart : (blocks : List Region) (r : Region) → top blocks ≤ r.address → All (Apart r) blocks
behind-Apart [] r h = tt
behind-Apart (b ∷ bs) r h = (inr (omega arith), behind-Apart bs r (omega arith))

growing-Fresh : Fresh growing
growing-Fresh blocks n = (
  behind-Apart blocks (record { address = growing blocks n; size = n }) (omega arith),
  omega arith,
)

new-IsArena : IsArena new []
unfolding new
new-IsArena = record { free_within = inl (refl, refl); given_within = tt; given_apart = tt }

abbrev some_calls : List Call
some_calls = (false, 5) ∷ (true, 40) ∷ (true, 2000) ∷ (false, 4000) ∷ []

serve-new-Served_example : Served [] some_calls (serve growing new [] some_calls)
serve-new-Served_example = serve-new-Served growing growing-Fresh some_calls (omega arith)
