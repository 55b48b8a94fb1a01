-- ===== src/Base/SkipList/New.antt =====
-- The skiplist that the constructor makes holds nothing.
use mathlib.Core.Option
use iceberg_db.Prelude.{ℕ, ◌≡◌, refl, ap, Option, some, [], arith}
use iceberg_db.Base.Comparator.{Comparator}
use iceberg_db.Base.Random
use iceberg_db.Base.SkipList.{Heap, SkipList, new, new_node, max_height_limit}
use iceberg_db.Base.SkipList.Invariant.{Holds}
use iceberg_db.Base.SkipList.Loops.{clear_next-clears}

-- The constructor returns, whatever the memory held, and the list is empty.
pub new-Holds :
    {K V : Type 0} (o : Comparator K) (memory : ℕ → ℕ → Option ℕ) (key : K) (value : V)
    → (s : SkipList K V) × (new memory key value ≡ some s) × Holds o s []
unfolding new new_node
new-Holds {K} {V} o memory key value =
    let fresh : Heap K V = record {
      height = λ p. 0;
      key = λ p. key;
      value = λ p. value;
      next = memory;
      size = 0;
    } in
    let (h1, head) = new_node fresh key value max_height_limit in
    let (h2, tail) = new_node h1 key value max_height_limit in
    let (next, clears, cleared) =
      clear_next-clears max_height_limit head tail h2 (omega arith) (omega arith) in
    (
      record {
        heap = record h2 { next = next };
        head = head;
        tail = tail;
        max_height = 1;
        rnd = Random.new 0xdead_beef;
      },
      ap
          (Option.map (λ (h : Heap K V). record {
            heap = h;
            head = head;
            tail = tail;
            max_height = 1;
            rnd = Random.new 0xdead_beef;
          }))
          clears,
      record {
        stored = tt;
        sorted = tt;
        head_apart = tt;
        distinct = tt;
        below = tt;
        head_below = omega arith;
        heights = tt;
        head_height = refl;
        max_positive = omega arith;
        max_limit = omega arith;
        count = omega arith;
        levels = λ i low. cleared i low;
      },
    )
