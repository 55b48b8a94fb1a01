-- ===== src/Base/SkipList.antt =====
-- ibdb/src/base/skiplist.h. A node is known by a number, in order of allocation; the heap holds the
-- fields of the nodes. `none` is a fault: an access behind `next_`, or a failed assertion.
pub mod Chain
pub mod Relink
pub mod Entries
pub mod Search
pub mod Walk
pub mod Invariant
pub mod Lookup
pub mod Loops
pub mod Splice
pub mod Linked
pub mod Insert
pub mod Remove
pub mod New
pub mod Runs
pub mod Iterator
pub mod Examples
use mathlib.Core.Option
use iceberg_db.Prelude.{
  ℕ, zero, suc, ◌+◌, ◌-◌, ◌%◌, Bool, true, false, ◌&&◌, not, Option, none, some, ltb, ◌==◌,
  if◌then◌else◌,
}
use iceberg_db.Base.Slice.{Sign, is_zero, negative, zero_sign, positive}
use iceberg_db.Base.Random.{Random}
use iceberg_db.Base.Random
use iceberg_db.Base.Comparator.{Comparator}

abbrev pub max_height_limit : ℕ
max_height_limit = 12

abbrev pub branching : ℕ
branching = 4

abbrev pub is_negative : Sign → Bool
is_negative negative = true
is_negative zero_sign = false
is_negative positive = false

abbrev pub update : {A : Type 0} → (ℕ → A) → ℕ → A → ℕ → A
update f p v q = if p == q then v else f q

-- `struct Node`: the fields of each node, and the number of nodes.
pub record Heap (K V : Type 0) : Type 0 where
  pub height : ℕ → ℕ
  pub key : ℕ → K
  pub value : ℕ → V
  pub next : ℕ → ℕ → Option ℕ
  pub size : ℕ

pub record SkipList (K V : Type 0) : Type 0 where
  pub heap : Heap K V
  pub head : ℕ
  pub tail : ℕ
  pub max_height : ℕ
  pub rnd : Random

-- The loop of `RandomHeight`, with the rounds that are left to `kMaxHeight`.
unfoldable pub grow : ℕ → Random → ℕ → Random × ℕ
grow zero rnd height = (rnd, height)
grow (suc rounds) rnd height =
    let rnd' = Random.next rnd in
    let more = grow rounds rnd' (height + 1) in
    if rnd'.seed % branching == 0 then more else (rnd', height)

-- `int RandomHeight()`
unfoldable pub random_height : Random → Random × ℕ
random_height rnd = grow (max_height_limit - 1) rnd 1

-- `for (int i = GetMaxHeight(); i < height; i++) prev[i] = head_;`
unfoldable pub fill_prev : ℕ → ℕ → ℕ → (ℕ → Option ℕ) → ℕ → Option ℕ
fill_prev zero i head prev = prev
fill_prev (suc n) i head prev = fill_prev n (suc i) head (update prev i (some head))

-- `bool Valid() const` of an iterator
unfoldable pub valid : Option ℕ → Bool
valid none = false
valid (some x) = true

module _ {K V : Type 0} where
  -- `NewNode(key, value, height)`: the pointers of the new node are whatever the memory held.
  unfoldable pub new_node : Heap K V → K → V → ℕ → Heap K V × ℕ
  new_node h key value height = (
    record h {
      height = update h.height h.size height;
      key = update h.key h.size key;
      value = update h.value h.size value;
      size = suc h.size;
    },
    h.size,
  )

  -- `Node* Next(int n)` and `NoBarrierNext`
  unfoldable pub load_next : Heap K V → ℕ → ℕ → Option (Option ℕ)
  load_next h p n = if ltb n (h.height p) then some (h.next n p) else none

  -- `void SetNext(int n, Node* x)` and `NoBarrierSetNext`
  unfoldable pub store_next : Heap K V → ℕ → ℕ → Option ℕ → Option (Heap K V)
  store_next h p n x =
      if ltb n (h.height p)
      then some (record h { next = update h.next n (update (h.next n) p x) })
      else none

  -- The loop of the constructor, for the levels below a bound.
  unfoldable pub clear_next : ℕ → ℕ → ℕ → Heap K V → Option (Heap K V)
  unfolding Option.bind
  clear_next zero head tail h = some h
  clear_next (suc i) head tail h =
      Option.bind (clear_next i head tail h)
        (λ h1. Option.bind (store_next h1 head i none) (λ h2. store_next h2 tail i none))

  -- `SkipList(Comparator cmp, Arena* arena)`, with the key and value that `key_()` and `value_()`
  -- give, and the pointers that the memory held.
  unfoldable pub new : (ℕ → ℕ → Option ℕ) → K → V → Option (SkipList K V)
  new memory key value =
      let fresh : Heap K V = record {
        height = λ p. 0;
        key = λ p. key;
        value = λ p. value;
        next = memory;
        size = 0;
      } in
      let (h1, head) = new_node fresh key value max_height_limit in
      let (h2, tail) = new_node h1 key value max_height_limit in
      Option.map
        (λ (h : Heap K V). record {
          heap = h;
          head = head;
          tail = tail;
          max_height = 1;
          rnd = Random.new 0xdead_beef;
        })
        (clear_next max_height_limit head tail h2)

  -- The loop of `Insert`, on the levels from `i` on: `prev[i]` is `none` where it was not written.
  unfoldable pub link : ℕ → ℕ → (ℕ → Option ℕ) → ℕ → Heap K V → Option (Heap K V)
  unfolding Option.bind
  link zero i prev x h = some h
  link (suc n) i prev x h = Option.bind (prev i) (λ q. Option.bind (load_next h q i) (λ next.
      Option.bind (store_next h x i next)
        (λ h1. Option.bind (store_next h1 q i (some x)) (λ h2. link n (suc i) prev x h2))))

  -- The loop of `Remove`
  unfoldable pub unlink : ℕ → ℕ → (ℕ → Option ℕ) → ℕ → Heap K V → Option (Heap K V)
  unfolding Option.bind
  unlink zero i prev target h = some h
  unlink (suc n) i prev target h = Option.bind (prev i) (λ q.
      Option.bind (load_next h target i) (λ next.
        Option.bind (store_next h q i next) (λ h1.
          Option.bind (store_next h1 target i none) (λ h2. unlink n (suc i) prev target h2))))

  -- No search takes more rounds: each goes down a level or on to another node.
  abbrev pub rounds : SkipList K V → ℕ
  rounds s = s.heap.size + s.max_height

  module _ (o : Comparator K) where
    -- `bool KeyIsAfterNode(const Key& key, Node* n) const`
    unfoldable pub key_is_after_node : Heap K V → K → Option ℕ → Bool
    key_is_after_node h key none = false
    key_is_after_node h key (some n) = is_negative (o.compare (h.key n) key)

    -- `bool Equal(const Key& a, const Key& b) const`, against the key of a node that may be null
    unfoldable pub equals_node : Heap K V → K → Option ℕ → Bool
    equals_node h key none = false
    equals_node h key (some n) = is_zero (o.compare key (h.key n))

    -- `Equal(next->key(), key)` of `FindEqual`
    unfoldable pub node_equals : Heap K V → Option ℕ → K → Bool
    node_equals h none key = false
    node_equals h (some n) key = is_zero (o.compare (h.key n) key)

    -- The loop of `FindGreaterOrEqual`, which writes to `prev`.
    unfoldable pub find_loop :
        ℕ → Heap K V → K → (ℕ → Option ℕ) → ℕ → ℕ → Option (Option ℕ × (ℕ → Option ℕ))
    find_loop zero h key prev x level = none
    find_loop (suc fuel) h key prev x level = elim (load_next h x level) [
      | none ↦ none
      | some next ↦
          let prev' = update prev level (some x) in
          let lower = find_loop fuel h key prev' x (level - 1) in
          let ahead : Option (Option ℕ × (ℕ → Option ℕ)) = elim next [
            | none ↦ none
            | some p ↦ find_loop fuel h key prev p level
          ] in
          if key_is_after_node h key next
          then ahead
          else if level == 0
          then some (next, prev')
          else lower
    ]

    -- The loop of `FindEqual`
    unfoldable pub equal_loop : ℕ → Heap K V → K → ℕ → ℕ → Option (Option ℕ)
    equal_loop zero h key x level = none
    equal_loop (suc fuel) h key x level = elim (load_next h x level) [
      | none ↦ none
      | some next ↦
          let lower = equal_loop fuel h key x (level - 1) in
          let ahead : Option (Option ℕ) = elim next [
            | none ↦ none
            | some p ↦ equal_loop fuel h key p level
          ] in
          if key_is_after_node h key next
          then ahead
          else if level == 0
          then some (if node_equals h next key then next else none)
          else lower
    ]

    -- `FindGreaterOrEqual(key, prev)`
    unfoldable pub find_greater_or_equal :
        SkipList K V → K → (ℕ → Option ℕ) → Option (Option ℕ × (ℕ → Option ℕ))
    find_greater_or_equal s key prev =
        find_loop (rounds s) s.heap key prev s.head (s.max_height - 1)

    -- `FindEqual(key)`
    unfoldable pub find_equal : SkipList K V → K → Option (Option ℕ)
    find_equal s key = equal_loop (rounds s) s.heap key s.head (s.max_height - 1)

    -- `bool Contains(const Key& key) const`: the null `prev` is one that is not looked at.
    unfoldable pub contains : SkipList K V → K → Option Bool
    contains s key =
        Option.map (λ (x, prev). equals_node s.heap key x) (find_greater_or_equal s key (λ i. none))

    -- `void Insert(const Key& key, Value& value)`
    unfoldable pub insert : SkipList K V → K → V → Option (SkipList K V)
    unfolding Option.bind
    insert s key value = Option.bind (find_greater_or_equal s key (λ i. none)) (λ (x, prev).
        let (rnd, height) = random_height s.rnd in
        let taller = ltb s.max_height height in
        let prev' =
          if taller then fill_prev (height - s.max_height) s.max_height s.head prev else prev in
        let (h1, n) = new_node s.heap key value height in
        let linked =
          Option.map
            (λ (h : Heap K V). record s {
              heap = h;
              max_height = if taller then height else s.max_height;
              rnd = rnd;
            })
            (link height 0 prev' n h1) in
        if equals_node s.heap key x then none else linked)

    -- `bool Remove(const Key& key)`
    unfoldable pub remove : SkipList K V → K → Option (SkipList K V × Bool)
    unfolding Option.bind
    remove s key = Option.bind (contains s key) (λ found.
        let removed = Option.bind (find_greater_or_equal s key (λ i. some s.head)) (λ (x, prev).
          Option.bind x (λ target.
            Option.map (λ (h : Heap K V). (record s { heap = h }, true))
              (unlink (s.heap.height target) 0 prev target s.heap))) in
        if found then removed else some (s, false))

    -- `FindEqual(key)->value()`, or `none` for a null pointer
    unfoldable pub get : SkipList K V → K → Option (Option V)
    get s key = Option.map (λ (x : Option ℕ). Option.map s.heap.value x) (find_equal s key)

    -- `Seek(const Key& target)` of an iterator: the node that it then stands at.
    unfoldable pub seek : SkipList K V → K → Option (Option ℕ)
    seek s target =
        Option.map (λ ((x, prev) : Option ℕ × (ℕ → Option ℕ)). x)
          (find_greater_or_equal s target (λ i. none))

  -- `SeekToFirst()` of an iterator
  unfoldable pub seek_to_first : SkipList K V → Option (Option ℕ)
  seek_to_first s = load_next s.heap s.head 0

  -- `void Next()` of an iterator, with its assertion
  unfoldable pub advance : SkipList K V → Option ℕ → Option (Option ℕ)
  advance s none = none
  advance s (some x) = load_next s.heap x 0
