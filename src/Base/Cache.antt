-- ===== src/Base/Cache.antt =====
-- ibdb/src/base/cache.h: the cache of messages, on a `std::map`.
use mathlib.Core.Option
use iceberg_db.Prelude.{is_some, Bool, Option, List}
use iceberg_db.Base.Comparator.{Comparator}
use iceberg_db.Base.Maps

abbrev pub LruCacheMap : Type 0 → Type 0 → Type 0
LruCacheMap K V = List (K × V)

module _ {K V : Type 0} (order : Comparator K) where
  -- `void Insert(Key& key, Value& value)`
  unfoldable pub insert : LruCacheMap K V → K → V → LruCacheMap K V
  insert c key value = Maps.insert order key value c

  -- `iterator Find(Key& key)`: what it points to, `none` for `end()`
  unfoldable pub find : LruCacheMap K V → K → Option V
  find c key = Maps.find order key c

  -- `bool Contains(Key& key)`
  unfoldable pub contains : LruCacheMap K V → K → Bool
  contains c key = is_some (Maps.find order key c)

  -- `void Remove(Key& key)`: `erase(end())` is a fault.
  unfoldable pub remove : LruCacheMap K V → K → Option (LruCacheMap K V)
  remove c key = Option.map (λ v. Maps.erase order key c) (Maps.find order key c)
