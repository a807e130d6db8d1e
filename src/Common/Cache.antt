-- ===== src/Common/Cache.antt =====
-- redog-common/src/cache.rs: `LruCache`, over the crate `lru`, which is a parameter: its
-- operations on a cache `C`, and what its documentation says of them.
use Prim.Native.Nat.{ℕ, ◌<◌}
use mathlib.Core.Path.{◌≡◌}
use mathlib.Core.Bool.{Bool}
use mathlib.Core.Logic.{◌≢◌, ◌⊎◌}
use mathlib.Core.Option.{Option, none, some}
use native.Mathlib.Omega.{arith}
use redog.Common.Tests.{◌==◌, if◌then◌else◌}

-- `lru::LruCache`
pub record InnerLru (K V C : Type 0) : Type 0 where
  pub new : ℕ → C
  pub get : K → C → C × Option V
  pub put : K → V → C → C
  pub contains : K → C → Bool
  pub pop : K → C → C × Option V
  pub len : C → ℕ
  pub cap : C → ℕ

-- What the crate documents. A read changes only the order of use; an insertion stores its entry
-- and evicts at most one other, and none where the cache has room.
pub record LruLaws {K V C : Type 0} (lru : InnerLru K V C) : Type 0 where
  pub cap-new : (n : ℕ) → lru.cap (lru.new n) ≡ n
  pub get-new : (n : ℕ) (k : K) → (lru.get k (lru.new n)).1 ≡ none
  pub get-get : (j k : K) (c : C) → (lru.get j (lru.get k c).0).1 ≡ (lru.get j c).1
  pub cap-get : (k : K) (c : C) → lru.cap (lru.get k c).0 ≡ lru.cap c
  pub cap-put : (k : K) (v : V) (c : C) → lru.cap (lru.put k v c) ≡ lru.cap c
  pub get-put_self :
      (k : K) (v : V) (c : C) → 0 < lru.cap c → (lru.get k (lru.put k v c)).1 ≡ some v
  pub get-put_ne :
      (j k : K) (v : V) (c : C)
      → j ≢ k
      → ((lru.get j (lru.put k v c)).1 ≡ (lru.get j c).1) ⊎ ((lru.get j (lru.put k v c)).1 ≡ none)
  pub get-put_room :
      (j k : K) (v : V) (c : C)
      → j ≢ k
      → lru.len c < lru.cap c
      → (lru.get j (lru.put k v c)).1 ≡ (lru.get j c).1

module _ {K V C : Type 0} (lru : InnerLru K V C) where
  -- `LruCache::new`: a capacity of 0 becomes 64
  unfoldable pub new : ℕ → C
  new capacity = lru.new (if capacity == 0 then 64 else capacity)

  unfoldable pub get : K → C → C × Option V
  get key c = lru.get key c

  unfoldable pub put : K → V → C → C
  put key value c = lru.put key value c

  unfoldable pub contains : K → C → Bool
  contains key c = lru.contains key c

  unfoldable pub remove : K → C → C × Option V
  remove key c = lru.pop key c

  unfoldable pub len : C → ℕ
  len c = lru.len c

  unfoldable pub is_empty : C → Bool
  is_empty c = lru.len c == 0

  -- The cache has room for an entry, whatever capacity was asked for.
  pub cap-new_pos : LruLaws lru → (n : ℕ) → 0 < lru.cap (new n)
  unfolding new
  cap-new_pos l n = ground (arith, l.cap-new (if n == 0 then 64 else n))

  -- A new cache is empty.
  pub get-new : LruLaws lru → (k : K) (n : ℕ) → (lru.get k (new n)).1 ≡ none
  unfolding new
  get-new l k n = l.get-new (if n == 0 then 64 else n) k
