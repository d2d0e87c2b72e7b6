-- ===== src/Value.antt =====
-- byteview.go, and what store/store.go declares: the values, the keys and the options of a store.
use lcache.Common.{ℕ, ◌*◌, ◌^◌, List, Bool, false, length, ℕ_discrete}

-- A Go string, by its bytes.
abbrev pub Key : Type 0
Key = List ℕ

unfoldable pub key_eq : Discrete Key
unfolding ℕ_discrete
key_eq = hlevel ℕ_discrete

-- A byte slice.
pub record ByteView : Type 0 where
  pub b : List ℕ

-- The interface `Value` by its dynamic type: the one implementation in the repository, or one of a
-- client, told apart by a tag, of which the code sees the length alone.
pub data Value : Type 0 where
  view : ByteView → Value
  other : (tag size : ℕ) → Value

-- `value.Len()`
abbrev pub len : Value → ℕ
len (view v) = length v.b
len (other tag size) = size

-- `Options`; of the callback `OnEvicted` the code only tests whether it is nil, and calls it.
pub record Options : Type 0 where
  pub max_bytes : ℕ
  pub bucket_count : ℕ
  pub cap_per_bucket : ℕ
  pub level2_cap : ℕ
  pub cleanup_interval : ℕ
  pub on_evicted : Bool

-- `NewOptions`
abbrev new_options : Options
new_options = record {
  max_bytes = 8192;
  bucket_count = 16;
  cap_per_bucket = 512;
  level2_cap = 256;
  cleanup_interval = 60 * 10 ^ 9;
  on_evicted = false;
}
