-- ===== src/Json/Editing.antt =====
-- Documents that are changed: what src/write.rs uses of serde_json beyond reading.
use Prim.Native.String.{String}
use text.Mathlib.Text.{◌==◌ as str_eq}
use mrimgx_consolidate.Base.{ℕ, ◌^◌, ◌<◌, ◌≡◌, Bool, true, List, some, if◌then◌else◌}
use mrimgx_consolidate.Base.Int.{pos}
use mrimgx_consolidate.Json.{Documents}

module _ (J : Documents) where
  open J use {Value, get, is_object, as_str, as_u64, as_i64, as_bool, as_array}

  -- `Map::insert` on an object, the empty object, and `Value::from`. The laws are the documented
  -- ones: a key is found only in an object, `insert` replaces the value of its key and leaves the others, and a view gives back what a
  -- value was made from.
  pub record Editing : Type 0 where
    pub empty_object : Value
    pub insert : Value → String → Value → Value
    pub from_u64 : ℕ → Value
    pub from_bool : Bool → Value
    pub from_str : String → Value
    pub from_array : List Value → Value
    pub empty_object_lem : is_object empty_object ≡ true
    pub get-IsObject : (v : Value) (k : String) (x : Value) → get v k ≡ some x → is_object v ≡ true
    pub insert-IsObject :
        (o : Value) (k : String) (v : Value) → is_object o ≡ true → is_object (insert o k v) ≡ true
    pub get-insert :
        (o : Value) (k j : String) (v : Value)
        → is_object o ≡ true
        → get (insert o k v) j ≡ (if str_eq k j then some v else get o j)
    pub as_u64-from_u64 : (n : ℕ) → n < 2 ^ 64 → as_u64 (from_u64 n) ≡ some n
    pub as_i64-from_u64 : (n : ℕ) → n < 2 ^ 63 → as_i64 (from_u64 n) ≡ some (pos n)
    pub as_bool-from_bool : (b : Bool) → as_bool (from_bool b) ≡ some b
    pub as_str-from_str : (s : String) → as_str (from_str s) ≡ some s
    pub as_array-from_array : (vs : List Value) → as_array (from_array vs) ≡ some vs
