-- ===== src/Protocol/Value.antt =====
-- The JavaScript values that @msgpack/msgpack decodes, as packages/protocol/src/codec.ts tells them
-- apart.
use konvo_pro.Shared.{ℕ, Bool, false, String, str_eq, ℤ, Number, int, pos, ◌==◌, if◌then◌else◌}
use konvo_pro.Crypto.{Bytes}

-- `obj` stands for every object that is no array and no `Uint8Array`; its fields are what a read of
-- a property sees.
mutual
  pub data Value : Type 0 where
    undefined null : Value
    number : Number → Value
    bigint : ℤ → Value
    bool : Bool → Value
    bytes : Bytes → Value
    str : String → Value
    obj : Fields → Value
    arr : Items → Value

  pub data Fields : Type 0 where
    end : Fields
    field : String → Value → Fields → Fields

  pub data Items : Type 0 where
    no_items : Items
    item : Value → Items → Items

unfoldable pub read : Fields → String → Value
read end name = undefined
read (field key v fs) name = if str_eq key name then v else read fs name

-- `v[name]`, where `v` is an object; a byte array has none of the names that the codec reads.
unfoldable pub get : Value → String → Value
unfolding read
get (obj fs) name = read fs name
get v name = undefined

-- `v === n`, for a number `n` of an enum.
abbrev pub is_number : ℕ → Value → Bool
is_number n (number (int (pos m))) = m == n
is_number n v = false
