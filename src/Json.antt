-- ===== src/Json.antt =====
-- The values of a decoded JSON message, as the consumers and the outbox read and write them.
-- Numbers are the integers: no message that the service reads carries another.
pub mod Int
use Int.{ℤ}
use auth_profile_service.Common.{
  zero, suc, String, Bool, true, false, not, Option, none, some, ◌==◌, if◌then◌else◌, is_empty,
}

mutual
  pub data Json : Type 0 where
    null : Json
    bool : Bool → Json
    num : ℤ → Json
    str : String → Json
    arr : Items → Json
    obj : Fields → Json

  pub data Items : Type 0 where
    nil : Items
    cons : Json → Items → Items

  pub data Fields : Type 0 where
    end : Fields
    field : String → Json → Fields → Fields

-- `payload.get(key)`; a missing key is `none`.
unfoldable pub get : String → Fields → Option Json
get k end = none
get k (field j v rest) = if j == k then some v else get k rest

-- Python's truth value.
unfoldable pub is_truthy : Json → Bool
is_truthy Json.null = false
is_truthy (Json.bool b) = b
is_truthy (Json.num (ℤ.pos n)) = elim n [ zero ↦ false | suc m ↦ true ]
is_truthy (Json.num (ℤ.negsuc n)) = true
is_truthy (Json.str s) = not (is_empty s)
is_truthy (Json.arr nil) = false
is_truthy (Json.arr (cons x xs)) = true
is_truthy (Json.obj end) = false
is_truthy (Json.obj (field k v rest)) = true
