-- ===== src/Json.antt =====
-- The values that cross the boundaries: `JsonValue` of
-- packages/foundation/contracts/src/common.ts, with one more constructor for the values that are no
-- plain JSON (binary parts, dates, class instances), which the walks leave untouched.
use euroclaw.Prelude.{ℕ, String, Bool, true, false, ◌&&◌, Option, none, some, str_eq, if◌then◌else◌}

mutual
  pub data Json : Type 0 where
    null : Json
    bool : Bool → Json
    num : ℕ → Json
    str : String → Json
    arr : Elems → Json
    obj : Props → Json
    opaque : ℕ → Json

  pub data Elems : Type 0 where
    nil : Elems
    cons : Json → Elems → Elems

  pub data Props : Type 0 where
    end : Props
    prop : String → Json → Props → Props

-- `value[key]` of a plain object
unfoldable pub field_of : String → Props → Option Json
field_of key end = none
field_of key (prop k v ps) = if str_eq k key then some v else field_of key ps

-- `isJsonValue`: no part is other than plain JSON. The walk over values cannot meet itself.
mutual
  is_json : Json → Bool
  is_json (arr items) = are_json items
  is_json (obj fields) = have_json fields
  is_json (opaque n) = false
  is_json _ = true

  are_json : Elems → Bool
  are_json nil = true
  are_json (cons v items) = is_json v && are_json items

  have_json : Props → Bool
  have_json end = true
  have_json (prop k v fields) = is_json v && have_json fields

-- `isJsonObject`
unfoldable pub is_json_object : Json → Bool
unfolding is_json are_json have_json
is_json_object (obj fields) = have_json fields
is_json_object _ = false
