-- ===== src/Json.antt =====
-- Values of a request body (`unknown`, `Record<string, unknown>`), and the tests that the
-- handlers make on them. Numbers are the natural ones.
use thesis_project_land_chai.Prelude.{
  ℕ, zero, suc, String, Bool, true, false, Option, none, some, List, [], ◌∷◌, ◌==◌, string_eq, leb,
  not, if◌then◌else◌,
}

mutual
  pub data Json : Type 0 where
    null : Json
    bool : Bool → Json
    num : ℕ → Json
    str : String → Json
    arr : Items → Json
    obj : Fields → Json

  pub data Items : Type 0 where
    nil : Items
    cons : Json → Items → Items

  pub data Fields : Type 0 where
    end : Fields
    field : String → Json → Fields → Fields

abbrev pub items : Items → List Json
items nil = []
items (cons v vs) = v ∷ items vs

unfoldable pub field_of : String → Fields → Option Json
field_of k end = none
field_of k (field j v fs) = if j == k then some v else field_of k fs

-- `value.key`, `none` for `undefined`, also where `value` is no object.
unfoldable pub get_field : String → Json → Option Json
unfolding field_of
get_field k (obj fs) = field_of k fs
get_field k v = none

-- `value[index]`, `none` for `undefined`.
unfoldable pub get_item : ℕ → Json → Option Json
get_item i (arr nil) = none
get_item zero (arr (cons v vs)) = some v
get_item (suc i) (arr (cons v vs)) = get_item i (arr vs)
get_item i v = none

abbrev pub is_array : Option Json → Bool
is_array (some (arr vs)) = true
is_array o = false

-- JavaScript's truthiness; `none` is `undefined`.
unfoldable pub truthy : Option Json → Bool
truthy none = false
truthy (some null) = false
truthy (some (bool b)) = b
truthy (some (num n)) = not (leb n 0)
truthy (some (str s)) = not (s == "")
truthy (some v) = true
