-- ===== src/Http/Json.antt =====
-- JSON values, as packages/orm/src/util/object.util.ts tells them apart. An object's members are in the
-- order of `Object.entries`. `is_set` is whether JavaScript takes a scalar for true.
use uql.Base.{Bool, true, false, Option, none, some, if◌then◌else◌, ◌==◌, List, [], ◌∷◌}
use uql.Text.{Text, text_eq}

mutual
  pub data Json : Type 0 where
    null : Json
    boolean : Bool → Json
    number : Bool → Text → Json
    text : Text → Json
    array : Items → Json
    object : Members → Json

  pub data Items : Type 0 where
    no_items : Items
    item : Json → Items → Items

  pub data Members : Type 0 where
    no_members : Members
    member : Text → Json → Members → Members

-- `value[key]`
abbrev pub value_at : Text → Members → Option Json
value_at key no_members = none
value_at key (member k v ms) = let later = value_at key ms in if k == key then some v else later

abbrev pub keys_of : Members → List Text
keys_of no_members = []
keys_of (member k v ms) = k ∷ keys_of ms

-- `Boolean(value)`
abbrev pub is_set : Json → Bool
is_set null = false
is_set (boolean b) = b
is_set (number b t) = b
is_set (text []) = false
is_set (text (c ∷ t)) = true
is_set (array vs) = true
is_set (object ms) = true

-- A value, at some index or under some key.
pub data HasItem (v : Json) : Items → Type 0 where
  first_item : {vs : Items} → HasItem v (item v vs)
  later_item : {w : Json} {vs : Items} → HasItem v vs → HasItem v (item w vs)

pub data HasMember (k : Text) (v : Json) : Members → Type 0 where
  first_member : {ms : Members} → HasMember k v (member k v ms)
  later_member :
      {j : Text} {w : Json} {ms : Members} → HasMember k v ms → HasMember k v (member j w ms)
