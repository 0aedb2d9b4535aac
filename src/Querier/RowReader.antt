-- ===== src/Querier/RowReader.antt =====
-- packages/orm/src/querier/rowReader.ts: how a raw row becomes the entity's. What a driver answers for a
-- column is a JSON value; the decoders of a field's kind and `JSON.parse` are given.
pub mod Paths
pub mod Nest
pub mod Dropped
use uql.Base.{
  ℕ, Bool, true, false, ◌&&◌, not, List, [], ◌∷◌, ◌++◌, Option, none, some, is_some, if◌then◌else◌,
  ◌==◌, nat_eq, map,
}
use uql.Text.{Text, text_eq}
use uql.Http.Json.{
  Json, null, boolean, number, text, array, object, Items, no_items, item, Members, no_members,
  member, value_at,
}
use uql.Querier.RowReader.Paths.{KeyPath, change_at, set_at}

-- Where a value sits in a nested row.
pub record Slot : Type 0 where
  pub parent : KeyPath
  pub key : Text

-- `key.split('.')`
abbrev pub first_longer : ℕ → KeyPath → KeyPath
first_longer c [] = (c ∷ []) ∷ []
first_longer c (t ∷ ts) = (c ∷ t) ∷ ts

abbrev pub split_dots : Text → KeyPath
split_dots [] = [] ∷ []
split_dots (c ∷ t) = let rest = split_dots t in if c == 46 then [] ∷ rest else first_longer c rest

abbrev pub parent_of : KeyPath → KeyPath
parent_of [] = []
parent_of (k ∷ []) = []
parent_of (k ∷ j ∷ p) = k ∷ parent_of (j ∷ p)

abbrev pub last_of : KeyPath → Text
last_of [] = []
last_of (k ∷ []) = k
last_of (k ∷ j ∷ p) = last_of (j ∷ p)

abbrev pub slot_at : KeyPath → Slot
slot_at path = record { parent = parent_of path; key = last_of path }

-- `dotted.get(column)`
abbrev pub dotted_path : Text → List (Text × KeyPath) → Option KeyPath
dotted_path column [] = none
dotted_path column ((key, path) ∷ dotted) =
    let later = dotted_path column dotted in if key == column then some path else later

-- The path that a column's value has in the nested row.
abbrev pub path_or_own : Text → Option KeyPath → KeyPath
path_or_own column none = column ∷ []
path_or_own column (some path) = path

abbrev pub path_of : List (Text × KeyPath) → Text → KeyPath
path_of dotted column = path_or_own column (dotted_path column dotted)

-- The loop of `nest`.
unfoldable pub nest_onto : List (Text × KeyPath) → Members → Members → Members
nest_onto dotted nested no_members = nested
nest_onto dotted nested (member column v row) =
    nest_onto dotted (set_at (path_of dotted column) v nested) row

abbrev pub nest : List (Text × KeyPath) → Members → Members
nest dotted row = nest_onto dotted no_members row

-- A joined row, with the key that says by its `null` that the join matched no row.
pub record Joined : Type 0 where
  pub slot : Slot
  pub id_key : Text

abbrev pub without_key : Text → Members → Members
without_key key no_members = no_members
without_key key (member k v ms) =
    let rest = without_key key ms in if k == key then rest else member k v rest

-- `value == null`
abbrev pub is_nothing : Option Json → Bool
is_nothing none = true
is_nothing (some null) = true
is_nothing (some other) = false

abbrev pub matched_no_row : Text → Option Json → Bool
matched_no_row id_key none = false
matched_no_row id_key (some (object ms)) = is_nothing (value_at id_key ms)
matched_no_row id_key (some other) = false

unfoldable pub drop_joined : List Joined → Members → Members
drop_joined [] row = row
drop_joined (j ∷ js) row = drop_joined js (
    change_at j.slot.parent
      (λ holder.
        if matched_no_row j.id_key (value_at j.slot.key holder)
        then without_key j.slot.key holder
        else holder)
      row)

-- `holder[key] = map(value)`, where there is a value.
abbrev pub mapped_value : Text → (Json → Json) → Option Json → Members → Members
mapped_value key decode none holder = holder
mapped_value key decode (some null) holder = holder
mapped_value key decode (some v) holder = set_at (key ∷ []) (decode v) holder

unfoldable pub map_values : List (Slot × (Json → Json)) → Members → Members
map_values [] row = row
map_values ((slot, decode) ∷ ms) row = map_values ms (
    change_at slot.parent (λ holder. mapped_value slot.key decode (value_at slot.key holder) holder)
      row)

-- What the terms of a statement say of its rows: `rowReader` before it reads one.
pub record Plan : Type 0 where
  pub dotted : List (Text × KeyPath)
  pub joined : List Joined
  pub mapped : List (Slot × (Json → Json))

-- One column of a projection, with its kind and the kinds of columns by their flat key; and a relation's rows.
mutual
  pub data SelectTerm (K : Type 0) : Type 0 where
    select_term :
        (key : Option Text)
        → (kind : Option K) → (kinds : List (Text × K)) → (joined_key : Bool) → SelectTerm K
    select_rows : (key : Text) → SelectTerms K → SelectTerm K

  pub data SelectTerms (K : Type 0) : Type 0 where
    no_terms : SelectTerms K
    term : SelectTerm K → SelectTerms K → SelectTerms K

-- `firstDotted !== undefined && firstDotted in raw`
abbrev pub is_flat : List (Text × KeyPath) → Members → Bool
is_flat [] raw = false
is_flat ((key, path) ∷ dotted) raw = is_some (value_at key raw)

-- The reader of a row, by what the terms say.
unfoldable pub read_row : Plan → Members → Members
read_row plan raw =
    map_values plan.mapped
      (drop_joined plan.joined (if is_flat plan.dotted raw then nest plan.dotted raw else raw))

abbrev pub read_item : (Members → Members) → Json → Json
read_item read (object ms) = object (read ms)
read_item read null = null
read_item read (boolean b) = boolean b
read_item read (number b t) = number b t
read_item read (text t) = text t
read_item read (array vs) = array vs

abbrev pub read_items : (Members → Members) → Items → Items
read_items read no_items = no_items
read_items read (item v vs) = item (read_item read v) (read_items read vs)

abbrev pub rows_of : (Json → Items) → Json → Items
rows_of parse null = parse null
rows_of parse (boolean b) = parse (boolean b)
rows_of parse (number b t) = parse (number b t)
rows_of parse (text t) = parse (text t)
rows_of parse (array vs) = vs
rows_of parse (object ms) = parse (object ms)

abbrev pub if_dotted : {A : Type 0} → KeyPath → List A → List A
if_dotted (k ∷ j ∷ path) xs = xs
if_dotted (k ∷ []) xs = []
if_dotted [] xs = []

module _ {K : Type 0} (decode : K → Json → Json) (parse : Json → Items) where
  abbrev pub kind_values : Slot → Option K → List (Slot × (Json → Json))
  kind_values slot none = []
  kind_values slot (some kind) = (slot, decode kind) ∷ []

  abbrev pub kinds_values : List (Text × K) → List (Slot × (Json → Json))
  kinds_values [] = []
  kinds_values ((field, kind) ∷ kinds) =
      (record { parent = []; key = field }, decode kind) ∷ kinds_values kinds

  -- What a term of a key adds to the plan.
  abbrev pub add_keyed :
      Text → Bool → List (Slot × (Json → Json)) → List (Slot × (Json → Json)) → Plan → Plan
  add_keyed key joined_key firsts values later =
      let path = split_dots key in
      let slot = slot_at path in
      record {
        dotted = if_dotted path ((key, path) ∷ []) ++ later.dotted;
        joined =
            (if joined_key
              then if_dotted path (record { slot = slot_at slot.parent; id_key = slot.key } ∷ [])
              else [])
            ++ later.joined;
        mapped = firsts ++ (values ++ later.mapped);
      }

  abbrev pub add_term : Option Text → Option K → List (Text × K) → Bool → Plan → Plan
  add_term none kind kinds joined_key later = record later {
    mapped = kinds_values kinds ++ later.mapped;
  }
  add_term (some key) kind kinds joined_key later =
      add_keyed key joined_key (kinds_values kinds) (kind_values (slot_at (split_dots key)) kind)
        later

  unfoldable mutual
    pub plan_of : SelectTerms K → Plan
    plan_of no_terms = record { dotted = []; joined = []; mapped = [] }
    plan_of (term t ts) = plan_term t (plan_of ts)

    pub plan_term : SelectTerm K → Plan → Plan
    plan_term (select_term key kind kinds joined_key) later =
        add_term key kind kinds joined_key later
    plan_term (select_rows key rows) later =
        let read = read_row (plan_of rows) in
        add_keyed key false []
          ((slot_at (split_dots key), λ v. array (read_items read (rows_of parse v))) ∷ []) later

  unfoldable pub row_reader : SelectTerms K → Members → Members
  row_reader terms raw = read_row (plan_of terms) raw
