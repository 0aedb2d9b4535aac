-- ===== src/Schema/Tests.antt =====
-- Runs of the comparisons of types, keyed lists and schemas, and the theorems on it at concrete inputs.
use uql.Base.{string_eq, inl, ℕ, true, false, none, some, ◌≡◌, refl, arith}
use uql.Base.{
  zero, suc, ◌<◌, All, List, Bool, String, [], ◌∷◌, Has, nat_eq, ◌==◌, ==_refl, Option, map,
  if◌then◌else◌,
}
use uql.Text.{codes}
use uql.Schema.Match.{Matches, match_by_key, unique_pairs}
use uql.Schema.Match.Splits.{Splits, match_by_key-Splits}
use uql.Schema.Match.Unique.{Mutual}
use uql.Schema.Nodes.{ColumnNode, TableNode, SchemaAst}
use uql.Schema.Differ.{DiffOptions, diff_table, diff_schemas}
use uql.Schema.Differ.Itself.{no_changes, diff_schemas_itself}
use uql.Schema.Differ.Agreement.{AgreesTable, diff_table-AgreesTable}
use uql.Schema.Renames.{renames_of}
use uql.Schema.Renames.Apart.{renames_of-Mutual, unnamed_columns}
use uql.Schema.CreateOrder.{create_order}
use uql.Schema.CreateOrder.Dependencies.{DependsFirst, Distinct, create_order-DependsFirst}
use uql.Schema.Renames.{Rename, column_renames}
use uql.Schema.CanonicalType.{
  decimal, string, same_option, CanonicalType, are_types_equal, is_breaking_type_change,
}
use uql.Schema.CanonicalType.Compare.{Demand, Meets, is_breaking_type_change-Meets}

abbrev numeric : ℕ → ℕ → CanonicalType
numeric p s = record {
  category = decimal;
  size = none;
  length = none;
  precision = some p;
  scale = some s;
  unsigned = false;
  with_timezone = false;
}

abbrev varchar : ℕ → CanonicalType
varchar n = record {
  category = string;
  size = none;
  length = some n;
  precision = none;
  scale = none;
  unsigned = false;
  with_timezone = false;
}

-- `NUMERIC(5, 2)` holds 999.99, and `NUMERIC(5, 4)` holds one digit before the point.
more_scale_run : is_breaking_type_change (numeric 5 2) (numeric 5 4) ≡ false
unfolding is_breaking_type_change mathlib.Core.Bool.xor
more_scale_run = refl

less_length_run : is_breaking_type_change (varchar 20) (varchar 10) ≡ true
unfolding is_breaking_type_change mathlib.Core.Bool.xor
less_length_run = refl

abbrev ten_letters : Demand
ten_letters = record {
  category = string;
  rank = 0;
  length = 10;
  precision = 0;
  scale = 0;
  negative = false;
  offset = false;
}

is_breaking_type_change-Meets_example : Meets (varchar 20) ten_letters
unfolding is_breaking_type_change mathlib.Core.Bool.xor
is_breaking_type_change-Meets_example =
    is_breaking_type_change-Meets (varchar 10) (varchar 20) ten_letters refl refl
      (refl, tt, omega arith, tt, tt, refl, refl)

match_by_key-Splits_example :
    Splits nat_eq
      (λ n. n)
      (λ n. n)
      (1 ∷ 2 ∷ 2 ∷ [])
      (2 ∷ 3 ∷ [])
      (match_by_key (1 ∷ 2 ∷ 2 ∷ []) (2 ∷ 3 ∷ []) (λ n. n) (λ n. n))
match_by_key-Splits_example = match_by_key-Splits (λ n. n) (λ n. n) (1 ∷ 2 ∷ 2 ∷ []) (2 ∷ 3 ∷ [])

abbrev same_defaults : DiffOptions ℕ
same_defaults = record {
  exclude_tables = [];
  normalize_type = λ t. t;
  defaults_equal = λ a b. same_option a b;
}

abbrev name_column : String → ColumnNode ℕ
name_column name = record {
  name = name;
  type = varchar 20;
  nullable = true;
  default_value = some 7;
  is_primary_key = false;
  is_auto_increment = false;
}

abbrev users_named : String → TableNode ℕ
users_named name = record {
  name = "users";
  schema = none;
  columns = name_column "id" ∷ name_column name ∷ [];
  primary_key = none;
  checks = record { name = "_uql_ck"; condition = "true" } ∷ [];
  triggers = [];
}

abbrev users : TableNode ℕ
users = users_named "name"

same_default : (o : Option ℕ) → same_defaults.defaults_equal o o ≡ true
same_default none = refl
same_default (some n) = ==_refl n

abbrev holding_users : TableNode ℕ → SchemaAst ℕ
holding_users t = record { tables = t ∷ []; relationships = [] }

diff_schemas_itself_example :
    diff_schemas same_defaults (holding_users users) (holding_users users) ≡ no_changes ℕ
unfolding uql.Schema.Differ.is_owned_name
diff_schemas_itself_example =
    diff_schemas_itself same_defaults same_default (holding_users users) (((refl, tt), tt), tt)

-- The same columns in another order, and a check that uql does not own.
abbrev installed_users : TableNode ℕ
installed_users = record users {
  columns = name_column "name" ∷ name_column "id" ∷ [];
  checks =
      record { name = "by_hand"; condition = "false" }
      ∷ record { name = "_uql_ck"; condition = "1" }
      ∷ [];
}

users_unchanged : diff_table same_defaults users installed_users ≡ none
unfolding diff_table uql.Schema.Differ.diff_table_columns uql.Schema.Differ.diff_owned
    uql.Schema.Differ.diff_primary_key uql.Schema.Differ.diff_column uql.Schema.Differ.facets_of
    uql.Schema.Differ.type_changed uql.Schema.Differ.is_owned_name match_by_key
    uql.Schema.Match.match_from uql.Schema.Match.group_from uql.Schema.Match.add_to_group
    uql.Schema.Match.shift are_types_equal mathlib.Core.Bool.xor mathlib.Core.List.flat_map
users_unchanged = refl

diff_table-AgreesTable_example : AgreesTable same_defaults users installed_users
diff_table-AgreesTable_example =
    diff_table-AgreesTable same_defaults users installed_users users_unchanged

-- `first_name` is `firstName` under another naming strategy; `toLowerCase` is given here for the letter N.
column_renames_run :
    column_renames same_defaults
      (map (λ c. if c == b'N' then b'n' else c))
      (holding_users (users_named "firstName"))
      (holding_users (users_named "first_name"))
    ≡ record {
      table = codes "users";
      renames = record { from = "first_name"; to = "firstName" } ∷ [];
    }
      ∷ []
unfolding column_renames uql.Schema.Renames.paired_columns uql.Schema.Renames.renames_of
    uql.Schema.Renames.column_spelling unique_pairs uql.Schema.Match.pairs_from
    uql.Schema.Differ.match_tables match_by_key uql.Schema.Match.match_from
    uql.Schema.Match.group_from uql.Schema.Match.add_to_group uql.Schema.Match.shift
    mathlib.Core.List.flat_map
column_renames_run = refl

-- Each table refers to the two before it.
abbrev two_before : ℕ → List ℕ
two_before zero = []
two_before (suc zero) = zero ∷ []
two_before (suc (suc n)) = suc n ∷ n ∷ []

two_before_falls : (n : ℕ) → All (λ d. d < n) (two_before n)
two_before_falls zero = tt
two_before_falls (suc zero) = (omega arith, tt)
two_before_falls (suc (suc n)) = (omega arith, (omega arith, tt))

create_order_run : create_order two_before 4 (3 ∷ 0 ∷ []) ≡ some (0 ∷ 1 ∷ 2 ∷ 3 ∷ [])
unfolding create_order uql.Schema.CreateOrder.visit uql.Schema.CreateOrder.visit_each
create_order_run = refl

create_order-DependsFirst_example :
    (order : List ℕ) × (create_order two_before 4 (3 ∷ 0 ∷ []) ≡ some order)
    × DependsFirst two_before [] order
    × Distinct order
    × All (λ n. Has n order) (3 ∷ 0 ∷ [])
create_order-DependsFirst_example =
    create_order-DependsFirst two_before (λ n. n) two_before_falls 4 (3 ∷ 0 ∷ [])
      (omega arith, (omega arith, tt))

abbrev same_length : ColumnNode ℕ → ColumnNode ℕ → Bool
same_length to from = same_option to.type.length from.type.length

abbrev first_name : Rename
first_name = record { from = "first_name"; to = "firstName" }

renames_of-Mutual_example :
    (to : ColumnNode ℕ) × (from : ColumnNode ℕ) × (first_name
      ≡ record { from = from.name; to = to.name })
    × Mutual same_length
        (unnamed_columns same_defaults same_length
          (users_named "firstName")
          (users_named "first_name")).created
        (unnamed_columns same_defaults same_length
          (users_named "firstName")
          (users_named "first_name")).dropped
        (to, from)
    × (same_length to from ≡ true)
    × ((from.name == to.name) ≡ false)
unfolding renames_of unique_pairs uql.Schema.Match.pairs_from match_by_key
    uql.Schema.Match.match_from uql.Schema.Match.group_from uql.Schema.Match.add_to_group
    uql.Schema.Match.shift mathlib.Core.List.flat_map
renames_of-Mutual_example =
    renames_of-Mutual same_defaults same_length (users_named "firstName") (users_named "first_name")
      first_name (inl refl)
