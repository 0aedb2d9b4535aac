-- ===== src/Schema/CanonicalType/Names.antt =====
-- The names of types in packages/orm/src/schema/canonicalType.ts: SQL_TO_CANONICAL, and the names that
-- a canonical type has as a column type and in TypeScript.
use uql.Base.{
  ℕ, String, Bool, true, false, ◌||◌, Option, none, some, if◌then◌else◌, ◌==◌, nat_eq, string_eq,
  ltb, ◌≡◌, refl,
}
use mathlib.Core.Option
use uql.Schema.CanonicalType.{
  TypeCategory, integer, float, decimal, string, boolean, date, time, timestamp, json, uuid, blob,
  vector, halfvec, sparsevec, SizeVariant, tiny, small, medium, CanonicalType, big,
}

-- The type of an engine's name alone: what the table says, the rest unstated.
abbrev named : TypeCategory → Option SizeVariant → Bool → Option CanonicalType
named c s tz = some (record {
  category = c;
  size = s;
  length = none;
  precision = none;
  scale = none;
  unsigned = false;
  with_timezone = tz;
})

unfoldable pub canonical_named : String → Option CanonicalType
canonical_named base =
    if base == "int"
    then named integer none false
    else if base == "int4"
    then named integer none false
    else if base == "integer"
    then named integer none false
    else if base == "tinyint"
    then named integer (some tiny) false
    else if base == "smallint"
    then named integer (some small) false
    else if base == "int2"
    then named integer (some small) false
    else if base == "mediumint"
    then named integer (some medium) false
    else if base == "bigint"
    then named integer (some big) false
    else if base == "int8"
    then named integer (some big) false
    else if base == "serial"
    then named integer none false
    else if base == "bigserial"
    then named integer (some big) false
    else if base == "smallserial"
    then named integer (some small) false
    else if base == "float"
    then named float none false
    else if base == "float4"
    then named float none false
    else if base == "real"
    then named float none false
    else if base == "float8"
    then named float (some big) false
    else if base == "double"
    then named float (some big) false
    else if base == "double precision"
    then named float (some big) false
    else if base == "decimal"
    then named decimal none false
    else if base == "numeric"
    then named decimal none false
    else if base == "money"
    then named decimal none false
    else if base == "char"
    then named string none false
    else if base == "character"
    then named string none false
    else if base == "varchar"
    then named string none false
    else if base == "varchar2"
    then named string none false
    else if base == "nvarchar"
    then named string none false
    else if base == "nchar"
    then named string none false
    else if base == "character varying"
    then named string none false
    else if base == "text"
    then named string (some small) false
    else if base == "tinytext"
    then named string (some tiny) false
    else if base == "mediumtext"
    then named string (some medium) false
    else if base == "longtext"
    then named string (some big) false
    else if base == "bool"
    then named boolean none false
    else if base == "boolean"
    then named boolean none false
    else if base == "bit"
    then named boolean none false
    else if base == "date"
    then named date none false
    else if base == "time"
    then named time none false
    else if base == "time without time zone"
    then named time none false
    else if base == "time with time zone"
    then named time none true
    else if base == "timetz"
    then named time none true
    else if base == "timestamp"
    then named timestamp none false
    else if base == "timestamp without time zone"
    then named timestamp none false
    else if base == "timestamp with time zone"
    then named timestamp none true
    else if base == "timestamptz"
    then named timestamp none true
    else if base == "datetime"
    then named timestamp none false
    else if base == "datetime2"
    then named timestamp none false
    else if base == "smalldatetime"
    then named timestamp none false
    else if base == "datetimeoffset"
    then named timestamp none true
    else if base == "json"
    then named json none false
    else if base == "jsonb"
    then named json none false
    else if base == "uuid"
    then named uuid none false
    else if base == "uniqueidentifier"
    then named uuid none false
    else if base == "blob"
    then named blob none false
    else if base == "bytea"
    then named blob none false
    else if base == "binary"
    then named blob none false
    else if base == "varbinary"
    then named blob none false
    else if base == "tinyblob"
    then named blob (some tiny) false
    else if base == "mediumblob"
    then named blob (some medium) false
    else if base == "longblob"
    then named blob (some big) false
    else if base == "image"
    then named blob (some big) false
    else if base == "vector"
    then named vector none false
    else if base == "f32_blob"
    then named vector none false
    else if base == "halfvec"
    then named halfvec none false
    else if base == "sparsevec"
    then named sparsevec none false
    else none

abbrev typescript_of : TypeCategory → String
typescript_of integer = "number"
typescript_of float = "number"
typescript_of decimal = "string"
typescript_of string = "string"
typescript_of boolean = "boolean"
typescript_of date = "Date"
typescript_of time = "string"
typescript_of timestamp = "Date"
typescript_of json = "unknown"
typescript_of uuid = "string"
typescript_of blob = "Uint8Array"
typescript_of vector = "number[]"
typescript_of halfvec = "number[]"
typescript_of sparsevec = "number[]"

abbrev pub canonical_to_typescript : CanonicalType → String
canonical_to_typescript type = typescript_of type.category

abbrev integer_column : Option SizeVariant → String
integer_column (some big) = "bigint"
integer_column (some small) = "smallint"
integer_column _ = "int"

abbrev float_column : Option SizeVariant → String
float_column (some big) = "double"
float_column _ = "float"

-- `!type.length || type.length > 10000`
abbrev string_column : Option ℕ → String
string_column none = "text"
string_column (some n) = if n == 0 || ltb 10000 n then "text" else "varchar"

abbrev column_of : TypeCategory → CanonicalType → String
column_of integer type = integer_column type.size
column_of float type = float_column type.size
column_of decimal type = "decimal"
column_of string type = string_column type.length
column_of boolean type = "boolean"
column_of date type = "date"
column_of time type = "time"
column_of timestamp type = if type.with_timezone then "timestamptz" else "timestamp"
column_of json type = "jsonb"
column_of uuid type = "uuid"
column_of blob type = "bytea"
column_of vector type = "vector"
column_of halfvec type = "halfvec"
column_of sparsevec type = "sparsevec"

unfoldable pub canonical_to_column_type : CanonicalType → String
canonical_to_column_type type = column_of type.category type

category_named : String → Option TypeCategory
category_named name = Option.map (λ t. t.category) (canonical_named name)

string_named : (b : Bool) → category_named (if b then "text" else "varchar") ≡ some string
unfolding category_named canonical_named
string_named true = refl
string_named false = refl

timestamp_named :
    (b : Bool) → category_named (if b then "timestamptz" else "timestamp") ≡ some timestamp
unfolding category_named canonical_named
timestamp_named true = refl
timestamp_named false = refl

sized_named :
    (s : Option SizeVariant)
    → (category_named (integer_column s) ≡ some integer)
      × (category_named (float_column s) ≡ some float)
unfolding category_named canonical_named
sized_named none = (refl, refl)
sized_named (some tiny) = (refl, refl)
sized_named (some small) = (refl, refl)
sized_named (some medium) = (refl, refl)
sized_named (some big) = (refl, refl)

length_named : (n : Option ℕ) → category_named (string_column n) ≡ some string
length_named none = string_named true
length_named (some n) = string_named (n == 0 || ltb 10000 n)

column_named :
    (c : TypeCategory) (type : CanonicalType) → category_named (column_of c type) ≡ some c
unfolding category_named canonical_named
column_named integer type = (sized_named type.size).0
column_named float type = (sized_named type.size).1
column_named string type = length_named type.length
column_named timestamp type = timestamp_named type.with_timezone
column_named decimal type = refl
column_named boolean type = refl
column_named date type = refl
column_named time type = refl
column_named json type = refl
column_named uuid type = refl
column_named blob type = refl
column_named vector type = refl
column_named halfvec type = refl
column_named sparsevec type = refl

-- The column type that is chosen for a canonical type is the name of a type of its category.
pub canonical_named-canonical_to_column_type :
    (type : CanonicalType)
    → Option.map (λ t. t.category) (canonical_named (canonical_to_column_type type))
      ≡ some type.category
unfolding canonical_to_column_type category_named
canonical_named-canonical_to_column_type type = column_named type.category type
