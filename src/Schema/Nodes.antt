-- ===== src/Schema/Nodes.antt =====
-- The nodes of packages/orm/src/schema/types.ts. A default is a value of a given type, and an index is
-- left to the code that compares indexes. A foreign key names its tables and columns.
use uql.Base.{String, Bool, List, Option}
use uql.Schema.CanonicalType.{CanonicalType}
use uql.Migrate.SchemaChange.Diff.{PrimaryKeySchema, CheckSchema, TriggerSchema}

pub record ColumnNode (D : Type 0) : Type 0 where
  pub name : String
  pub type : CanonicalType
  pub nullable : Bool
  pub default_value : Option D
  pub is_primary_key : Bool
  pub is_auto_increment : Bool

-- One end of a foreign key: the table, and its columns in order.
pub record RelationEnd : Type 0 where
  pub table : String
  pub columns : List String

pub record RelationshipNode : Type 0 where
  pub name : String
  pub from : RelationEnd
  pub to : RelationEnd
  pub on_delete : Option String
  pub on_update : Option String

pub record TableNode (D : Type 0) : Type 0 where
  pub name : String
  pub schema : Option String
  pub columns : List (ColumnNode D)
  pub primary_key : Option PrimaryKeySchema
  pub checks : List CheckSchema
  pub triggers : List TriggerSchema

pub record SchemaAst (D : Type 0) : Type 0 where
  pub tables : List (TableNode D)
  pub relationships : List RelationshipNode

-- A part of a column that the differ compares.
pub data ColumnFacet : Type 0 where
  type_facet nullable_facet default_facet : ColumnFacet

-- A change as `NodeChange` has it, `to` the entities' side and `from` the database's.
pub record NodeChange (T : Type 0) : Type 0 where
  pub from : Option T
  pub to : Option T

pub record ColumnDiff (D : Type 0) : Type 0 where
  pub table : String
  pub column : String
  pub change : NodeChange (ColumnNode D)
  pub changed : List ColumnFacet
  pub is_breaking : Bool

-- One object of a table changed, named by the table.
pub record TableChange (T : Type 0) : Type 0 where
  pub table : String
  pub change : NodeChange T

pub record RelationshipDiff : Type 0 where
  pub name : String
  pub from_table : String
  pub change : NodeChange RelationshipNode

pub record TableDiff (D : Type 0) : Type 0 where
  pub columns : List (ColumnDiff D)
  pub checks : List (TableChange CheckSchema)
  pub triggers : List (TableChange TriggerSchema)
  pub primary_key : Option (TableChange PrimaryKeySchema)

pub record SchemaDiffResult (D : Type 0) : Type 0 where
  pub tables : List (NodeChange (TableNode D))
  pub columns : List (ColumnDiff D)
  pub checks : List (TableChange CheckSchema)
  pub triggers : List (TableChange TriggerSchema)
  pub primary_keys : List (TableChange PrimaryKeySchema)
  pub relationships : List RelationshipDiff
