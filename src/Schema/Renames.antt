-- ===== src/Schema/Renames.antt =====
-- The renames that packages/orm/src/schema/schemaASTDiffer.ts finds between the entities' schema and the
-- database's. `lower` is JavaScript's `toLowerCase`.
pub mod Apart
use uql.Base.{
  String, Bool, ◌&&◌, not, List, [], ◌∷◌, ◌++◌, Option, none, some, if◌then◌else◌, ◌==◌, string_eq,
  nat_eq, filter, map, flat_map, length, is_some, ltb,
}
use uql.Text.{Text, codes, text_eq}
use uql.Schema.CanonicalType.{same_option}
use uql.Schema.Match.{match_by_key, unique_pairs}
use uql.Schema.Nodes.{ColumnNode, TableNode, SchemaAst}
use uql.Schema.Differ.{DiffOptions, match_tables, diff_column, diff_table_columns, diff_primary_key}

-- `Rename`.
pub record Rename : Type 0 where
  pub from : String
  pub to : String

-- The renames of a table's columns, under its qualified name.
pub record TableRenames : Type 0 where
  pub table : Text
  pub renames : List Rename

-- `qualifyName` of packages/orm/src/util/sql.util.ts.
abbrev pub qualify_name : String → Option String → Text
qualify_name name none = codes name
qualify_name name (some schema) =
    if schema == "" then codes name else codes schema ++ b'.' ∷ codes name

-- `spelling` of `columnRenames`.
unfoldable pub column_spelling : (Text → Text) → String → Text
column_spelling lower name = lower (filter (λ c. not (c == b'_')) (codes name))

abbrev pub unless_no_renames : Text → List Rename → List TableRenames
unless_no_renames table [] = []
unless_no_renames table (r ∷ rs) = record { table = table; renames = r ∷ rs } ∷ []

module _ {D : Type 0} (opts : DiffOptions D) where
  unfoldable pub renames_of :
      (ColumnNode D → ColumnNode D → Bool) → TableNode D → TableNode D → List Rename
  renames_of same expected current =
      let split = match_by_key expected.columns current.columns (λ c. c.name) (λ c. c.name) in
      map (λ p. record { from = p.1.name; to = p.0.name })
        (unique_pairs same split.created split.dropped)

  -- `same` is given the name of the table that its first column is in, which a column links to.
  unfoldable pub paired_columns :
      SchemaAst D → SchemaAst D → (String → ColumnNode D → ColumnNode D → Bool) → List TableRenames
  paired_columns desired actual same =
      flat_map
        (λ p.
          unless_no_renames (qualify_name p.1.name p.1.schema) (renames_of (same p.0.name) p.0 p.1))
        (match_tables opts desired actual).matched

  -- The entries that the map of `columnRenames` is built from.
  unfoldable pub column_renames : (Text → Text) → SchemaAst D → SchemaAst D → List TableRenames
  column_renames lower desired actual =
      paired_columns desired actual
        (λ table to from. column_spelling lower to.name == column_spelling lower from.name)

  unfoldable pub column_rename_candidates : SchemaAst D → SchemaAst D → List (Text × Rename)
  column_rename_candidates desired actual =
      flat_map (λ t. map (λ r. (t.table, r)) t.renames)
        (paired_columns desired actual
          (λ table to from. not (is_some (diff_column opts table to from))))

  unfoldable pub table_rename_candidates : SchemaAst D → SchemaAst D → List Rename
  table_rename_candidates desired actual =
      let split = match_tables opts desired actual in
      map (λ p. record { from = p.1.name; to = p.0.name })
        (unique_pairs
          (λ to from.
            same_option to.schema from.schema
            && not (ltb 0 (length (diff_table_columns opts to from)))
            && not (is_some (diff_primary_key to from)))
          split.created split.dropped)
