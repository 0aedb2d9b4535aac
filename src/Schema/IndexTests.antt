-- ===== src/Schema/IndexTests.antt =====
-- Indexes of a table at concrete inputs, for packages/orm/src/schema/indexDifferences.ts.
use uql.Base.{flat_map, true, false, List, [], ◌∷◌, none, some, ◌≡◌, refl}
use uql.Text.{Text, codes}
use uql.Schema.Match.{match_by_key, group_from, add_to_group, shift, match_from}
use uql.Schema.Indexes.Names.{index_name_stem, single_separators, join_texts}
use uql.Schema.Indexes.Describe.{
  Index, IndexPart, column, compared_columns, describe_index_differences,
}
use uql.Schema.Indexes.{pair_indexes, index_signature, index_changes, IndexedTable}
use uql.Schema.Indexes.Itself.{index_changes-itself}
use uql.Schema.Indexes.Pairs.{pair_indexes-PairsWell, PairsWell}

stem_run : index_name_stem (codes "User__email_idx") ≡ index_name_stem (codes "IDX_User_email")
unfolding index_name_stem single_separators
stem_run = refl

abbrev entry_on : Text → IndexPart
entry_on c = record {
  target = column c;
  order = none;
  nulls = none;
  ops_class = none;
  weight = none;
}

abbrev index_on : Text → List IndexPart → Index
index_on name entries = record {
  name = name;
  entries = entries;
  unique = false;
  type = none;
  predicate = none;
  include = none;
  config = none;
  distance = none;
}

abbrev email_index : Index
email_index = index_on (codes "User__email_idx") (entry_on (codes "email") ∷ [])

abbrev older_email_index : Index
older_email_index = record email_index { name = codes "idx_User_email"; unique = true }

abbrev renamed_index : Index
renamed_index = record email_index { name = codes "mine" }

abbrev open_index : Index
open_index = record email_index { name = codes "User__open_idx"; predicate = some (codes "open") }

abbrev user_table : IndexedTable
user_table = record {
  name = codes "User";
  indexes = email_index ∷ open_index ∷ renamed_index ∷ [];
  index_facets = λ f. true;
}

changed_run :
    describe_index_differences (λ f. true) email_index older_email_index
    ≡ codes "unique: true -> false" ∷ []
unfolding describe_index_differences compared_columns join_texts
changed_run = refl

-- By its shape an index of another name is the one asked for, and what nothing declared is kept.
table_run :
    index_changes
      (λ table index. false)
      (email_index ∷ [])
      (record user_table { indexes = open_index ∷ renamed_index ∷ [] })
    ≡ ([], open_index ∷ [])
unfolding index_changes pair_indexes describe_index_differences compared_columns join_texts
    match_by_key match_from group_from add_to_group shift index_signature index_name_stem
    single_separators flat_map
table_run = refl

index_changes-itself_example :
    index_changes (λ table index. false) user_table.indexes user_table ≡ ([], [])
index_changes-itself_example = index_changes-itself (λ table index. false) user_table

pair_indexes-PairsWell_example :
    PairsWell
      (email_index ∷ open_index ∷ [])
      (renamed_index ∷ older_email_index ∷ [])
      (pair_indexes (email_index ∷ open_index ∷ []) (renamed_index ∷ older_email_index ∷ []))
pair_indexes-PairsWell_example =
    pair_indexes-PairsWell (email_index ∷ open_index ∷ []) (renamed_index ∷ older_email_index ∷ [])
