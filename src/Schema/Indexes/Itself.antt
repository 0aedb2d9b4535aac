-- ===== src/Schema/Indexes/Itself.antt =====
-- A table whose indexes are the declared ones has nothing to change
-- (packages/orm/src/schema/indexDifferences.ts).
use uql.Base.{
  and_false, Bool, true, false, ◌&&◌, List, [], ◌∷◌, Option, none, some, map, flat_map, ◌≡◌, refl,
  ==_refl,
}
use mathlib.Core.List.{append-nil}
use uql.Text.{Text, text_eq}
use uql.Schema.Match.Itself.{match_by_key-itself, twice}
use uql.Schema.Indexes.Describe.{
  Index, IndexFacet, text_index, access_method, distance_facet, vector_facet, include_facet,
  columns_difference, compared_columns, same_truth, fulltext_config, access_method_of,
  index_distance, included_columns, is_fulltext, has_predicate, is_vector_index_type,
  describe_index_differences,
}
use uql.Schema.Indexes.{
  stem_of, index_signature, pair_indexes, rebuilt, IndexedTable, index_changes,
}

same_truth_refl : (b : Bool) → same_truth b b ≡ true
same_truth_refl true = refl
same_truth_refl false = refl

columns_difference_refl : (o : Option Text) → columns_difference o o ≡ []
columns_difference_refl none = refl
columns_difference_refl (some t) = rw (==_refl t) refl

pub describe_index_differences_refl :
    (facets : IndexFacet → Bool) (i : Index) → describe_index_differences facets i i ≡ []
unfolding describe_index_differences
describe_index_differences_refl facets i =
    rw (columns_difference_refl (compared_columns facets i)) (
      rw
        (
          ==_refl (fulltext_config i),
          same_truth_refl (has_predicate i.predicate),
          same_truth_refl i.unique,
          ==_refl (access_method_of i),
          ==_refl (index_distance i),
          same_truth_refl (is_vector_index_type i.type),
          ==_refl (included_columns i.include),
        )
        (rw
          (
            and_false (facets text_index && is_fulltext i && is_fulltext i),
            and_false (facets access_method),
            and_false (
                facets distance_facet
                && (is_vector_index_type i.type && is_vector_index_type i.type)),
            and_false (facets vector_facet),
            and_false (facets include_facet),
          )
          refl))

rebuilt-twice : (facets : IndexFacet → Bool) (is : List Index) → rebuilt facets (map twice is) ≡ []
unfolding flat_map
rebuilt-twice facets [] = refl
rebuilt-twice facets (i ∷ is) =
    rw (describe_index_differences_refl facets i) (rebuilt-twice facets is)

pair_indexes-itself :
    (is : List Index)
    → pair_indexes is is ≡ record { created = []; dropped = []; matched = map twice is }
unfolding pair_indexes
pair_indexes-itself is = rw (match_by_key-itself stem_of is) (
    rw (match_by_key-itself index_signature [])
      (λ j. record { created = []; dropped = []; matched = append-nil (map twice is) j }))

-- The indexes that a table has, declared again, change nothing and leave nothing over, whichever names
-- repeat and whatever an engine reports of an index.
pub index_changes-itself :
    (has_derived_name : Text → Index → Bool) (table : IndexedTable)
    → index_changes has_derived_name table.indexes table ≡ ([], [])
unfolding index_changes
index_changes-itself has_derived_name table =
    rw (pair_indexes-itself table.indexes)
      (rw (rebuilt-twice table.index_facets table.indexes) refl)
