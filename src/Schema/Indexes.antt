-- ===== src/Schema/Indexes.antt =====
-- packages/orm/src/schema/indexDifferences.ts: how the indexes of two schemas pair up, and what two
-- indexes differ by. `hasDerivedName`, which reads hashes off a name, is given.
pub mod Names
pub mod Describe
pub mod Itself
pub mod Pairs
use uql.Base.{
  Bool, true, false, ◌&&◌, ◌||◌, not, List, [], ◌∷◌, ◌++◌, Option, none, some, is_some,
  if◌then◌else◌, ◌==◌, any, filter, map, flat_map,
}
use uql.Text.{Text, text_eq, codes}
use uql.Schema.Match.{Matches, match_by_key}
use uql.Schema.Indexes.Names.{index_name_stem, join_texts}
use uql.Schema.Indexes.Describe.{Index, IndexFacet, stored_columns, describe_index_differences}

-- An entry's columns identify an index; one over an expression is known by its name.
abbrev pub identity : Text → Option (List Text) → Text
identity name (some columns) = join_texts (codes ",") columns
identity name none = codes "name:" ++ index_name_stem name

unfoldable pub index_signature : Index → Text
index_signature index =
    (if index.unique then codes "unique" else codes "plain")
    ++ (codes "(" ++ (identity index.name (stored_columns index.entries) ++ codes ")"))

-- `splitPartial`
abbrev pub is_partial : Index → Bool
is_partial index = is_some index.predicate

abbrev pub plain : List Index → List Index
plain indexes = filter (λ index. not (is_partial index)) indexes

abbrev pub partial : List Index → List Index
partial indexes = filter is_partial indexes

abbrev pub stem_of : Index → Text
stem_of index = index_name_stem index.name

abbrev pub paired_by_name : List Index → List Index → Matches Index Index
paired_by_name source target = match_by_key source target stem_of stem_of

abbrev pub paired_by_shape : Matches Index Index → Matches Index Index
paired_by_shape named =
    match_by_key (plain named.created) (plain named.dropped) index_signature index_signature

abbrev pub with_shapes : Matches Index Index → Matches Index Index → Matches Index Index
with_shapes named shaped = record {
  created = partial named.created ++ shaped.created;
  dropped = partial named.dropped ++ shaped.dropped;
  matched = named.matched ++ shaped.matched;
}

unfoldable pub pair_indexes : List Index → List Index → Matches Index Index
pair_indexes source target =
    let named = paired_by_name source target in with_shapes named (paired_by_shape named)

pub data IndexChange : Type 0 where
  creates : Index → IndexChange
  drops : Index → IndexChange
  rebuilds : (from : Index) → (to : Index) → (description : Text) → IndexChange

abbrev pub rebuild_pair : Index → Index → List Text → List IndexChange
rebuild_pair to from [] = []
rebuild_pair to from (d ∷ ds) = rebuilds from to (join_texts (codes ", ") (d ∷ ds)) ∷ []

abbrev pub rebuilt : (IndexFacet → Bool) → List (Index × Index) → List IndexChange
rebuilt facets matched =
    flat_map (λ p. rebuild_pair p.0 p.1 (describe_index_differences facets p.0 p.1)) matched

pub record PairedChanges : Type 0 where
  pub created : List Index
  pub dropped : List Index
  pub rebuilt_ones : List IndexChange

abbrev pub paired_index_changes : List Index → List Index → (IndexFacet → Bool) → PairedChanges
paired_index_changes declared current facets =
    let pairs = pair_indexes declared current in
    record {
      created = pairs.created;
      dropped = pairs.dropped;
      rebuilt_ones = rebuilt facets pairs.matched;
    }

-- What a diff of a table's indexes reads of it.
pub record IndexedTable : Type 0 where
  pub name : Text
  pub indexes : List Index
  pub index_facets : IndexFacet → Bool

module _ (has_derived_name : Text → Index → Bool) where
  abbrev pub is_owned : List Index → Text → Index → Bool
  is_owned declared table index =
      any (λ d. d.name == index.name) declared || has_derived_name table index

  unfoldable pub index_changes : List Index → IndexedTable → List IndexChange × List Index
  index_changes declared table =
      let pairs = paired_index_changes declared table.indexes table.index_facets in
      let owned = filter (is_owned declared table.name) pairs.dropped in
      let kept = filter (λ index. not (is_owned declared table.name index)) pairs.dropped in
      (map creates pairs.created ++ (map drops owned ++ pairs.rebuilt_ones), kept)
