-- ===== src/Schema/Indexes/Describe.antt =====
-- `describeIndexDifferences` of packages/orm/src/schema/indexDifferences.ts: what two indexes differ
-- by, comparing only what both sides state.
use uql.Base.{
  ℕ, Bool, true, false, ◌&&◌, not, List, [], ◌∷◌, ◌++◌, Option, none, some, if◌then◌else◌, ◌==◌,
  any, sort, nat_eq,
}
use uql.Text.{Text, text_eq, codes, before_text}
use uql.Schema.Indexes.Names.{join_texts}

pub data IndexTarget : Type 0 where
  column json expression : Text → IndexTarget

-- An entry of an index: what it is over, and what it carries besides. `weight` comes with its text.
pub record IndexPart : Type 0 where
  pub target : IndexTarget
  pub order : Option Text
  pub nulls : Option Text
  pub ops_class : Option Text
  pub weight : Option (ℕ × Text)

pub record Index : Type 0 where
  pub name : Text
  pub entries : List IndexPart
  pub unique : Bool
  pub type : Option Text
  pub predicate : Option Text
  pub include : Option (List Text)
  pub config : Option Text
  pub distance : Option Text

pub data IndexFacet : Type 0 where
  order_facet nulls_facet ops_class_facet access_method include_facet vector_facet distance_facet
        text_index :
      IndexFacet

abbrev pub or_default : Option Text → Text → Text
or_default none t = t
or_default (some s) t = s

-- `storedColumns`: each entry's column, or nothing where one has none.
abbrev pub with_column : IndexTarget → Option (List Text) → Option (List Text)
with_column (column c) (some cs) = some (c ∷ cs)
with_column (column c) none = none
with_column (json c) cs = none
with_column (expression e) cs = none

abbrev pub stored_columns : List IndexPart → Option (List Text)
stored_columns [] = some []
stored_columns (e ∷ es) = with_column e.target (stored_columns es)

abbrev pub is_vector_index_type : Option Text → Bool
is_vector_index_type none = false
is_vector_index_type (some t) =
    any (λ u. u == t) (codes "hnsw" ∷ codes "ivfflat" ∷ codes "vector" ∷ [])

abbrev pub is_fulltext : Index → Bool
is_fulltext index = or_default index.type [] == codes "fulltext"

module _ (facets : IndexFacet → Bool) where
  abbrev pub order_part : IndexPart → List Text
  order_part e = if facets order_facet then or_default e.order (codes "asc") ∷ [] else []

  -- Nulls sort opposite to the direction, where an entry states nothing.
  abbrev pub nulls_default : Text → Text
  nulls_default direction = if direction == codes "desc" then codes "first" else codes "last"

  abbrev pub nulls_part : IndexPart → List Text
  nulls_part e =
      if facets nulls_facet
      then (codes "nulls " ++ or_default e.nulls (nulls_default (or_default e.order (codes "asc"))))
        ∷ []
      else []

  abbrev pub ops_class_part : Option Text → List Text
  ops_class_part none = []
  ops_class_part (some []) = []
  ops_class_part (some (c ∷ t)) = if facets ops_class_facet then (c ∷ t) ∷ [] else []

  abbrev pub weight_part : Option (ℕ × Text) → List Text
  weight_part none = []
  weight_part (some (n, t)) =
      if facets text_index && not (n == 1) then (codes "weight " ++ t) ∷ [] else []

  -- `entrySignature`, of an entry over a column.
  abbrev pub entry_signature : Text → IndexPart → Text
  entry_signature c e =
      join_texts (codes " ") (
        c
        ∷ (order_part e ++ (nulls_part e ++ (ops_class_part e.ops_class ++ weight_part e.weight))))

  abbrev pub signature_on : IndexTarget → IndexPart → Option (List Text) → Option (List Text)
  signature_on (column c) e (some ts) = some (entry_signature c e ∷ ts)
  signature_on (column c) e none = none
  signature_on (json c) e ts = none
  signature_on (expression x) e ts = none

  abbrev pub entry_signatures : List IndexPart → Option (List Text)
  entry_signatures [] = some []
  entry_signatures (e ∷ es) = signature_on e.target e (entry_signatures es)

  abbrev pub text_field_order : Index → List Text → List Text
  text_field_order index ts =
      if facets text_index && is_fulltext index then sort before_text ts else ts

  -- The columns as both sides compare them, where every entry is a column as stored.
  unfoldable pub compared_columns : Index → Option Text
  compared_columns index = elim (entry_signatures index.entries) [
    | some ts ↦ some (join_texts (codes ", ") (text_field_order index ts))
    | none ↦ none
  ]

-- One difference, where a test says that there is one.
abbrev pub differs_in : Bool → (what : Text) → (actual : Text) → (expected : Text) → List Text
differs_in false what actual expected = []
differs_in true what actual expected = (what ++ (actual ++ (codes " -> " ++ expected))) ∷ []

abbrev pub in_brackets : Text → Text
in_brackets t = codes "(" ++ (t ++ codes ")")

abbrev pub columns_difference : Option Text → Option Text → List Text
columns_difference (some s) (some t) =
    differs_in (not (s == t)) (codes "columns: ") (in_brackets t) (in_brackets s)
columns_difference (some s) none = []
columns_difference none t = []

abbrev pub fulltext_config : Index → Text
fulltext_config index = or_default index.config (codes "simple")

abbrev pub index_distance : Index → Text
index_distance index = or_default index.distance (codes "cosine")

abbrev pub access_method_of : Index → Text
access_method_of index = or_default index.type (codes "btree")

abbrev pub yes_or_no : Bool → Text
yes_or_no true = codes "yes"
yes_or_no false = codes "no"

abbrev pub truth_text : Bool → Text
truth_text true = codes "true"
truth_text false = codes "false"

abbrev pub same_truth : Bool → Bool → Bool
same_truth true b = b
same_truth false b = not b

abbrev pub has_predicate : Option Text → Bool
has_predicate none = false
has_predicate (some p) = true

abbrev pub included_columns : Option (List Text) → Text
included_columns none = join_texts (codes ", ") []
included_columns (some columns) = join_texts (codes ", ") (sort before_text columns)

unfoldable pub describe_index_differences : (IndexFacet → Bool) → Index → Index → List Text
describe_index_differences facets source target =
    let vector = is_vector_index_type source.type in
    let target_vector = is_vector_index_type target.type in
    columns_difference (compared_columns facets source) (compared_columns facets target)
    ++ (differs_in
          (facets text_index
            && is_fulltext source
            && is_fulltext target
            && not (fulltext_config source == fulltext_config target))
          (codes "config: ") (fulltext_config target) (fulltext_config source)
        ++ (differs_in
              (not (same_truth (has_predicate source.predicate) (has_predicate target.predicate)))
              (codes "predicate: ") (or_default target.predicate (codes "none"))
              (or_default source.predicate (codes "none"))
            ++ (differs_in (not (same_truth source.unique target.unique)) (codes "unique: ")
                  (truth_text target.unique) (truth_text source.unique)
                ++ (differs_in
                      (facets access_method
                        && not (access_method_of source == access_method_of target))
                      (codes "type: ") (access_method_of target) (access_method_of source)
                    ++ (differs_in
                          (facets distance_facet
                            && (vector && target_vector)
                            && not (index_distance source == index_distance target))
                          (codes "distance: ") (index_distance target) (index_distance source)
                        ++ (differs_in
                              (facets vector_facet && not (same_truth vector target_vector))
                              (codes "vector index: ") (yes_or_no target_vector) (yes_or_no vector)
                            ++ differs_in
                                (facets include_facet
                                  && not (
                                      included_columns source.include
                                      == included_columns target.include))
                                (codes "include: ") (in_brackets (included_columns target.include))
                                (in_brackets (included_columns source.include))))))))
