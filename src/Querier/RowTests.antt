-- ===== src/Querier/RowTests.antt =====
-- Rows read at concrete inputs, for packages/orm/src/querier/rowReader.ts.
use uql.Base.{Bool, true, false, [], ◌∷◌, none, some, ◌≡◌, refl, All}
use uql.Text.{codes}
use uql.Http.Json.{
  Json, null, text, array, object, no_items, item, Members, no_members, member, first_member,
  later_member,
}
use uql.Querier.RowReader.Paths.{set_at, change_at}
use uql.Querier.RowReader.{
  SelectTerms, no_terms, term, select_term, select_rows, row_reader, read_row, plan_of, drop_joined,
  map_values, nest, nest_onto,
}
use uql.Querier.RowReader.Dropped.{Stands, NoIds, drop_joined-Stands}
use uql.Querier.RowReader.Nest.{nest-holds_at, holds_at}

-- A post with its author, who has a company, and its tags.
abbrev post_terms : SelectTerms Bool
post_terms = term (select_term (some (codes "id")) none [] false) (
    term (select_term (some (codes "author.id")) none [] true) (
      term (select_term (some (codes "author.company.id")) none [] true) (
        term (select_term (some (codes "author.name")) (some true) [] false) (
          term
            (select_rows (codes "tags")
              (term (select_term (some (codes "name")) (some true) [] false) no_terms))
            no_terms))))

abbrev marked : Bool → Json → Json
marked kind v = text (codes "decoded")

abbrev tag_row : Json
tag_row = object (member (codes "name") (text (codes "a")) no_members)

abbrev post_row : Members
post_row = member (codes "id") (text (codes "1")) (
    member (codes "author.id") (text (codes "2")) (
      member (codes "author.company.id") null (
        member (codes "author.name") (text (codes "Ann"))
          (member (codes "tags") (array (item tag_row no_items)) no_members))))

-- The company is dropped, since its join matched no row, and the decoded values are.
post_run :
    row_reader marked (λ v. no_items) post_terms post_row
    ≡ member (codes "id") (text (codes "1")) (
        member
          (codes "author")
          (object (
            member
              (codes "id")
              (text (codes "2"))
              (member (codes "name") (text (codes "decoded")) no_members)))
          (member
            (codes "tags")
            (array
              (item (object (member (codes "name") (text (codes "decoded")) no_members)) no_items))
            no_members))
unfolding row_reader read_row plan_of drop_joined map_values nest_onto set_at change_at
post_run = refl

nest-holds_at_example :
    holds_at
      (codes "author" ∷ codes "company" ∷ codes "id" ∷ [])
      (nest (plan_of marked (λ v. no_items) post_terms).dotted post_row)
    ≡ some null
unfolding plan_of
nest-holds_at_example =
    nest-holds_at marked (λ v. no_items) post_terms post_row (codes "author.company.id") null
      (
        (refl, (refl, (refl, (refl, tt)))),
        ((refl, (refl, (refl, tt))), ((refl, (refl, tt)), ((refl, tt), (tt, tt)))),
      )
      (later_member (later_member first_member))

abbrev nested_row : Members
nested_row = member (codes "id") (text (codes "1")) (
    member (codes "author")
      (object (
        member (codes "id") (text (codes "2"))
          (member (codes "company") (object (member (codes "id") null no_members)) no_members)))
      no_members)

post_joins-NoIds : NoIds (plan_of marked (λ v. no_items) post_terms).joined
unfolding plan_of
post_joins-NoIds = ((refl, tt), (tt, tt))

drop_joined-Stands_example :
    All
      (Stands (drop_joined (plan_of marked (λ v. no_items) post_terms).joined nested_row))
      (plan_of marked (λ v. no_items) post_terms).joined
drop_joined-Stands_example =
    drop_joined-Stands (plan_of marked (λ v. no_items) post_terms).joined nested_row
      post_joins-NoIds
