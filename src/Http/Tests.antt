-- ===== src/Http/Tests.antt =====
-- Calls of an API that serves posts and their authors, whose addresses no client reads.
use uql.Base.{
  none, some, all, String, Bool, true, false, if◌then◌else◌, ◌==◌, string_eq, [], ◌∷◌, ◌≡◌, ◌↔◌,
  refl, inl, inr,
}
use uql.Text.{codes}
use uql.Result.{security, ok, err}
use uql.Http.Json.{
  keys_of, Json, null, boolean, text, object, Members, no_members, member, value_at,
}
use uql.Http.Wire.Parsed.{Fits, parse_wire_call-Fits}
use uql.Http.Wire.{
  WireCall, text_id, find_one_by_id, parse_wire_call, is_call_key, reads, inserts, find_many,
  api_ops,
}
use uql.Http.Exposure.{
  anything, only, FieldMeta, RelationMeta, EntityMeta, many_to_one, unset_cascade, op_needs,
  writes_of, assert_exposed,
}
use uql.Http.Exposure.Exposes.{Serves}
use uql.Http.Exposure.Taken.{EveryName, assert_exposed_iff}
use uql.Http.Hide.{exposed_query, hide_unreadable}
use uql.Http.Hide.Selection.{selects, exposed_query-selects}

abbrev open_field : FieldMeta
open_field = record { wire = anything; is_computed = false; updatable = true }

abbrev kept_field : FieldMeta
kept_field = record { wire = only (inserts ∷ []); is_computed = false; updatable = true }

abbrev user : EntityMeta
user = record {
  entity = "User";
  wire = anything;
  fields = (codes "name", open_field) ∷ (codes "email", kept_field) ∷ [];
  relations = [];
}

abbrev author : RelationMeta
author = record {
  entity = "User";
  cardinality = many_to_one;
  cascade = unset_cascade;
  wire = anything;
}

abbrev post : EntityMeta
post = record {
  entity = "Post";
  wire = anything;
  fields = (codes "title", open_field) ∷ [];
  relations = (codes "author", author) ∷ [];
}

abbrev metas : String → EntityMeta
metas name = if name == "User" then user else post

abbrev every_entity : String → Bool
every_entity name = true

abbrev just : String → Json → Json
just key value = object (member (codes key) value no_members)

-- `{ $where: { author: { <key>: 'x' } } }`
abbrev of_author : String → Json
of_author key = just "$where" (just "author" (just key (text (codes "x"))))

refused_run :
    assert_exposed metas every_entity post find_many (of_author "email") null ≡ err security
unfolding assert_exposed uql.Http.Exposure.assert_ops uql.Http.Exposure.takes uql.Http.Exposure.walk
    uql.Http.Exposure.step_key
refused_run = refl

taken_run : assert_exposed metas every_entity post find_many (of_author "name") null ≡ ok tt
unfolding assert_exposed uql.Http.Exposure.assert_ops uql.Http.Exposure.takes uql.Http.Exposure.walk
    uql.Http.Exposure.step_key uql.Http.Exposure.is_dropped
taken_run = refl

assert_exposed_iff_example :
    (assert_exposed metas every_entity post find_many (of_author "name") null ≡ ok tt) ↔ (
      Serves every_entity post (op_needs (api_ops find_many).access find_many)
      × EveryName metas every_entity post (reads ∷ []) (of_author "name")
      × EveryName metas every_entity post (writes_of find_many) null)
assert_exposed_iff_example =
    assert_exposed_iff metas every_entity post find_many (of_author "name") null

abbrev no_query : Members
no_query = no_members

abbrev without_email : Members
without_email = member (codes "$select") (just "email" (boolean false)) no_members

hidden_run : exposed_query metas every_entity user find_many no_query null ≡ ok without_email
unfolding exposed_query assert_exposed uql.Http.Exposure.assert_ops uql.Http.Exposure.takes
    uql.Http.Exposure.walk hide_unreadable uql.Http.Hide.populate_in uql.Http.Hide.hidden_keys
hidden_run = refl

exposed_query-selects_example :
    selects (value_at (codes "$select") without_email) (codes "email") ≡ false
unfolding uql.Http.Exposure.takes
exposed_query-selects_example =
    exposed_query-selects metas every_entity user find_many no_query without_email null
      (codes "email") kept_field hidden_run refl refl refl refl refl (inr (inl refl)) refl

-- `{ entity: 'post', op: 'findOneById', id: 'p1' }`
abbrev sent : Members
sent = member (codes "entity") (text (codes "post")) (
    member (codes "op") (text (codes "findOneById"))
      (member (codes "id") (text (codes "p1")) no_members))

abbrev find_post : WireCall
find_post = record {
  entity = codes "post";
  op = find_one_by_id;
  id = some (text_id (codes "p1"));
  query = none;
  payload = none;
  hard_delete = none;
}

sent_run : parse_wire_call (object sent) ≡ ok find_post
unfolding parse_wire_call uql.Http.Wire.api_op
sent_run = refl

parse_wire_call-Fits_example : Fits find_post × (all is_call_key (keys_of sent) ≡ true)
parse_wire_call-Fits_example = parse_wire_call-Fits sent find_post sent_run
