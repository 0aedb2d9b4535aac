-- ===== src/Http/Wire.antt =====
-- packages/orm/src/http/wireCall.ts: the operations that a client may call, and what one takes.
pub mod Parsed
use uql.Base.{
  ℕ, String, Bool, true, false, Option, none, some, if◌then◌else◌, ◌==◌, Equal, nat_eq, List, [],
  ◌∷◌, any, all, is_some, refl, sym, ap, ◌∙◌, subst, ==_iff, ==_refl, ◌≡◌, ◌↔◌,
}
use uql.Text.{Text, codes, text_eq}
use uql.Result.{usage, Result, ok, err, guard, ◌>>◌, ◌>>=◌}
use uql.Http.Json.{Json, boolean, number, text, object, Members, value_at, keys_of}

-- `EntityAccess` of packages/orm/src/type/query.ts; `FieldAccess` is those of it that are not `deletes`.
pub data EntityAccess : Type 0 where
  reads inserts updates deletes : EntityAccess

abbrev pub access_rank : EntityAccess → ℕ
access_rank reads = 0
access_rank inserts = 1
access_rank updates = 2
access_rank deletes = 3

access_at : ℕ → EntityAccess
access_at n =
    if n == 0 then reads else if n == 1 then inserts else if n == 2 then updates else deletes

access_at-rank : (a : EntityAccess) → access_at (access_rank a) ≡ a
unfolding access_at
access_at-rank reads = refl
access_at-rank inserts = refl
access_at-rank updates = refl
access_at-rank deletes = refl

abbrev pub same_access : EntityAccess → EntityAccess → Bool
same_access a b = access_rank a == access_rank b

pub same_access_iff : (a b : EntityAccess) → (same_access a b ≡ true) ↔ (a ≡ b)
same_access_iff a b = (
  λ h.
      sym (access_at-rank a)
      ∙ ap access_at ((==_iff (access_rank a) (access_rank b)).0 h)
      ∙ access_at-rank b,
  λ e. subst (λ x. same_access a x ≡ true) e (==_refl (access_rank a)),
)

instance abbrev pub access_eq : Equal EntityAccess
access_eq = record { same = same_access; same_iff = same_access_iff }

pub data OpAccess : Type 0 where
  does : EntityAccess → OpAccess
  saves : OpAccess

pub data WireAnswer : Type 0 where
  rows page rows_and_count ids count : WireAnswer

pub data Writes : Type 0 where
  row row_list changes : Writes

pub record OpShape : Type 0 where
  pub access : OpAccess
  pub answers : WireAnswer
  pub by_id : Bool
  pub writes : Option Writes

pub data ApiOp : Type 0 where
  find_one_by_id find_one find_many find_many_and_count find_many_page count_rows : ApiOp
  insert_one insert_many save_one save_many update_many update_one_by_id : ApiOp
  delete_many delete_one_by_id : ApiOp

abbrev pub shape : OpAccess → WireAnswer → Bool → Option Writes → OpShape
shape access answers by_id writes = record {
  access = access;
  answers = answers;
  by_id = by_id;
  writes = writes;
}

-- `API_OPS`
abbrev pub api_ops : ApiOp → OpShape
api_ops find_one_by_id = shape (does reads) rows true none
api_ops find_one = shape (does reads) rows false none
api_ops find_many = shape (does reads) rows false none
api_ops find_many_and_count = shape (does reads) rows_and_count false none
api_ops find_many_page = shape (does reads) page false none
api_ops count_rows = shape (does reads) count false none
api_ops insert_one = shape (does inserts) ids false (some row)
api_ops insert_many = shape (does inserts) ids false (some row_list)
api_ops save_one = shape saves ids false (some row)
api_ops save_many = shape saves ids false (some row_list)
api_ops update_many = shape (does updates) count false (some changes)
api_ops update_one_by_id = shape (does updates) count true (some changes)
api_ops delete_many = shape (does deletes) count false none
api_ops delete_one_by_id = shape (does deletes) count true none

-- The keys of `API_OPS`, each with the operation that it names.
abbrev pub named_ops : List (String × ApiOp)
named_ops =
    ("findOneById", find_one_by_id)
    ∷ ("findOne", find_one)
    ∷ ("findMany", find_many)
    ∷ ("findManyAndCount", find_many_and_count)
    ∷ ("findManyPage", find_many_page)
    ∷ ("count", count_rows)
    ∷ ("insertOne", insert_one)
    ∷ ("insertMany", insert_many)
    ∷ ("saveOne", save_one)
    ∷ ("saveMany", save_many)
    ∷ ("updateMany", update_many)
    ∷ ("updateOneById", update_one_by_id)
    ∷ ("deleteMany", delete_many)
    ∷ ("deleteOneById", delete_one_by_id)
    ∷ []

abbrev op_among : Text → List (String × ApiOp) → Option ApiOp
op_among t [] = none
op_among t ((name, op) ∷ ops) =
    let later = op_among t ops in if codes name == t then some op else later

-- `isApiOp`, with the operation that the name is of.
unfoldable pub api_op : Json → Option ApiOp
api_op (text t) = op_among t named_ops
api_op _ = none

-- A call's `id`: a string or a number.
pub data CallId : Type 0 where
  text_id number_id : Text → CallId

pub record WireCall : Type 0 where
  pub entity : Text
  pub op : ApiOp
  pub id : Option CallId
  pub query : Option Members
  pub payload : Option Json
  pub hard_delete : Option Bool

-- `CALL_KEYS`
abbrev pub call_keys : List String
call_keys = "entity" ∷ "op" ∷ "id" ∷ "query" ∷ "payload" ∷ "hardDelete" ∷ []

abbrev pub is_call_key : Text → Bool
is_call_key key = any (λ k. codes k == key) call_keys

abbrev pub text_value : Option Json → Result Text
text_value (some (text t)) = ok t
text_value _ = err usage

abbrev pub op_value : Option Json → Result ApiOp
op_value none = err usage
op_value (some v) = named (api_op v)
  where
    named : Option ApiOp → Result ApiOp
    named none = err usage
    named (some op) = ok op

-- Each optional part of a call: nothing where the key is missing, and else its value, where the operation takes one
-- of its kind.
abbrev pub id_value : Bool → Option Json → Result (Option CallId)
id_value by_id none = ok none
id_value true (some (text t)) = ok (some (text_id t))
id_value true (some (number b t)) = ok (some (number_id t))
id_value _ (some _) = err usage

abbrev pub writes_rows : Option Writes → Bool
writes_rows (some row) = true
writes_rows (some row_list) = true
writes_rows _ = false

abbrev pub query_value : Bool → Option Json → Result (Option Members)
query_value rows_written none = ok none
query_value false (some (object ms)) = ok (some ms)
query_value _ (some _) = err usage

abbrev pub payload_value : Bool → Option Json → Result (Option Json)
payload_value writing none = ok none
payload_value true (some v) = ok (some v)
payload_value false (some v) = err usage

abbrev pub is_deleting : OpAccess → Bool
is_deleting (does deletes) = true
is_deleting _ = false

abbrev pub hard_delete_value : Bool → Option Json → Result (Option Bool)
hard_delete_value deleting none = ok none
hard_delete_value true (some (boolean b)) = ok (some b)
hard_delete_value _ (some _) = err usage

-- The parts of a call, of an operation that its call names.
abbrev pub call_of : Members → Text → ApiOp → Result WireCall
call_of ms entity op = id_value (api_ops op).by_id (value_at (codes "id") ms) >>= λ id.
    query_value (writes_rows (api_ops op).writes) (value_at (codes "query") ms) >>= λ query.
    payload_value (is_some (api_ops op).writes) (value_at (codes "payload") ms) >>= λ payload.
    hard_delete_value (is_deleting (api_ops op).access) (value_at (codes "hardDelete") ms)
    >>= λ hard_delete. ok (record {
      entity = entity;
      op = op;
      id = id;
      query = query;
      payload = payload;
      hard_delete = hard_delete;
    })

unfoldable pub parse_wire_call : Json → Result WireCall
parse_wire_call (object ms) =
    guard (all is_call_key (keys_of ms)) usage
    >> (text_value (value_at (codes "entity") ms) >>= λ entity.
        op_value (value_at (codes "op") ms) >>= λ op. call_of ms entity op)
parse_wire_call _ = err usage
