-- ===== src/Http/Wire/Parsed.antt =====
-- What a call that `parseWireCall` reads may hold.
use uql.Base.{Bool, true, false, Option, none, some, is_some, all, ◌≡◌, refl, sym, ap, subst}
use uql.Text.{Text, codes, text_eq}
use uql.Result.{usage, ok, ok_eq, guard, >>=-eq-ok}
use uql.Http.Json.{Json, object, Members, value_at, keys_of}
use uql.Http.Wire.{
  ApiOp, api_ops, CallId, WireCall, text_value, op_value, id_value, writes_rows, query_value,
  payload_value, is_deleting, hard_delete_value, call_of, is_call_key, parse_wire_call,
}

-- A call holds no part that its operation does not take.
pub record Fits (call : WireCall) : Type 0 where
  pub id : is_some call.id ≡ true → (api_ops call.op).by_id ≡ true
  pub query : is_some call.query ≡ true → writes_rows (api_ops call.op).writes ≡ false
  pub payload : is_some call.payload ≡ true → is_some (api_ops call.op).writes ≡ true
  pub hard_delete : is_some call.hard_delete ≡ true → is_deleting (api_ops call.op).access ≡ true

id_taken :
    (b : Bool) (o : Option Json) (r : Option CallId)
    → id_value b o ≡ ok r
    → is_some r ≡ true
    → b ≡ true
id_taken true o r h s = refl
id_taken false none r h s = let none_set : is_some r ≡ false = ap is_some (sym (ok_eq h)) in cc
id_taken false (some v) r h s = cc

query_taken :
    (b : Bool) (o : Option Json) (r : Option Members)
    → query_value b o ≡ ok r
    → is_some r ≡ true
    → b ≡ false
query_taken false o r h s = refl
query_taken true none r h s = let none_set : is_some r ≡ false = ap is_some (sym (ok_eq h)) in cc
query_taken true (some v) r h s = cc

payload_taken :
    (b : Bool) (o : Option Json) (r : Option Json)
    → payload_value b o ≡ ok r
    → is_some r ≡ true
    → b ≡ true
payload_taken true o r h s = refl
payload_taken false none r h s = let none_set : is_some r ≡ false = ap is_some (sym (ok_eq h)) in cc
payload_taken false (some v) r h s = cc

hard_delete_taken :
    (b : Bool) (o : Option Json) (r : Option Bool)
    → hard_delete_value b o ≡ ok r
    → is_some r ≡ true
    → b ≡ true
hard_delete_taken true o r h s = refl
hard_delete_taken false none r h s =
    let none_set : is_some r ≡ false = ap is_some (sym (ok_eq h)) in cc
hard_delete_taken false (some v) r h s = cc

call_of-Fits :
    (ms : Members) (entity : Text) (op : ApiOp) (call : WireCall)
    → call_of ms entity op ≡ ok call
    → Fits call
call_of-Fits ms entity op call h =
    let shape = api_ops op in
    let (id, a, h₁) = >>=-eq-ok (id_value shape.by_id (value_at (codes "id") ms)) _ h in
    let (query, b, h₂) =
      >>=-eq-ok (query_value (writes_rows shape.writes) (value_at (codes "query") ms)) _ h₁ in
    let (payload, c, h₃) =
      >>=-eq-ok (payload_value (is_some shape.writes) (value_at (codes "payload") ms)) _ h₂ in
    let (hard_delete, d, h₄) =
      >>=-eq-ok (hard_delete_value (is_deleting shape.access) (value_at (codes "hardDelete") ms)) _
        h₃ in
    subst Fits (ok_eq h₄) (record {
      id = id_taken shape.by_id (value_at (codes "id") ms) id a;
      query = query_taken (writes_rows shape.writes) (value_at (codes "query") ms) query b;
      payload = payload_taken (is_some shape.writes) (value_at (codes "payload") ms) payload c;
      hard_delete =
          hard_delete_taken (is_deleting shape.access) (value_at (codes "hardDelete") ms)
            hard_delete d;
    })

known_keys : (b : Bool) {u : Unit {0}} → guard b usage ≡ ok u → b ≡ true
known_keys true h = refl
known_keys false h = cc

-- A call that is read holds no part that its operation does not take, and each key of what it was read from is
-- a call's.
pub parse_wire_call-Fits :
    (ms : Members) (call : WireCall)
    → parse_wire_call (object ms) ≡ ok call
    → Fits call × (all is_call_key (keys_of ms) ≡ true)
unfolding parse_wire_call
parse_wire_call-Fits ms call h =
    let (u, a, h₁) = >>=-eq-ok (guard (all is_call_key (keys_of ms)) usage) _ h in
    let (entity, b, h₂) = >>=-eq-ok (text_value (value_at (codes "entity") ms)) _ h₁ in
    let (op, c, h₃) = >>=-eq-ok (op_value (value_at (codes "op") ms)) _ h₂ in
    (call_of-Fits ms entity op call h₃, known_keys (all is_call_key (keys_of ms)) a)
