-- ===== src/Tests/Server.antt =====
-- A server that keeps the transactions and the count of their processing, as Db.Stream.Tables says.
use mile_explorer.Common.{
  ℕ, String, ◌≡◌, refl, inl, inr, Bool, Bool-cases, true, not, Option, Option-cases, none, some,
  List, [], ◌∷◌, arith, if◌then◌else◌, is_some, str_eq,
}
use mile_explorer.Common.Exec.{Exception, Result, ok, throw, db_error}
use mile_explorer.Json.Value.{Value, nil, str, obj, arr, item, done, field, end, find, text, uint}
use mile_explorer.Driver.{Driver}
use mile_explorer.Db.Name
use mile_explorer.Db.Stream.Tables.{Tables, HasCount, or_null}
use mile_explorer.Tests.Fixtures.{n, lib, db}

-- Two transactions wait, and stay in the queue.
abbrev pub queued : ℕ → String → Value
queued bid id =
    obj (
      field "block-id" (n bid)
        (field "id" (str id) (field "transaction-type" (str "Transfer") end)))

abbrev pub queue : Value
queue = arr (item (queued 6 "k:6:1") (item (queued 7 "k:7:1") done))

pub data Query : Type 0 where
  other : Query
  table : String → Query
  row : Query → String → Query
  column : Query → String → Query
  ordered : Query → Query
  inserted : Query → Value → Query
  updated : Query → Value → Query

pub record World : Type 0 where
  pub rows : List (String × Value)
  pub state : Option Value

-- The row that was stored under an id last, if it has one.
abbrev last_row : List (String × Value) → String → Option Value
last_row [] id = none
last_row ((key, v) ∷ rest) id = if str_eq key id then some v else last_row rest id

abbrev with_id : Option Value → Option Value
with_id none = none
with_id (some v) = if is_some (find v "id") then some v else none

abbrev transaction : World → String → Option Value
transaction w id = with_id (last_row w.rows id)

abbrev number : Option Value → Option ℕ
number none = none
number (some v) = uint v

abbrev pub count : World → Option ℕ
count w = number w.state

abbrev id_of : Value → String
id_of v = elim (find v "id") [ none ↦ "" | some name ↦ elim (text name) [ none ↦ "" | some s ↦ s ] ]

abbrev answer : Query → World → Option Value × World
answer (row (table name) id) w = (some (or_null (transaction w id)), w)
answer (column q name) w = (if is_some (count w) then w.state else none, w)
answer (ordered q) w = (some queue, w)
answer (inserted (table name) v) w =
    if str_eq name "transactions"
    then (some nil, record w { rows = (id_of v, v) ∷ w.rows })
    else (some nil, record w { state = find v "count" })
answer (updated q v) w = (some nil, record w { state = find v "count" })
answer q w = (some nil, w)

abbrev or_error : Option Value → Result Value
or_error none = throw (db_error "no row")
or_error (some v) = ok v

abbrev run : Query → World → Result Value × World
run q w = let (r, w') = answer q w in (or_error r, w')

pub or_error_throws :
    (r : Option Value) (e : Exception)
    → or_error r ≡ throw e
    → (message : String) × (e ≡ db_error message)
or_error_throws none e h = ("no row", ground arith)
or_error_throws (some v) e h = absurd (ground arith)

pub flag_throws :
    (b : Bool) (e : Exception)
    → Path (Result Bool) (ok b) (throw e)
    → (message : String) × (e ≡ db_error message)
flag_throws b e h = absurd (ground arith)

abbrev pub server : Driver Value World
server = record {
  Term = Query;
  nil = other;
  table = λ name table_name outdated. table table_name;
  get = λ t id. row t id;
  get_all = λ t id index. other;
  max = λ t id. other;
  min = λ t id. other;
  count = λ t. other;
  get_field = λ t name. column t name;
  slice = λ t first last. other;
  order_by_index = λ t index. ordered t;
  order_by = λ t index. other;
  between = λ t first last index. other;
  filter = λ t f. other;
  field_eq = λ name value. other;
  order_by_term = λ t f. other;
  group = λ t name. other;
  ungroup = λ t. other;
  limit = λ t amount. other;
  concat_map = λ t f. other;
  fold = λ t base f. other;
  delete = λ t. other;
  insert = λ t v. inserted t v;
  insert_replacing = λ t v. inserted t v;
  update = λ t v. updated t v;
  update_union = λ t key value. other;
  is_empty = λ t. other;
  index_wait = λ t name. other;
  index_create = λ t name. other;
  table_list = λ name. other;
  table_create = λ name table. other;
  table_drop = λ name table. other;
  db_create = λ name. other;
  db_list = other;
  run = λ host port t w. run t w;
  run_flag = λ host port t w. (ok (not (is_some (count w))), w);
  now = λ w. 0;
  run_throws = λ host port t w e h. or_error_throws (answer t w).0 e h;
  run_flag_throws = λ host port t w e h. flag_throws (not (is_some (count w))) e h;
}

pub with_id_found :
    (o : Option Value) (v : Value) → with_id o ≡ some v → is_some (find v "id") ≡ true
with_id_found none v h = absurd (ground arith)
with_id_found (some u) v h = elim (Bool-cases (is_some (find u "id"))) [
  | inl e ↦ ground arith
  | inr e ↦ absurd (ground arith)
]

pub inserted_row :
    (v name : Value) (id : String) (w : World)
    → find v "id" ≡ some name
    → text name ≡ some id
    → (other_id : String)
    → transaction (record w { rows = (id_of v, v) ∷ w.rows }) other_id
      ≡ (if str_eq id other_id then some v else transaction w other_id)
inserted_row v name id w h k other_id = ground arith

pub read_count :
    (w : World) (n : ℕ)
    → count w ≡ some n
    → (v : Value) × (run (column (row (table Name.transactions_state) "state") "count") w
        ≡ (ok v, w))
      × (uint v ≡ some n)
read_count w n h = elim (Option-cases w.state) [
  | inl e ↦ absurd (ground arith)
  | inr (v, e) ↦ (v, ground arith, ground arith)
]

pub no_count :
    (w : World)
    → count w ≡ none
    → (message : String) × (run (column (row (table Name.transactions_state) "state") "count") w
        ≡ (throw (db_error message), w))
no_count w h = ("no row", ground arith)

pub written_count : (v : Value) (n : ℕ) → HasCount v n → number (find v "count") ≡ some n
written_count v n has = ground (arith, has.has_member, has.is_number)

abbrev pub tables : Tables server db
tables = record {
  one_replica = record {
    same_get = λ name id w. refl;
    same_field = λ name id key w. refl;
    same_order = λ name index w. refl;
  };
  transaction = transaction;
  count = count;
  transaction_id = λ w id v h. with_id_found (last_row w.rows id) v h;
  run_get = λ id w. refl;
  run_insert = λ v name id w h k absent. (
    v,
    nil,
    record w { rows = (id_of v, v) ∷ w.rows },
    (λ n has below. has),
    refl,
    inserted_row v name id w h k,
    refl,
  );
  run_take_off = λ id w. (w, refl, (λ key. refl), refl);
  run_queue = λ w. (w, refl, (λ key. refl), refl);
  run_count = λ w n h. read_count w n h;
  run_no_count = λ w h. no_count w h;
  run_is_empty = λ w. refl;
  run_insert_state = λ v n w has below h.
      (nil, record w { state = find v "count" }, refl, (λ key. refl), written_count v n has);
  run_update_state = λ v n k w has below h.
      (nil, record w { state = find v "count" }, refl, (λ key. refl), written_count v n has);
}
