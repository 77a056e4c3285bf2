-- ===== src/Tests/Fixtures.antt =====
-- Data for the tests: documents, a server that gives every query the same answer, and an SDK.
use mathlib.Core.Path.{Path}
use mile_explorer.Common.{
  ℕ, ◌+◌, ◌-◌, ◌%◌, ◌^◌, String, ◌≡◌, refl, true, Option, none, some, arith, str_eq, if◌then◌else◌,
}
use mile_explorer.Common.Int.{pos}
use mile_explorer.Common.Exec.{Exception, Result, ok, throw, std_error, db_error}
use mile_explorer.Common.Float.{FloatLib}
use mile_explorer.Common.Text.{to_string}
use mile_explorer.Json.{JsonLib}
use mile_explorer.Json.Value.{Value, Fields, num, str, obj, field, end, value_lib}
use mile_explorer.Driver.{Driver, Sdk}
use mile_explorer.Db.{Db}

abbrev pub n : ℕ → Value
n k = num (pos k)

abbrev pub message : Fields → Value
message rest = obj (field "jsonrpc" (str "2.0") (field "id" (n 7) rest))

abbrev pub ping_json : Value
ping_json = message (field "method" (str "ping") (field "params" (obj end) end))

abbrev pub lost_json : Value
lost_json = message (field "method" (str "lost") (field "params" (obj end) end))

abbrev pub bare_json : Value
bare_json = message (field "method" (str "ping") end)

-- The texts that stand for the documents.
abbrev pub texts : String → Option Value
texts s =
    if str_eq s "ping"
    then some ping_json
    else if str_eq s "lost"
    then some lost_json
    else if str_eq s "bare"
    then some bare_json
    else none

instance abbrev pub lib : JsonLib Value
lib = value_lib texts

pub never_throws :
    {A : Type 0} (a : A) (e : Exception)
    → Path (Result A) (ok a) (throw e)
    → (message : String) × (e ≡ db_error message)
never_throws a e h = absurd (ground arith)

-- The world counts the queries that are run. A term is only a name.
abbrev pub answering : Value → Driver Value ℕ
answering value = record {
  Term = String;
  nil = "";
  table = λ name table outdated. table;
  get = λ t id. t;
  get_all = λ t id index. t;
  max = λ t id. t;
  min = λ t id. t;
  count = λ t. t;
  get_field = λ t name. t;
  slice = λ t first last. t;
  order_by_index = λ t index. t;
  order_by = λ t index. t;
  between = λ t first last index. t;
  filter = λ t f. t;
  field_eq = λ name value. name;
  order_by_term = λ t f. t;
  group = λ t name. t;
  ungroup = λ t. t;
  limit = λ t amount. t;
  concat_map = λ t f. t;
  fold = λ t base f. t;
  delete = λ t. t;
  insert = λ t row. t;
  insert_replacing = λ t row. t;
  update = λ t row. t;
  update_union = λ t key value. t;
  is_empty = λ t. t;
  index_wait = λ t name. t;
  index_create = λ t name. t;
  table_list = λ name. name;
  table_create = λ name table. table;
  table_drop = λ name table. table;
  db_create = λ name. name;
  db_list = "";
  run = λ host port t w. (ok value, w + 1);
  run_flag = λ host port t w. (ok true, w + 1);
  now = λ w. w;
  run_throws = λ host port t w e h. never_throws value e h;
  run_flag_throws = λ host port t w e h. never_throws true e h;
}

abbrev pub sdk : Sdk
sdk = record {
  uint256_to_dec_string = to_string;
  string_to_uint256 = λ s. if str_eq s "greatest" then some (2 ^ 256 - 1) else none;
  uint256_to_uint64 = λ k. k % 2 ^ 64;
  token_from_code = λ code. code;
  xdr_code = 0;
  mile_code = 1;
  description_max_length = 64;
  error_format = λ text param. text;
  uint256_to_uint64_lem = λ k h. omega arith;
  uint256_to_dec_string_lem = λ k. refl;
}

abbrev pub db : Db
db = record { name = "mile"; host = "localhost"; port = 28015; last_block_id = 0; exists = true }

-- The only amount that can be read is "5".
instance abbrev pub floats : FloatLib ℕ
floats = record {
  zero = 0;
  add = λ x y. x + y;
  stof = λ s. if str_eq s "5" then ok 5 else throw (std_error "stof");
  stold = λ s. if str_eq s "5" then ok 5 else throw (std_error "stold");
}
