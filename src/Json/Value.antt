-- ===== src/Json/Value.antt =====
-- A value of the JSON interface, for tests and witnesses: JSON documents as a tree. The texts that
-- parse are a parameter.
use mile_explorer.Common.{
  ℕ, suc, ◌<◌, ◌^◌, String, ◌≡◌, refl, Bool, true, false, ◌||◌, Option, none, some, List, [], ◌∷◌,
  ◌++◌, arith, if◌then◌else◌, is_some, str_eq, eq_iff, ◌%◌, ◌*◌, ◌-◌,
}
use mile_explorer.Common.Lists.{length}
use mile_explorer.Common.Int.{ℤ, pos, negsuc}
use mile_explorer.Common.Exec.{
  ok, json_error, parse_error, type_error, out_of_range, throw, or_throw,
}
use mile_explorer.Json.{Kind, kind_eq, null, boolean, number, string, array, object, JsonLib}

mutual
  pub data Value : Type 0 where
    nil : Value
    bool : Bool → Value
    num : ℤ → Value
    str : String → Value
    arr : Items → Value
    obj : Fields → Value

  pub data Items : Type 0 where
    done : Items
    item : Value → Items → Items

  pub data Fields : Type 0 where
    end : Fields
    field : String → Value → Fields → Fields

abbrev pub kind : Value → Kind
kind nil = null
kind (bool b) = boolean
kind (num n) = number
kind (str s) = string
kind (arr xs) = array
kind (obj fs) = object

abbrev pub member : Fields → String → Option Value
member end k = none
member (field j v fs) k = if str_eq j k then some v else member fs k

abbrev pub find : Value → String → Option Value
find (obj fs) k = member fs k
find _ k = none

abbrev pub set_member : Fields → String → Value → Fields
set_member fs k v = field k v fs

abbrev pub put : Value → String → Value → Value
put (obj fs) k v = obj (set_member fs k v)
put nil k v = obj (set_member end k v)
put j k v = j

abbrev pub text : Value → Option String
text (str s) = some s
text _ = none

-- A negative number is read modulo 2^64.
abbrev pub uint : Value → Option ℕ
uint (num (pos n)) = some (n % 2 ^ 64)
uint (num (negsuc n)) = some ((2 ^ 64 * suc n - suc n) % 2 ^ 64)
uint _ = none

abbrev pub to_list : Items → List Value
to_list done = []
to_list (item v vs) = v ∷ to_list vs

abbrev pub items : Value → List Value
items (arr xs) = to_list xs
items _ = []

abbrev pub field_values : Fields → List Value
field_values end = []
field_values (field k v fs) = v ∷ field_values fs

abbrev pub values : Value → List Value
values (arr xs) = to_list xs
values (obj fs) = field_values fs
values nil = []
values j = j ∷ []

abbrev pub count_fields : Fields → ℕ
count_fields end = 0
count_fields (field k v fs) = suc (count_fields fs)

abbrev pub size : Value → ℕ
size nil = 0
size (arr xs) = length (to_list xs)
size (obj fs) = count_fields fs
size _ = 1

abbrev pub add_last : Items → Value → Items
add_last done v = item v done
add_last (item w vs) v = item w (add_last vs v)

abbrev pub push_back : Value → Value → Value
push_back (arr xs) v = arr (add_last xs v)
push_back nil v = arr (item v done)
push_back j v = j

abbrev pub without : Fields → String → Fields
without end k = end
without (field j v fs) k =
    let rest = without fs k in elim (str_eq j k) [ true ↦ rest | false ↦ field j v rest ]

abbrev pub erase : Value → String → Value
erase (obj fs) k = obj (without fs k)
erase j k = j

pub find_kind : (j : Value) (k : String) → kind_eq (kind j) object ≡ false → find j k ≡ none
find_kind j k h = ground arith

pub text_kind : (j : Value) → kind_eq (kind j) string ≡ is_some (text j)
text_kind j = ground arith

pub uint_kind : (j : Value) → kind_eq (kind j) number ≡ is_some (uint j)
uint_kind j = ground arith

pub uint_range : (j : Value) (n : ℕ) → uint j ≡ some n → n < 2 ^ 64
uint_range j n h = ground arith

pub uint_number : (n : ℕ) → n < 2 ^ 64 → uint (num (pos n)) ≡ some n
uint_number n h = ground arith

pub kind_put :
    (j : Value) (k : String) (v : Value)
    → (kind_eq (kind j) null || kind_eq (kind j) object) ≡ true
    → kind (put j k v) ≡ object
kind_put j k v h = ground arith

pub find_put :
    (j : Value) (k : String) (v : Value) (k' : String)
    → (kind_eq (kind j) null || kind_eq (kind j) object) ≡ true
    → find (put j k v) k' ≡ (if str_eq k k' then some v else find j k')
find_put j k v k' h = ground arith

pub values_array : (j : Value) → kind_eq (kind j) array ≡ true → values j ≡ items j
values_array j h = ground arith

pub kind_push_back :
    (j v : Value)
    → (kind_eq (kind j) null || kind_eq (kind j) array) ≡ true
    → kind (push_back j v) ≡ array
kind_push_back j v h = ground arith

to_list-add_last : (xs : Items) (v : Value) → to_list (add_last xs v) ≡ to_list xs ++ v ∷ []
to_list-add_last done v = refl
to_list-add_last (item w vs) v = rw (to_list-add_last vs v)

pub items_push_back :
    (j v : Value)
    → (kind_eq (kind j) null || kind_eq (kind j) array) ≡ true
    → items (push_back j v) ≡ items j ++ v ∷ []
items_push_back (arr xs) v h = to_list-add_last xs v
items_push_back nil v h = refl
items_push_back (bool b) v h = ground arith
items_push_back (num n) v h = ground arith
items_push_back (str s) v h = ground arith
items_push_back (obj fs) v h = ground arith

pub kind_erase : (j : Value) (k : String) → kind (erase j k) ≡ kind j
kind_erase j k = ground arith

member-without :
    (fs : Fields) (k k' : String)
    → member (without fs k) k' ≡ (if str_eq k k' then none else member fs k')
member-without end k k' = ground arith
member-without (field j v fs) k k' =
    ground (arith, member-without fs k k', eq_iff k k', eq_iff j k, eq_iff j k')

pub find_erase :
    (j : Value) (k k' : String) → find (erase j k) k' ≡ (if str_eq k k' then none else find j k')
find_erase (obj fs) k k' = member-without fs k k'
find_erase nil k k' = ground arith
find_erase (bool b) k k' = ground arith
find_erase (num n) k k' = ground arith
find_erase (str s) k k' = ground arith
find_erase (arr xs) k k' = ground arith

-- `parsed` says which texts are JSON.
abbrev pub value_lib : (String → Option Value) → JsonLib Value
value_lib parsed = record {
  kind = kind;
  find = find;
  text = text;
  uint = uint;
  items = items;
  values = values;
  size = size;
  null_value = nil;
  empty_array = arr done;
  of_string = str;
  of_uint = λ n. num (pos n);
  of_int = num;
  of_bool = bool;
  put = put;
  push_back = push_back;
  erase = erase;
  at = λ j k.
      if kind_eq (kind j) object
      then or_throw (json_error out_of_range "key not found") (find j k)
      else throw (json_error type_error "key not found");
  index = λ j k.
      if kind_eq (kind j) object
      then ok (elim (find j k) [ none ↦ nil | some v ↦ v ])
      else if kind_eq (kind j) null
      then ok nil
      else throw (json_error type_error "key not found");
  assign = λ j k v.
      if kind_eq (kind j) null || kind_eq (kind j) object
      then ok (put j k v)
      else throw (json_error type_error "key not found");
  get_string = λ j. or_throw (json_error type_error "wrong type") (text j);
  get_uint64 = λ j. or_throw (json_error type_error "wrong type") (uint j);
  parse = λ s. or_throw (json_error parse_error "syntax error") (parsed s);
  what_at = λ j k. "key not found";
  what_get = λ j. "wrong type";
  what_parse = λ s. "syntax error";
  dump = λ n j. ok "";
  parse_kind = λ s. parse_error;
  dump_line = λ j. ok "";
  print = λ j. "";
  find_kind = find_kind;
  text_kind = text_kind;
  uint_kind = uint_kind;
  uint_range = uint_range;
  kind_null = refl;
  kind_array = refl;
  text_string = λ s. refl;
  uint_number = uint_number;
  kind_put = kind_put;
  find_put = find_put;
  values_array = values_array;
  items_null = refl;
  kind_push_back = kind_push_back;
  items_push_back = items_push_back;
  kind_erase = kind_erase;
  find_erase = find_erase;
  at_lem = λ j k. refl;
  index_lem = λ j k. refl;
  assign_lem = λ j k v. refl;
  get_string_lem = λ j. refl;
  get_uint64_lem = λ j. refl;
  parsed = parsed;
  parse_lem = λ s. refl;
}
