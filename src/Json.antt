-- ===== src/Json.antt =====
-- The JSON library (nlohmann::json, not part of the repository) as an interface: the operations that
-- the program calls, and the documented behaviour that the proofs rely on. `find` stands for `find`,
-- `contains` and `count`, `put` for `j[key] = v` on a null or an object, and `kind` for `type()`.
pub mod Value
pub mod Laws
use mile_explorer.Common.{
  ℕ, ◌<◌, ◌^◌, String, ◌≡◌, Bool, true, false, ◌||◌, Option, none, some, List, [], ◌∷◌, ◌++◌,
  if◌then◌else◌, is_some, str_eq,
}
use mile_explorer.Common.Int.{ℤ}
use mile_explorer.Common.Exec.{
  Result, JsonError, json_error, type_error, out_of_range, ok, throw, or_throw,
}

pub data Kind : Type 0 where
  null boolean number string array object : Kind

abbrev pub kind_eq : Kind → Kind → Bool
kind_eq null null = true
kind_eq boolean boolean = true
kind_eq number number = true
kind_eq string string = true
kind_eq array array = true
kind_eq object object = true
kind_eq _ _ = false

pub record JsonLib (J : Type 0) : Type 0 where
  pub kind : J → Kind
  pub find : J → String → Option J
  pub text : J → Option String
  pub uint : J → Option ℕ
  pub items : J → List J
  -- what a loop goes over: elements, the values of an object, or a value itself
  pub values : J → List J
  pub size : J → ℕ
  -- values
  pub null_value : J
  pub empty_array : J
  pub of_string : String → J
  pub of_uint : ℕ → J
  pub of_int : ℤ → J
  pub of_bool : Bool → J
  pub put : J → String → J → J
  pub push_back : J → J → J
  pub erase : J → String → J
  -- operations that may throw; `what_at` and the like are the texts of the exceptions
  pub at : J → String → Result J
  -- `j[key]` as a value, on a document that is not const
  pub index : J → String → Result J
  -- `j[key] = v` on any document
  pub assign : J → String → J → Result J
  pub get_string : J → Result String
  pub get_uint64 : J → Result ℕ
  pub parse : String → Result J
  pub what_at : J → String → String
  pub what_get : J → String
  pub what_parse : String → String
  -- `dump` throws `type_error` for a text that is no UTF-8
  pub dump : ℕ → J → Result String
  -- `dump()`, with no indentation
  pub dump_line : J → Result String
  -- `dump()` of a number, which holds no text
  pub print : J → String
  -- only an object has members, a text is a string and an unsigned reading is a number's
  pub find_kind : (j : J) (k : String) → kind_eq (kind j) object ≡ false → find j k ≡ none
  pub text_kind : (j : J) → kind_eq (kind j) string ≡ is_some (text j)
  pub uint_kind : (j : J) → kind_eq (kind j) number ≡ is_some (uint j)
  pub uint_range : (j : J) (n : ℕ) → uint j ≡ some n → n < 2 ^ 64
  pub kind_null : kind null_value ≡ null
  pub kind_array : kind empty_array ≡ array
  pub text_string : (s : String) → text (of_string s) ≡ some s
  pub uint_number : (n : ℕ) → n < 2 ^ 64 → uint (of_uint n) ≡ some n
  pub kind_put :
      (j : J) (k : String) (v : J)
      → (kind_eq (kind j) null || kind_eq (kind j) object) ≡ true
      → kind (put j k v) ≡ object
  pub find_put :
      (j : J) (k : String) (v : J) (k' : String)
      → (kind_eq (kind j) null || kind_eq (kind j) object) ≡ true
      → find (put j k v) k' ≡ (if str_eq k k' then some v else find j k')
  pub values_array : (j : J) → kind_eq (kind j) array ≡ true → values j ≡ items j
  pub items_null : items null_value ≡ []
  pub kind_push_back :
      (j v : J)
      → (kind_eq (kind j) null || kind_eq (kind j) array) ≡ true
      → kind (push_back j v) ≡ array
  pub items_push_back :
      (j v : J)
      → (kind_eq (kind j) null || kind_eq (kind j) array) ≡ true
      → items (push_back j v) ≡ items j ++ v ∷ []
  pub kind_erase : (j : J) (k : String) → kind (erase j k) ≡ kind j
  pub find_erase :
      (j : J) (k k' : String) → find (erase j k) k' ≡ (if str_eq k k' then none else find j k')
  pub at_lem :
      (j : J) (k : String)
      → at j k ≡ (
          if kind_eq (kind j) object
          then or_throw (json_error out_of_range (what_at j k)) (find j k)
          else throw (json_error type_error (what_at j k)))
  pub index_lem :
      (j : J) (k : String)
      → index j k ≡ (
          if kind_eq (kind j) object
          then ok (elim (find j k) [ none ↦ null_value | some v ↦ v ])
          else if kind_eq (kind j) null
          then ok null_value
          else throw (json_error type_error (what_at j k)))
  pub assign_lem :
      (j : J) (k : String) (v : J)
      → assign j k v ≡ (
          if kind_eq (kind j) null || kind_eq (kind j) object
          then ok (put j k v)
          else throw (json_error type_error (what_at j k)))
  pub get_string_lem :
      (j : J) → get_string j ≡ or_throw (json_error type_error (what_get j)) (text j)
  pub get_uint64_lem :
      (j : J) → get_uint64 j ≡ or_throw (json_error type_error (what_get j)) (uint j)
  -- a text that is no JSON throws `parse_error`, and one with too large a number `out_of_range`
  pub parse_kind : String → JsonError
  pub parsed : String → Option J
  pub parse_lem :
      (s : String) → parse s ≡ or_throw (json_error (parse_kind s) (what_parse s)) (parsed s)

module _ {J : Type 0} ⦃lib : JsonLib J⦄ where
  abbrev pub is_null : J → Bool
  is_null j = kind_eq (lib.kind j) null

  abbrev pub is_object : J → Bool
  is_object j = kind_eq (lib.kind j) object

  abbrev pub is_array : J → Bool
  is_array j = kind_eq (lib.kind j) array

  abbrev pub is_string : J → Bool
  is_string j = kind_eq (lib.kind j) string

  abbrev pub is_number : J → Bool
  is_number j = kind_eq (lib.kind j) number
