-- ===== src/Db/Transactions/Ids.antt =====
-- The ids that `find_public_keys` makes of a transaction: common/src/db/transactions/transactions.cpp.

use mile_explorer.Common.{
  String, ◌≡◌, inl, inr, Bool, false, ◌||◌, Option, none, some, List, [], ◌∷◌, arith, Option-cases,
  if◌then◌else◌, str_eq, eq_iff,
}
use mile_explorer.Common.Lists.{lookup}
use mile_explorer.Common.Exec.{ok, throw, json_error, type_error}
use mile_explorer.Json.Laws.{at_found, string_found}
use mile_explorer.Json.{JsonLib}
use mile_explorer.Db.Transactions.{put_sorted, row_id, public_key_rows, find_public_keys}

lookup-put_sorted :
    (a k v : String) (m : List (String × String))
    → lookup a (put_sorted k v m) ≡ (if str_eq k a then some v else lookup a m)
lookup-put_sorted a k v [] = ground (arith, eq_iff k a)
lookup-put_sorted a k v ((j, w) ∷ m) =
    ground (arith, lookup-put_sorted a k v m, eq_iff k j, eq_iff j a, eq_iff k a)

module _ {J : Type 0} ⦃lib : JsonLib J⦄ where
  -- The text under a key.
  abbrev pub text_at : J → String → Option String
  text_at trx key = elim (lib.find trx key) [ none ↦ none | some v ↦ lib.text v ]

  abbrev is_at : J → String → String → Bool
  is_at trx key a = elim (text_at trx key) [ none ↦ false | some s ↦ str_eq s a ]

  abbrev some_at : J → List String → String → Bool
  some_at trx [] a = false
  some_at trx (name ∷ names) a = is_at trx name a || some_at trx names a

  lookup-public_key_rows :
      (trx number_of : J) (block_id number a : String) (names : List String)
      (ret keys : List (String × String))
      → lib.find trx "transaction-id" ≡ some number_of
      → lib.text number_of ≡ some number
      → public_key_rows trx block_id names ret ≡ ok keys
      → lookup a keys
        ≡ (if some_at trx names a then some (row_id a block_id number) else lookup a ret)
  unfolding public_key_rows
  lookup-public_key_rows trx n block_id number a [] ret keys has is returns = ground arith
  lookup-public_key_rows trx n block_id number a (name ∷ names) ret keys has is returns =
      elim (Option-cases (lib.find trx name)) [
        | inl e ↦
            let rest = lookup-public_key_rows trx n block_id number a names ret keys has is in
            ground (arith, rest)
        | inr (v, e) ↦ elim (Option-cases (lib.text v)) [
          | inl f ↦ absurd (ground (arith, lib.get_string_lem v))
          | inr (address, f) ↦
              let row = row_id address block_id number in
              let ret' = put_sorted address row ret in
              let rest = lookup-public_key_rows trx n block_id number a names ret' keys has is in
              ground (
                arith,
                rest,
                lookup-put_sorted a address row ret,
                eq_iff address a,
                string_found v address f,
                string_found n number is,
                at_found trx "transaction-id" n has,
              )
        ]
      ]

  -- If find_public_keys returns for a transaction whose number is a text, each address that sends
  -- or signs it has one row, under the id of the address, the block and the number, and no other
  -- address has one.
  pub lookup-find_public_keys :
      (trx number_of : J) (block_id number a : String) (keys : List (String × String))
      → lib.find trx "transaction-id" ≡ some number_of
      → lib.text number_of ≡ some number
      → find_public_keys trx block_id ≡ ok keys
      → lookup a keys ≡ (
          if is_at trx "from" a || is_at trx "public-key" a
          then some (row_id a block_id number)
          else none)
  unfolding find_public_keys
  lookup-find_public_keys trx n block_id number a keys has is returns = ground (
    arith,
    lookup-public_key_rows trx n block_id number a ("from" ∷ "public-key" ∷ []) [] keys has is
        returns,
  )

  -- A transaction whose sender is a text and whose number is no text makes find_public_keys throw
  -- a type error.
  pub find_public_keys_number :
      (trx from number : J) (block_id address : String)
      → lib.find trx "from" ≡ some from
      → lib.text from ≡ some address
      → lib.find trx "transaction-id" ≡ some number
      → lib.text number ≡ none
      → find_public_keys trx block_id ≡ throw (json_error type_error (lib.what_get number))
  unfolding find_public_keys public_key_rows
  find_public_keys_number trx from number block_id address has is has_number no_text = ground (
    arith,
    string_found from address is,
    at_found trx "transaction-id" number has_number,
    lib.get_string_lem number,
  )
