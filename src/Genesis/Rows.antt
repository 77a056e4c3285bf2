-- ===== src/Genesis/Rows.antt =====
-- The transaction of a line of the genesis: common/src/genesis.cpp.
use mile_explorer.Common.{
  ℕ, String, ◌≡◌, subst, ◌⊎◌, inl, inr, true, Bool-cases, some, arith, str_eq, eq_iff,
}
use mile_explorer.Common.Exec.{ok, Result-cases}
use mile_explorer.Common.Float.{FloatLib}
use mile_explorer.Common.Text.{to_string}
use mile_explorer.Json.{JsonLib, is_object}
use mile_explorer.Json.Laws.{object_put, object_first, find_object}
use mile_explorer.Driver.{Sdk}
use mile_explorer.Genesis.{
  GenesisLib, Line, transfer, register_node, signed_row, register_row, transfer_row, line_row,
  value_of,
}

module _ {J : Type 0} ⦃lib : JsonLib J⦄ where
  -- What both types of a transaction say of the line.
  pub record Says (trx_id : ℕ) (l : Line) (trx : J) : Type 0 where
    pub an_object : is_object trx ≡ true
    pub type : lib.find trx "transaction-type" ≡ some (lib.of_string l.transaction_type)
    pub number : lib.find trx "transaction-id" ≡ some (lib.of_string (to_string trx_id))
    pub public_key : lib.find trx "public-key" ≡ some (lib.of_string l.public_key)

  signed_row-Says :
      (trx_id : ℕ) (l : Line) (row : J)
      → is_object row ≡ true
      → Says trx_id l (signed_row trx_id l row)
  unfolding signed_row
  signed_row-Says trx_id l row h =
      let key = lib.of_string l.public_key in
      let a = lib.put row "public-key" key in
      let a_obj = object_put row "public-key" key h in
      let b = lib.put a "signature" (lib.of_string "") in
      let b_obj = object_put a "signature" (lib.of_string "") a_obj in
      let number = lib.of_string (to_string trx_id) in
      let c = lib.put b "transaction-id" number in
      let c_obj = object_put b "transaction-id" number b_obj in
      let type = lib.of_string l.transaction_type in
      record {
        an_object = object_put c "transaction-type" type c_obj;
        type = ground (arith, find_object c "transaction-type" type "transaction-type" c_obj);
        number = ground (
          arith,
          find_object c "transaction-type" type "transaction-id" c_obj,
          find_object b "transaction-id" number "transaction-id" b_obj,
        );
        public_key = ground (
          arith,
          find_object c "transaction-type" type "public-key" c_obj,
          find_object b "transaction-id" number "public-key" b_obj,
          find_object a "signature" (lib.of_string "") "public-key" a_obj,
          find_object row "public-key" key "public-key" h,
        );
      }

  register_row-Says :
      (trx_id : ℕ) (l : Line) (amount : String) → Says trx_id l (register_row trx_id l amount)
  unfolding register_row
  register_row-Says trx_id l amount =
      let address = lib.of_string l.address in
      let a_obj = object_first "address" address in
      let a = lib.put lib.null_value "address" address in
      let b_obj = object_put a "amount" (lib.of_string amount) a_obj in
      let b = lib.put a "amount" (lib.of_string amount) in
      signed_row-Says trx_id l (lib.put b "digest" (lib.of_string ""))
        (object_put b "digest" (lib.of_string "") b_obj)

  transfer_row-Says :
      (trx_id : ℕ) (l : Line) (amount fee : String)
      → Says trx_id l (transfer_row trx_id l amount fee)
  unfolding transfer_row
  transfer_row-Says trx_id l amount fee =
      let amounted = lib.put lib.null_value "amount" (lib.of_string amount) in
      let asset = lib.put amounted "code" (lib.of_string (to_string l.asset)) in
      let a = lib.put lib.null_value "asset" asset in
      let b = lib.put a "description" (lib.of_string "") in
      let b_obj = object_put a "description" (lib.of_string "") (object_first "asset" asset) in
      let c = lib.put b "digest" (lib.of_string l.public_key) in
      let c_obj = object_put b "digest" (lib.of_string l.public_key) b_obj in
      signed_row-Says trx_id l (lib.put c "fee" (lib.of_string fee))
        (object_put c "fee" (lib.of_string fee) c_obj)

module _ {J F : Type 0} ⦃lib : JsonLib J⦄ ⦃floats : FloatLib F⦄ (sdk : Sdk)
    (text : GenesisLib F) where
  -- A line of one of the two types has a transaction.
  pub typed_row :
      (n : ℕ) (l : Line) (trx : J)
      → (l.transaction_type ≡ transfer) ⊎ (l.transaction_type ≡ register_node)
      → line_row sdk text n l ≡ ok trx
      → Says n l trx
  unfolding line_row
  typed_row n l trx typed returns = elim (Bool-cases (str_eq l.transaction_type register_node)) [
    | inl e ↦ elim (Result-cases (value_of sdk text sdk.xdr_code l.amount)) [
      | inl (amount, f) ↦ subst (Says n l) (ground arith) (register_row-Says n l amount)
      | inr (x, f) ↦ absurd (ground arith)
    ]
    | inr e ↦ elim (Result-cases (value_of sdk text l.asset l.amount)) [
      | inl (amount, f) ↦ elim (Result-cases (text.value_to_string l.asset floats.zero)) [
        | inl (fee, g) ↦
            subst (Says n l)
              (ground (
                arith,
                eq_iff l.transaction_type transfer,
                eq_iff l.transaction_type register_node,
              ))
              (transfer_row-Says n l amount fee)
        | inr (x, g) ↦ absurd (
            ground
              (arith, eq_iff l.transaction_type transfer, eq_iff l.transaction_type register_node))
      ]
      | inr (x, f) ↦ absurd (
          ground
            (arith, eq_iff l.transaction_type transfer, eq_iff l.transaction_type register_node))
    ]
  ]

  pub untyped_row :
      (n : ℕ) (l : Line) (trx : J)
      → l.transaction_type ≡ ""
      → line_row sdk text n l ≡ ok trx
      → trx ≡ lib.null_value
  unfolding line_row
  untyped_row n l trx untyped returns = ground (
    arith,
    eq_iff l.transaction_type register_node,
    eq_iff l.transaction_type transfer,
    eq_iff "" register_node,
    eq_iff "" transfer,
  )
