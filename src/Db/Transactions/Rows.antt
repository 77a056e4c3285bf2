-- ===== src/Db/Transactions/Rows.antt =====
-- The rows that wait for a serial number can be read by the processing:
-- common/src/db/transactions/transactions.cpp.
use mile_explorer.Common.Text.{codes, substr}
use mile_explorer.Common.Lists.{length}
use Prim.Native.Nat.{min}
use mile_explorer.Common.{
  ℕ, ◌^◌, ◌<◌, String, ◌≡◌, refl, ◌∙◌, ◌⊎◌, inl, inr, true, false, none, some, arith, Option-cases,
  if◌then◌else◌, str_eq, is_some, Bool-cases, ◌&&◌,
}
use mile_explorer.Common.Exec.{ok, Result-cases}
use mile_explorer.Common.Text.{to_string}
use mile_explorer.Common.Text.Laws.{stoull-to_string}
use mile_explorer.Json.Laws.{object_put, object_first, find_object, find_first}
use mile_explorer.Json.{JsonLib, is_string, is_object, is_number}
use mile_explorer.Driver.{Sdk}
use mile_explorer.Db.Stream.Laws.{IsRow, marks}
use mile_explorer.Db.Transactions.{
  marker_row, text_number, short_description, replace_keys, stream_row,
}

module _ {J : Type 0} ⦃lib : JsonLib J⦄ where
  -- The row that stands for a block with no transactions, with a 64-bit id, can be read by the
  -- processing, as a marker for that block.
  pub marker_row-IsRow :
      (sdk : Sdk) (block_id t : ℕ)
      → block_id < 2 ^ 64
      → (row : J) × (marker_row sdk block_id t ≡ ok row)
        × (shape : IsRow row block_id (to_string block_id)) × (marks shape.type ≡ true)
  unfolding marker_row
  marker_row-IsRow sdk block_id t h =
      let id = lib.of_string (to_string block_id) in
      let a = lib.put lib.null_value "id" id in
      let a_obj = object_first "id" id in
      let b = lib.put a "block-id" (lib.of_uint block_id) in
      let b_obj = object_put a "block-id" (lib.of_uint block_id) a_obj in
      let type = lib.of_string "__processing__" in
      let c = lib.put b "transaction-type" type in
      let c_obj = object_put b "transaction-type" type b_obj in
      let row = lib.put c "timestamp" (lib.of_uint t) in
      let members : (k : String)
          → lib.find row k ≡ (
              if str_eq "timestamp" k
              then some (lib.of_uint t)
              else if str_eq "transaction-type" k
              then some type
              else if str_eq "block-id" k
              then some (lib.of_uint block_id)
              else if str_eq "id" k
              then some id
              else none) =
        λ k. ground (
          arith,
          find_object c "timestamp" (lib.of_uint t) k c_obj,
          find_object b "transaction-type" type k b_obj,
          find_object a "block-id" (lib.of_uint block_id) k a_obj,
          find_first "id" id k,
        ) in
      (
        row,
        ground (arith, sdk.uint256_to_dec_string_lem block_id, stoull-to_string block_id h),
        record {
          number = lib.of_uint block_id;
          name = id;
          type = type;
          has_number = ground (arith, members "block-id");
          number_is = lib.uint_number block_id h;
          has_name = ground (arith, members "id");
          name_is = lib.text_string (to_string block_id);
          has_type = ground (arith, members "transaction-type");
        },
        ground (arith, lib.text_string "__processing__"),
      )

  -- The two documents are objects, and agree on every member but one.
  abbrev SameBut : String → J → J → Type 0
  SameBut key trx trx' =
      (is_object trx' ≡ true)
      × ((k : String) → str_eq key k ≡ false → lib.find trx' k ≡ lib.find trx k)

  put-SameBut :
      (key : String) (trx v : J) → is_object trx ≡ true → SameBut key trx (lib.put trx key v)
  put-SameBut key trx v h =
      (object_put trx key v h, λ k ne. ground (arith, find_object trx key v k h))

  same_put :
      (key : String) (trx trx' v : J)
      → is_object trx ≡ true
      → trx' ≡ lib.put trx key v
      → SameBut key trx trx'
  same_put key trx trx' v h e =
      let (an_object, member) = put-SameBut key trx v h in
      (ground (arith, an_object), λ k ne. ground (arith, member k ne))

  text_number-SameBut :
      (trx trx' : J)
      → is_object trx ≡ true
      → text_number trx ≡ ok trx'
      → SameBut "transaction-id" trx trx'
  unfolding text_number
  text_number-SameBut trx trx' h returns =
      let same = same_put "transaction-id" trx trx' in
      elim (Result-cases (lib.index trx "transaction-id")) [
        | inr (x, e) ↦ absurd (ground arith)
        | inl (n, e) ↦ elim (Bool-cases (is_string n)) [
          | inl f ↦ elim (Result-cases (lib.get_string n)) [
            | inr (x, g) ↦ absurd (ground arith)
            | inl (t, g) ↦ same (lib.of_string t) h (ground arith)
          ]
          | inr f ↦ elim (Bool-cases (is_number n)) [
            | inl g ↦ same (lib.of_string (lib.print n)) h (ground arith)
            | inr g ↦ same n h (ground arith)
          ]
        ]
      ]

  short_description-SameBut :
      (sdk : Sdk) (trx trx' : J)
      → is_object trx ≡ true
      → short_description sdk trx ≡ ok trx'
      → SameBut "description" trx trx'
  unfolding short_description
  short_description-SameBut sdk trx trx' h returns =
      elim (Option-cases (lib.find trx "description")) [
        | inl e ↦ (ground arith, λ k ne. ground arith)
        | inr (d, e) ↦ elim (Result-cases (lib.get_string d)) [
          | inr (x, f) ↦ absurd (ground arith)
          | inl (desc, f) ↦
              let short =
                lib.of_string
                  (substr desc (min (length (codes desc)) sdk.description_max_length)) in
              same_put "description" trx trx' short h (ground arith)
        ]
      ]

  -- What `replace_keys` does to each member of an object.
  find-replace_keys :
      (from to : String) (trx : J)
      → is_object trx ≡ true
      → (is_object (replace_keys from to trx) ≡ true)
        × ((k : String)
            → str_eq from k ≡ false
            → lib.find (replace_keys from to trx) k ≡ (
                if is_some (lib.find trx from) && str_eq to k
                then lib.find trx from
                else lib.find trx k))
  unfolding replace_keys
  find-replace_keys from to trx h = elim (Option-cases (lib.find trx from)) [
    | inl e ↦ (ground arith, λ k ne. ground arith)
    | inr (v, e) ↦
        let written = lib.put trx to v in
        (
          ground (arith, object_put trx to v h, lib.kind_erase written from),
          λ k ne. ground (arith, lib.find_erase written from k, find_object trx to v k h),
        )
  ]

  -- For a 64-bit block id, a row that add_stream_transaction makes of a transaction with a type,
  -- under either of its two names, can be read by the processing, under the row's id and the
  -- block's and with that type.
  pub stream_row-IsRow :
      (sdk : Sdk) (uniq_id : String) (block_id t : ℕ) (trx row type : J)
      → is_object trx ≡ true
      → block_id < 2 ^ 64
      → (lib.find trx "transaction-name" ≡ some type)
        ⊎ ((lib.find trx "transaction-name" ≡ none) × (lib.find trx "transaction-type" ≡ some type))
      → stream_row sdk uniq_id block_id t trx ≡ ok row
      → (shape : IsRow row block_id uniq_id) × (shape.type ≡ type)
  unfolding stream_row
  stream_row-IsRow sdk uniq_id block_id t trx row type h bounded typed returns =
      let id = lib.of_string uniq_id in
      let a = lib.put trx "id" id in
      let a_obj = object_put trx "id" id h in
      let b = lib.put a "block-id" (lib.of_uint block_id) in
      let b_obj = object_put a "block-id" (lib.of_uint block_id) a_obj in
      let c = lib.put b "timestamp" (lib.of_uint t) in
      let c_obj = object_put b "timestamp" (lib.of_uint t) b_obj in
      let c_member : (k : String)
          → lib.find c k ≡ (
              if str_eq "timestamp" k
              then some (lib.of_uint t)
              else if str_eq "block-id" k
              then some (lib.of_uint block_id)
              else if str_eq "id" k
              then some id
              else lib.find trx k) =
        λ k. ground (
          arith,
          find_object b "timestamp" (lib.of_uint t) k b_obj,
          find_object a "block-id" (lib.of_uint block_id) k a_obj,
          find_object trx "id" id k h,
        ) in
      elim (Result-cases (text_number c)) [
        | inr (x, e) ↦ absurd (ground arith)
        | inl (d, e) ↦
            let (d_obj, d_member) = text_number-SameBut c d c_obj e in
            let f = replace_keys "transaction-name" "transaction-type" d in
            let (f_obj, f_member) =
              find-replace_keys "transaction-name" "transaction-type" d d_obj in
            let (row_obj, row_member) = short_description-SameBut sdk f row f_obj (ground arith) in
            let name_d = d_member "transaction-name" refl in
            let name_c = c_member "transaction-name" in
            (
              record {
                number = lib.of_uint block_id;
                name = id;
                type = type;
                has_number =
                    row_member "block-id" refl
                    ∙ f_member "block-id" refl
                    ∙ ground (arith, d_member "block-id" refl, c_member "block-id");
                number_is = lib.uint_number block_id bounded;
                has_name =
                    row_member "id" refl
                    ∙ f_member "id" refl
                    ∙ ground (arith, d_member "id" refl, c_member "id");
                name_is = lib.text_string uniq_id;
                has_type =
                    row_member "transaction-type" refl
                    ∙ f_member "transaction-type" refl
                    ∙ ground (arith, d_member "transaction-type" refl, c_member "transaction-type");
              },
              refl,
            )
      ]
