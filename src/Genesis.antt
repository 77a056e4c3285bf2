-- ===== src/Genesis.antt =====
-- common/src/genesis.cpp: the transactions of the genesis block, one line of text each.
pub mod Words
pub mod Rows
pub mod Laws
use mile_explorer.Common.{
  ℕ, ◌+◌, ◌%◌, ◌^◌, String, ◌&&◌, Bool, Option, none, some, List, [], ◌∷◌, if◌then◌else◌, str_eq,
  ◌==◌,
}
use mile_explorer.Common.Exec.{Result, ok, throw, and_then}
use mile_explorer.Common.Float.{FloatLib}
use mile_explorer.Common.Text.{to_string}
use mile_explorer.Json.{JsonLib}
use mile_explorer.Driver.{Sdk}

-- What the parser calls of Boost and of the MILE SDK: a text without the separators, in pieces that
-- are not empty, and `value_to_string` of the token with a code.
pub record GenesisLib (F : Type 0) : Type 0 where
  pub lines : String → List String
  pub words : String → List String
  pub to_lower_copy : String → String
  pub validate_public_key : String → Bool
  pub nill_code : ℕ
  pub value_to_string : ℕ → F → Result String

-- The variables of a line: the code of its asset, and `i`, the number of the word.
pub record Line : Type 0 where
  pub transaction_type : String
  pub asset : ℕ
  pub public_key : String
  pub amount : String
  pub address : String
  pub i : ℕ

abbrev pub transfer : String
transfer = "TransferAssetsTransaction"

abbrev pub register_node : String
register_node = "RegisterNodeTransactionWithAmount"

module _ {F : Type 0} ⦃floats : FloatLib F⦄ (sdk : Sdk) (text : GenesisLib F) where
  -- The first `if` of the loop, with the word in lower case and as it is.
  unfoldable pub read_keyword : String → String → Line → Line
  read_keyword word t l =
      if str_eq word "transfer"
      then record l { transaction_type = transfer }
      else if str_eq word "amount-register-node"
      then record l { transaction_type = register_node }
      else if str_eq word "xdr"
      then record l { asset = sdk.xdr_code }
      else if str_eq word "mile"
      then record l { asset = sdk.mile_code }
      else if text.validate_public_key t
      then record l { public_key = t }
      else l

  unfoldable pub read_address : String → Line → Line
  read_address t l =
      if str_eq l.transaction_type register_node && l.i == 2 then record l { address = t } else l

  unfoldable pub value_of : ℕ → String → Result String
  value_of asset t = and_then (floats.stof t) (λ x. text.value_to_string asset x)

  unfoldable pub read_amount : String → Line → Result Line
  unfolding value_of
  read_amount t l =
      if l.i == 3
      then and_then (value_of l.asset t) (λ value. ok (record l { amount = value }))
      else ok l

  unfoldable pub read_word : String → Line → Result Line
  unfolding read_keyword read_address read_amount
  read_word t l =
      and_then (read_amount t (read_address t (read_keyword (text.to_lower_copy t) t l)))
        (λ read. ok (record read { i = read.i + 1 }))

  unfoldable pub read_words : List String → Line → Result Line
  unfolding read_word
  read_words [] l = ok l
  read_words (t ∷ ts) l = and_then (read_word t l) (read_words ts)

  -- The variables before the first word.
  abbrev pub no_words : Line
  no_words = record {
    transaction_type = "";
    asset = text.nill_code;
    public_key = "";
    amount = "";
    address = "";
    i = 0;
  }

module _ {J : Type 0} ⦃lib : JsonLib J⦄ where
  -- The members that both types of a transaction end with.
  signed_row : ℕ → Line → J → J
  signed_row trx_id l row =
      let keyed = lib.put row "public-key" (lib.of_string l.public_key) in
      let signed = lib.put keyed "signature" (lib.of_string "") in
      let numbered = lib.put signed "transaction-id" (lib.of_string (to_string trx_id)) in
      lib.put numbered "transaction-type" (lib.of_string l.transaction_type)

  register_row : ℕ → Line → String → J
  unfolding signed_row
  register_row trx_id l amount =
      let address = lib.put lib.null_value "address" (lib.of_string l.address) in
      let valued = lib.put address "amount" (lib.of_string amount) in
      signed_row trx_id l (lib.put valued "digest" (lib.of_string ""))

  transfer_row : ℕ → Line → String → String → J
  unfolding signed_row
  transfer_row trx_id l amount fee =
      let asset =
        lib.put (lib.put lib.null_value "amount" (lib.of_string amount)) "code"
          (lib.of_string (to_string l.asset)) in
      let described =
        lib.put (lib.put lib.null_value "asset" asset) "description" (lib.of_string "") in
      let digest = lib.put described "digest" (lib.of_string l.public_key) in
      signed_row trx_id l (lib.put digest "fee" (lib.of_string fee))

module _ {J F : Type 0} ⦃lib : JsonLib J⦄ ⦃floats : FloatLib F⦄ (sdk : Sdk)
    (text : GenesisLib F) where
  -- The transaction of a line that has been read, which is null for a line of no type.
  unfoldable pub line_row : ℕ → Line → Result J
  unfolding value_of register_row transfer_row
  line_row trx_id l =
      if str_eq l.transaction_type register_node
      then and_then (value_of sdk text sdk.xdr_code l.amount)
          (λ amount. ok (register_row trx_id l amount))
      else if str_eq l.transaction_type transfer
      then and_then (value_of sdk text l.asset l.amount) (λ amount.
        and_then (text.value_to_string l.asset floats.zero)
          (λ fee. ok (transfer_row trx_id l amount fee)))
      else ok lib.null_value

  unfoldable pub read_lines : ℕ → List String → J → Result J
  unfolding line_row read_words
  read_lines trx_id [] transactions = ok transactions
  read_lines trx_id (token ∷ tokens) transactions =
      and_then (read_words sdk text (text.words token) (no_words sdk text)) (λ l.
        and_then (line_row trx_id l)
          (λ trx. read_lines ((trx_id + 1) % 2 ^ 64) tokens (lib.push_back transactions trx)))

  -- The transactions of the genesis, which start as null, or nothing after an exception.
  unfoldable pub parser : String → Option J
  unfolding read_lines
  parser buffer = elim (read_lines 0 (text.lines buffer) lib.null_value) [
    | ok transactions ↦ some transactions
    | throw e ↦ none
  ]
