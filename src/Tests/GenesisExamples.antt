-- ===== src/Tests/GenesisExamples.antt =====
-- The theorems on the genesis at a text of two lines, the second of no type.
use mile_explorer.Common.{
  ℕ, ◌+◌, String, ◌≡◌, refl, true, some, none, [], ◌∷◌, str_eq, if◌then◌else◌,
}
use mile_explorer.Common.Exec.{ok}
use mile_explorer.Common.Text.{to_string}
use mile_explorer.Json.Value.{Value, nil, str, obj, arr, item, done, field, end}
use mile_explorer.Db.Jobs.{Queued}
use mile_explorer.Genesis.{GenesisLib, parser}
use mile_explorer.Genesis.Laws.{AreRows, parser-AreRows}
use mile_explorer.Fetcher.Genesis.{HttpClient, again, fetch_genesis}
use mile_explorer.Fetcher.Genesis.Laws.{fetch_genesis-untyped}
use mile_explorer.Tests.Fixtures.{lib, floats, sdk, answering, db}

abbrev text : GenesisLib ℕ
text = record {
  lines = λ s. if str_eq s "" then [] else s ∷ "memo" ∷ [];
  words = λ s. if str_eq s "memo" then "memo" ∷ [] else "Transfer" ∷ "XDR" ∷ "key" ∷ "5" ∷ [];
  to_lower_copy =
      λ s. if str_eq s "Transfer" then "transfer" else if str_eq s "XDR" then "xdr" else s;
  validate_public_key = λ s. str_eq s "key";
  nill_code = 2;
  value_to_string = λ code x. ok (to_string x);
}

abbrev body : String
body = "Transfer XDR key 5"

abbrev transactions : Value
transactions =
    let asset = obj (field "code" (str "0") (field "amount" (str "5") end)) in
    let described = field "description" (str "") (field "asset" asset end) in
    let paid = field "fee" (str "0") (field "digest" (str "key") described) in
    let signed = field "signature" (str "") (field "public-key" (str "key") paid) in
    let numbered = field "transaction-id" (str "0") signed in
    arr (
      item (obj (field "transaction-type" (str "TransferAssetsTransaction") numbered))
        (item nil done))

parsed : parser {J = Value} sdk text body ≡ some transactions
unfolding parser to_string
parsed = refl

parser-AreRows_example : AreRows text 0 (text.lines body) (lib.items transactions)
parser-AreRows_example = parser-AreRows sdk text body transactions parsed

-- The server that always sends the text.
abbrev http : HttpClient ℕ
http = record { connect = λ w. (ok true, w + 1); get = λ w. (ok (some body), w + 1) }

abbrev idle : Queued Value ℕ
idle = record { world = 0; jobs = [] }

fetch_genesis-untyped_example :
    (fetch_genesis (answering nil) sdk text (λ j. []) http 3 db idle).0 ≡ ok again
fetch_genesis-untyped_example =
    fetch_genesis-untyped (answering nil) sdk text (λ j. []) http db body "memo" (body ∷ []) []
      transactions parsed (λ w. refl) refl refl 3 idle

-- An amount that is no number leaves no genesis.
no_amount : parser {J = Value} sdk (record text { words = λ s. "transfer" ∷ [] }) body ≡ none
unfolding parser
no_amount = refl
