-- ===== src/Tests/ApiExamples.antt =====
-- The theorems on the API at concrete calls, and tests.
use mile_explorer.Common.{ℕ, String, ◌≡◌, refl, inl, ◌↔◌, true, none, List}
use mile_explorer.Common.Exec.{ok}
use mile_explorer.Json.Value.{Value, Fields, nil, str, obj, field, end}
use mile_explorer.Common.Text.{to_string}
use mile_explorer.Db.Cursor.{get_data, get}
use mile_explorer.Db.Table.{cursor}
use mile_explorer.Db.Getters
use mile_explorer.Rpc.Container.{Container, list_container}
use mile_explorer.Rpc.Router.{Call, Method}
use mile_explorer.Rpc.Router.Laws.{method_of}
use mile_explorer.Api.Params.{check_limit}
use mile_explorer.Api.Params.Laws.{IsPage, check_limit-true}
use mile_explorer.Api.Methods
use mile_explorer.Api.Pages.{AsksForPage, page_methods, get_block_greatest}
use mile_explorer.Api.Transaction.{get_transaction}
use mile_explorer.Api.Transaction.Laws.{get_transaction_row}
use mile_explorer.Api.Registration.{
  Registration, registered, api_methods, main_router, method_of-main_router,
}
use mile_explorer.Tests.Fixtures.{n, lib, answering, sdk, db}

abbrev row : Value
row = obj (field "id" (str "k:5:1") end)

abbrev called_with : Fields → Call Value ℕ
called_with params = record {
  ctx = record {
    request = record { id = n 7; method = "m"; params = obj params };
    response = record { id = n 7; result = nil; error = none };
  };
  world = 0;
}

abbrev page : Call Value ℕ
page = called_with (field "first" (n 3) (field "limit" (n 1000) end))

check_limit-true_example :
    (check_limit sdk page ≡ (ok true, page)) ↔ ((limit : ℕ) × IsPage sdk page limit)
check_limit-true_example = check_limit-true sdk page

page_methods_example :
    AsksForPage
      (Getters.get_block_history (answering row) db)
      0
      (Methods.get_block_history (answering row) sdk db page).1.world
    × AsksForPage
        (Getters.get_nodes (answering row) db)
        0
        (Methods.get_nodes (answering row) sdk db page).1.world
    × AsksForPage
        (Getters.get_transaction_history (answering row) db)
        0
        (Methods.get_transaction_history (answering row) sdk db page).1.world
page_methods_example = page_methods (answering row) sdk db page

abbrev greatest : Call Value ℕ
greatest = called_with (field "id" (str "greatest") end)

get_block_greatest_example : Methods.get_block (answering row) sdk db greatest ≡ (ok tt, greatest)
get_block_greatest_example =
    get_block_greatest (answering row) sdk db greatest (str "greatest") "greatest" refl refl refl

abbrev by_number : Call Value ℕ
by_number =
    called_with (field "id" (n 1) (field "public-key" (str "k") (field "block-id" (n 5) end)))

get_transaction_row_example : get_transaction (answering row) sdk db by_number ≡ (
  ok tt,
  record {
    ctx = record by_number.ctx { response = record { id = n 7; result = row; error = none } };
    world = 1;
  },
)
unfolding to_string Getters.get_transaction_by_id get_data get cursor
get_transaction_row_example =
    get_transaction_row (answering row) sdk db by_number (str "k") (n 1) (n 5) row "k" "1" "5" 1
      refl refl refl refl (inl (5, refl, refl)) refl (inl (1, refl, refl)) refl

abbrev MethodsOf : Type 0
MethodsOf = List (String × Method Value ℕ)

instance abbrev methods : Container MethodsOf (Method Value ℕ)
methods = list_container

abbrev entries : List (Registration Value ℕ)
entries = api_methods (answering row) sdk nil (obj end)

abbrev add_help : Value → String → String → Value
add_help params name help = params

method_of-main_router_example :
    ((main_router {M = MethodsOf} add_help db nil entries).path ≡ "/v1/api")
    × (method_of (main_router {M = MethodsOf} add_help db nil entries) "ping"
        ≡ registered "ping" entries)
method_of-main_router_example = method_of-main_router MethodsOf add_help db nil entries "ping"
