-- ===== src/Indexer/WalletsTop.antt =====
-- indexer/statistics/wallets_top_upd.cpp: the wallets with the greatest amounts of each asset, which
-- the server finds.
use mile_explorer.Common.{ℕ, String, List, [], ◌∷◌, if◌then◌else◌}
use mile_explorer.Common.Exec.{Exec, pure, ◌>>=◌, ◌>>◌}
use mile_explorer.Common.Text.{to_string}
use mile_explorer.Json.{JsonLib}
use mile_explorer.Driver.{Driver, Sdk}
use mile_explorer.Db.{Db}
use mile_explorer.Db.Name
use mile_explorer.Db.Cursor.{
  Cursor, filter, concat_map, group, order_by, limit_func, fold, ungroup, get_data,
}
use mile_explorer.Db.Getters.{table_cursor}
use mile_explorer.Db.Init.{has_table, create_table}
use mile_explorer.Db.Table.{open_table, has_index, create_index, insert_with_replace}

-- The expressions of the RethinkDB driver that the query is made of.
pub record Reql (Term : Type 0) : Type 0 where
  pub row : Term
  pub text : String → Term
  pub number : ℕ → Term
  -- `t["name"]`
  pub member : Term → String → Term
  pub has_fields : Term → List String → Term
  pub and : Term → Term → Term
  pub or : Term → Term → Term
  pub eq : Term → Term → Term
  pub add : Term → Term → Term
  pub type_of : Term → Term
  pub coerce_to : Term → String → Term
  pub desc : Term → Term
  pub object : List (String × Term) → Term
  pub array : List Term → Term
  -- functions of one, two and three variables
  pub func1 : (Term → Term) → Term
  pub func2 : (Term → Term → Term) → Term
  pub func3 : (Term → Term → Term → Term) → Term
  pub map : Term → Term → Term
  -- the function of a `fold` with the option "emit"
  pub emit : Term → Term → Term

abbrev pub top_table : String
top_table = "wallets_top"

abbrev pub each_type_amount : ℕ
each_type_amount = 1024

module _ {Term : Type 0} (reql : Reql Term) where
  unfoldable pub get_raw_object : Term
  get_raw_object = reql.func1 (λ ff.
      reql.map (reql.has_fields (reql.member ff "balance") ("code" ∷ "amount" ∷ [])) (
        reql.func1 (λ ss. reql.object (
          ("code", reql.member ss "code")
          ∷ ("amount", reql.member ss "amount")
          ∷ ("position", reql.number 1)
          ∷ ("id", reql.member ff "id")
          ∷ []))))

  unfoldable pub position_increaser : Term
  position_increaser = reql.func2 (λ acc row. reql.add acc (reql.number 1))

  unfoldable pub get_resulted_object : Term
  get_resulted_object = reql.func3 (λ acc row new_acc.
      let spelled = reql.add (reql.coerce_to acc "STRING") (reql.text ":") in
      reql.array (
        reql.object (
          ("public-key", reql.member row "id")
          ∷ ("amount", reql.member row "amount")
          ∷ ("asset-code", reql.coerce_to (reql.member row "code") "NUMBER")
          ∷ ("position", acc)
          ∷ ("id", reql.add spelled (reql.member row "code"))
          ∷ [])
        ∷ []))

  unfoldable pub has_balance : Term
  has_balance =
      reql.and (reql.has_fields reql.row ("balance" ∷ []))
        (reql.eq (reql.type_of (reql.member reql.row "balance")) (reql.text "ARRAY"))

  unfoldable pub has_code : Sdk → Term
  has_code sdk =
      let code = reql.member reql.row "code" in
      reql.or (reql.eq code (reql.text (to_string sdk.xdr_code)))
        (reql.eq code (reql.text (to_string sdk.mile_code)))

module _ {J W : Type 0} ⦃lib : JsonLib J⦄ (driver : Driver J W) (reql : Reql driver.Term) where
  unfoldable pub top_wallets : Sdk → Db → Cursor driver
  unfolding get_raw_object position_increaser get_resulted_object has_balance has_code
  top_wallets sdk db =
      let wallets = filter (table_cursor driver db Name.wallets_state) (has_balance reql) in
      let coded = filter (concat_map wallets (get_raw_object reql)) (has_code reql sdk) in
      let descending = reql.desc (reql.coerce_to (reql.member reql.row "amount") "NUMBER") in
      let greatest = limit_func (order_by (group coded "code") descending) each_type_amount in
      let numbered = reql.emit (position_increaser reql) (get_resulted_object reql) in
      concat_map (ungroup (fold greatest (reql.number 0) numbered))
        (reql.member reql.row "reduction")

  -- The table and its index are made if they are missing.
  unfoldable pub wallets_top_upd : Sdk → Db → ℕ → Exec W Unit
  unfolding top_wallets
  wallets_top_upd sdk db last = do
    found ← has_table driver db top_table
    (if found then pure tt else (do create_table driver db top_table; pure tt))
    let table = open_table db top_table
    indexed ← has_index driver table "position"
    (if indexed then pure tt else create_index driver table "position")
    items ← get_data (top_wallets sdk db)
    insert_with_replace driver table items
