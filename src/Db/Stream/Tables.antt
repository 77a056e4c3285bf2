-- ===== src/Db/Stream/Tables.antt =====
-- What the processing of transactions relies on of the server behind the RethinkDB driver: the table
-- of transactions by their ids, and the count in the row of the table of the state. The server's
-- numbers are doubles, which hold the whole numbers below 2^53; a read of the mode "outdated" may be
-- behind on another replica than the primary.
use mile_explorer.Common.{
  ℕ, ◌<◌, ◌^◌, String, ◌≡◌, true, false, not, Option, none, some, is_some, str_eq, if◌then◌else◌,
}
use mile_explorer.Common.Exec.{ok, throw, db_error}
use mile_explorer.Json.{JsonLib}
use mile_explorer.Driver.{Driver}
use mile_explorer.Db.{Db}
use mile_explorer.Db.Name
use mile_explorer.Db.Table.{open_table, rows_with_id}

module _ {J : Type 0} ⦃lib : JsonLib J⦄ where
  -- `get` gives null for an id that no row has.
  abbrev pub or_null : Option J → J
  or_null r = elim r [ none ↦ lib.null_value | some j ↦ j ]

  -- The serial number of a row is the number.
  abbrev pub HasSerial : J → ℕ → Type 0
  HasSerial row k =
      (member : J) × (lib.find row "serial" ≡ some member) × (lib.uint member ≡ some k)

  -- A row with the number as its count.
  pub record HasCount (row : J) (n : ℕ) : Type 0 where
    pub member : J
    pub has_member : lib.find row "count" ≡ some member
    pub is_number : lib.uint member ≡ some n

-- With one replica of each table, which is the primary, an outdated read is a read of the primary.
pub record IsSingleReplica {J W : Type 0} (driver : Driver J W) (db : Db) : Type 0 where
  pub same_get :
      (name id : String) (w : W)
      → driver.run db.host db.port (driver.get (driver.table db.name name true) id) w
        ≡ driver.run db.host db.port (driver.get (driver.table db.name name false) id) w
  pub same_field :
      (name id key : String) (w : W)
      → driver.run db.host db.port
          (driver.get_field (driver.get (driver.table db.name name true) id) key)
          w
        ≡ driver.run db.host db.port
            (driver.get_field (driver.get (driver.table db.name name false) id) key)
            w
  pub same_order :
      (name index : String) (w : W)
      → driver.run db.host db.port (driver.order_by_index (driver.table db.name name true) index) w
        ≡ driver.run db.host db.port
            (driver.order_by_index (driver.table db.name name false) index)
            w

pub record Tables {J W : Type 0} ⦃lib : JsonLib J⦄ (driver : Driver J W) (db : Db) : Type 0 where
  pub one_replica : IsSingleReplica driver db
  pub transaction : W → String → Option J
  pub count : W → Option ℕ
  -- the primary key of the table
  pub transaction_id :
      (w : W) (id : String) (row : J)
      → transaction w id ≡ some row
      → is_some (lib.find row "id") ≡ true
  pub run_get :
      (id : String) (w : W)
      → driver.run db.host db.port (driver.get (driver.table db.name Name.transactions false) id) w
        ≡ (ok (or_null (transaction w id)), w)
  pub run_insert :
      (row name : J) (id : String) (w : W)
      → lib.find row "id" ≡ some name
      → lib.text name ≡ some id
      → transaction w id ≡ none
      → (kept : J) × (answer : J) × (w' : W) × ((k : ℕ)
          → HasSerial row k
          → k < 2 ^ 53
          → HasSerial kept k)
        × (driver.run db.host db.port
              (driver.insert (driver.table db.name Name.transactions false) row)
              w
            ≡ (ok answer, w'))
        × ((other : String)
            → transaction w' other ≡ (if str_eq id other then some kept else transaction w other))
        × (count w' ≡ count w)
  -- the queue is another table
  pub run_take_off :
      (id : String) (w : W)
      → (w' : W) × ((driver.run db.host db.port
            (driver.delete (driver.get (driver.table db.name Name.transactions_processing true) id))
            w).1
          ≡ w')
        × ((other : String) → transaction w' other ≡ transaction w other)
        × (count w' ≡ count w)
  pub run_queue :
      (w : W)
      → (w' : W) × ((driver.run db.host db.port
            (driver.order_by_index
              (driver.table db.name Name.transactions_processing false)
              "block-id")
            w).1
          ≡ w')
        × ((other : String) → transaction w' other ≡ transaction w other)
        × (count w' ≡ count w)
  -- the row of the state
  pub run_count :
      (w : W) (n : ℕ)
      → count w ≡ some n
      → (member : J) × (driver.run db.host db.port
            (driver.get_field
              (driver.get (driver.table db.name Name.transactions_state false) "state")
              "count")
            w
          ≡ (ok member, w))
        × (lib.uint member ≡ some n)
  pub run_no_count :
      (w : W)
      → count w ≡ none
      → (message : String) × (driver.run db.host db.port
            (driver.get_field
              (driver.get (driver.table db.name Name.transactions_state false) "state")
              "count")
            w
          ≡ (throw (db_error message), w))
  pub run_is_empty :
      (w : W)
      → driver.run_flag db.host db.port
          (driver.is_empty (rows_with_id driver (open_table db Name.transactions_state) "state"))
          w
        ≡ (ok (not (is_some (count w))), w)
  pub run_insert_state :
      (row : J) (n : ℕ) (w : W)
      → HasCount row n
      → n < 2 ^ 53
      → count w ≡ none
      → (answer : J) × (w' : W) × (driver.run db.host db.port
            (driver.insert (driver.table db.name Name.transactions_state false) row)
            w
          ≡ (ok answer, w'))
        × ((other : String) → transaction w' other ≡ transaction w other)
        × (count w' ≡ some n)
  pub run_update_state :
      (row : J) (n k : ℕ) (w : W)
      → HasCount row n
      → n < 2 ^ 53
      → count w ≡ some k
      → (answer : J) × (w' : W) × (driver.run db.host db.port
            (driver.update
              (driver.get (driver.table db.name Name.transactions_state false) "state")
              row)
            w
          ≡ (ok answer, w'))
        × ((other : String) → transaction w' other ≡ transaction w other)
        × (count w' ≡ some n)
