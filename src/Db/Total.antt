-- ===== src/Db/Total.antt =====
-- The operations of cursors and tables let no error of the database out: cursor.cpp and table.cpp.
use mile_explorer.Common.{
  ℕ, ◌%◌, ◌<◌, ◌^◌, String, ◌≡◌, ◌⊎◌, inl, inr, Bool, none, some, arith, Option-cases, Bool-cases,
}
use mile_explorer.Common.Exec.{Exec, ok, throw, db_error, Result-cases, ◌>>=◌}
use mile_explorer.Common.Float.{as_double}
use mile_explorer.Json.Laws.{at_found}
use mile_explorer.Json.{JsonLib, is_null}
use mile_explorer.Driver.{Driver}
use mile_explorer.Db.{Db, catch_db_error}
use mile_explorer.Db.Cursor.{Cursor, get_data, get_number, remove_id}
use mile_explorer.Db.Table.{Table, term_of, cursor, rows_with_id, insert, update}

-- The outcome is a value.
abbrev pub Returns : {A W : Type 0} → Exec W A → W → Type 0
Returns {A = A} m w = (a : A) × ((m w).0 ≡ ok a)

-- The outcome is a value, or an error of the database.
abbrev pub Fails : {A W : Type 0} → Exec W A → W → Type 0
Fails {A = A} m w =
    ((a : A) × ((m w).0 ≡ ok a)) ⊎ ((message : String) × ((m w).0 ≡ throw (db_error message)))

module _ {A W : Type 0} (m rest : Exec W A) (w : W) where
  -- What follows the handler returns, so the whole does.
  pub catch_total : Fails m w → Returns rest (m w).1 → Returns (catch_db_error m rest) w
  catch_total (inl (a, h)) (b, k) = (a, ground arith)
  catch_total (inr (message, h)) (b, k) = (b, ground arith)

module _ {A B W : Type 0} (m : Exec W A) (f : A → Exec W B) (w : W) where
  pub Returns-then : Returns m w → ((a : A) (w' : W) → Returns (f a) w') → Returns (m >>= f) w
  Returns-then (a, h) next = let (b, k) = next a (m w).1 in (b, ground arith)

  pub Fails-then : Fails m w → ((a : A) (w' : W) → Fails (f a) w') → Fails (m >>= f) w
  Fails-then (inl (a, h)) next = elim (next a (m w).1) [
    | inl (b, k) ↦ inl (b, ground arith)
    | inr (message, k) ↦ inr (message, ground arith)
  ]
  Fails-then (inr (message, h)) next = inr (message, ground arith)

module _ {J W : Type 0} (driver : Driver J W) where
  pub run-cases :
      (host : String) (port : ℕ) (t : driver.Term) (w : W)
      → ((j : J) × ((driver.run host port t w).0 ≡ ok j))
        ⊎ ((message : String) × ((driver.run host port t w).0 ≡ throw (db_error message)))
  run-cases host port t w = elim (Result-cases (driver.run host port t w).0) [
    | inl a ↦ inl a
    | inr (e, h) ↦
        let (message, h') = driver.run_throws host port t w e h in
        inr (message, ground (arith, h, h'))
  ]

  flag-cases :
      (host : String) (port : ℕ) (t : driver.Term) (w : W)
      → ((b : Bool) × ((driver.run_flag host port t w).0 ≡ ok b))
        ⊎ ((message : String) × ((driver.run_flag host port t w).0 ≡ throw (db_error message)))
  flag-cases host port t w = elim (Result-cases (driver.run_flag host port t w).0) [
    | inl a ↦ inl a
    | inr (e, h) ↦
        let (message, h') = driver.run_flag_throws host port t w e h in
        inr (message, ground (arith, h, h'))
  ]

  pub insert_total : (t : Table) (row : J) (w : W) → (insert driver t row w).0 ≡ ok tt
  unfolding insert
  insert_total t row w =
      elim (run-cases t.db.host t.db.port (driver.insert (term_of driver t) row) w) [
        | inl (j, h) ↦ ground arith
        | inr (message, h) ↦ ground arith
      ]

  pub remove_id_total :
      (c : Cursor driver) (db : Db) (id : String) (w : W)
      → c.db ≡ some db
      → Returns (remove_id c id) w
  unfolding remove_id
  remove_id_total c db id w e =
      elim (run-cases db.host db.port (driver.delete (driver.get c.term id)) w) [
        | inl (j, h) ↦ (record c { term = driver.get c.term id }, ground arith)
        | inr (message, h) ↦ (record { db = none; term = driver.nil }, ground arith)
      ]

module _ {J W : Type 0} (driver : Driver J W) where
  pub cursor_db : (t : Table) (outdated : Bool) → (cursor driver t outdated).db ≡ some t.db
  unfolding cursor
  cursor_db t outdated = ground arith

module _ {J W : Type 0} ⦃lib : JsonLib J⦄ (driver : Driver J W) where
  pub get_data_total : (c : Cursor driver) (w : W) → Returns (get_data c) w
  unfolding get_data
  get_data_total c w = elim (Option-cases c.db) [
    | inl e ↦ (lib.empty_array, ground arith)
    | inr (db, e) ↦ elim (run-cases driver db.host db.port c.term w) [
      | inl (j, h) ↦ elim (Bool-cases (is_null j)) [
        | inl n ↦ (lib.empty_array, ground arith)
        | inr n ↦ (j, ground arith)
      ]
      | inr (message, h) ↦ (lib.empty_array, ground arith)
    ]
  ]

  -- The number is a 64-bit one.
  pub get_number_total :
      (c : Cursor driver) (w : W) → (n : ℕ) × ((get_number c w).0 ≡ ok n) × (n < 2 ^ 64)
  unfolding get_number
  get_number_total c w = elim (Option-cases c.db) [
    | inl e ↦ (0, ground arith, ground arith)
    | inr (db, e) ↦ elim (run-cases driver db.host db.port c.term w) [
      | inl (j, h) ↦ elim (Option-cases (lib.uint j)) [
        | inl n ↦ (0, ground arith, ground arith)
        | inr (n, f) ↦ (as_double n % 2 ^ 64, ground arith, omega arith)
      ]
      | inr (message, h) ↦ (0, ground arith, ground arith)
    ]
  ]

  -- An update with a row that has a text for an id returns, whatever errors the database reports.
  pub update_total :
      (t : Table) (row key : J) (id : String) (w : W)
      → lib.find row "id" ≡ some key
      → lib.text key ≡ some id
      → (update driver t row w).0 ≡ ok tt
  unfolding update
  update_total t row key id w found text =
      let is_empty = driver.is_empty (rows_with_id driver t id) in
      let w' = (driver.run_flag t.db.host t.db.port is_empty w).1 in
      let added = driver.insert (term_of driver t) row in
      let merged = driver.update (driver.get (term_of driver t) id) (lib.erase row id) in
      let reads_key : lib.at row "id" ≡ ok key = at_found row "id" key found in
      let reads_id : lib.get_string key ≡ ok id = ground (arith, lib.get_string_lem key) in
      elim (flag-cases driver t.db.host t.db.port is_empty w) [
        | inl (b, h) ↦ elim (run-cases driver t.db.host t.db.port added w') [
          | inl (j, h_added) ↦ elim (run-cases driver t.db.host t.db.port merged w') [
            | inl (k, h_merged) ↦ ground (arith, reads_key, reads_id)
            | inr (k, h_merged) ↦ ground (arith, reads_key, reads_id)
          ]
          | inr (j, h_added) ↦ elim (run-cases driver t.db.host t.db.port merged w') [
            | inl (k, h_merged) ↦ ground (arith, reads_key, reads_id)
            | inr (k, h_merged) ↦ ground (arith, reads_key, reads_id)
          ]
        ]
        | inr (message, h) ↦ ground (arith, reads_key, reads_id)
      ]
