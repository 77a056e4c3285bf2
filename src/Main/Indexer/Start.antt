-- ===== src/Main/Indexer/Start.antt =====
-- What the indexer fetches, and into which database: indexer/main.cpp.
use mile_explorer.Common.{
  ℕ, String, ◌≡◌, subst, sym, ◌∙◌, inl, inr, Bool, true, false, none, some, arith,
}
use mile_explorer.Common.Exec.{Result, Result-cases, ok}
use mile_explorer.Json.{JsonLib}
use mile_explorer.Driver.{Driver}
use mile_explorer.Db.{Db}
use mile_explorer.Db.Init.{Handle, open_db, init}
use mile_explorer.Db.Getters.{get_last_block_id}
use mile_explorer.Db.Init.Laws.{init_total}
use mile_explorer.Db.Init.Keeps.{init-IsSame, open_db-named}
use mile_explorer.Fetcher.{Fetching, at_start}
use mile_explorer.Fetcher.Nodes.{Client, connect}
use mile_explorer.Main.{Config, Yaml, Options, exits, returns, parse_cmdline, Process}
use mile_explorer.Main.Laws.{IsRun, parse_cmdline-true}
use mile_explorer.Main.Indexer.{fetches, read_config, start, main}
use mile_explorer.Main.Indexer.Laws.{IsRead, read_config-IsRead}

module _ {Y J W : Type 0} ⦃lib : JsonLib J⦄ (yaml : Yaml Y) (driver : Driver J W)
    (client : Client J W) (version : ℕ) (access : String → Bool) where
  start_db :
      (c : Config) (w : W) (db : Db) (f : Fetching)
      → (start yaml driver client version access c w).0 ≡ ok (fetches db f)
      → (db.name ≡ c.db_name)
        × (db.host ≡ c.db_host)
        × (db.port ≡ c.db_port)
        × ((last : ℕ) × (f ≡ at_start last))
  unfolding start
  start_db c w db f h =
      let opened = open_db driver c.db_name c.db_host c.db_port w in
      elim (Result-cases opened.0) [
        | inr (x, e) ↦ absurd (ground arith)
        | inl (none, e) ↦ absurd (ground arith)
        | inl (some handle, e) ↦
            let named = open_db-named driver c.db_name c.db_host c.db_port w handle e in
            let s : Handle W = record { world = opened.1; db = handle } in
            let kept = init-IsSame driver version s in
            let inited = init driver version s in
            let connected = connect client c.node_urls inited.1.world in
            elim (Result-cases connected.0) [
              | inr (x, g) ↦ absurd (ground (arith, init_total driver version s))
              | inl (b, g) ↦
                  elim (Result-cases (get_last_block_id driver inited.1.db connected.1).0) [
                    | inr (x, k) ↦ absurd (ground (arith, init_total driver version s))
                    | inl (last, k) ↦
                        let right = init_total driver version s in
                        (ground arith, ground arith, ground arith, (last, ground arith))
                  ]
            ]
      ]

  -- If main of the indexer goes on to fetch, the command line names a file that is there and has
  -- been read to its end, each member that the indexer configures has the value of the file, the
  -- blocks go into the configured database, and fetching starts with nothing requested.
  pub main_fetches :
      (args : Result Options) (s : Process W) (db : Db) (f : Fetching)
      → (main yaml driver client version access args s).0 ≡ ok (fetches db f)
      → let config = (main yaml driver client version access args s).1.config in
        (file : Y) × IsRun yaml (read_config yaml) access args s.config file
        × IsRead yaml file config
        × (db.name ≡ config.db_name)
        × (db.host ≡ config.db_host)
        × (db.port ≡ config.db_port)
        × ((last : ℕ) × (f ≡ at_start last))
  unfolding main
  main_fetches args s db f h =
      let parsed = parse_cmdline yaml (read_config yaml) access args s.config in
      elim (Result-cases parsed.0) [
        | inr (x, e) ↦ absurd (ground arith)
        | inl (exits code, e) ↦ absurd (ground arith)
        | inl (returns false, e) ↦ absurd (ground arith)
        | inl (returns true, e) ↦
            let (file, run, same) =
              parse_cmdline-true yaml (read_config yaml) access args s.config e in
            let read = read_config-IsRead yaml file s.config run.read_all in
            let right = start_db parsed.1 s.world db f (ground arith) in
            let config_is : (main yaml driver client version access args s).1.config ≡ parsed.1 =
              ground arith in
            (
              file,
              run,
              subst (IsRead yaml file) (sym same ∙ sym config_is) read,
              ground arith,
              ground arith,
              ground arith,
              right.3,
            )
      ]
