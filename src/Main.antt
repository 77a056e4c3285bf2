-- ===== src/Main.antt =====
-- The configuration of the two programs (common/include/config.hpp, common/src/config.cpp) and their
-- command lines (`parse_cmdline` of indexer/main.cpp and backend/main.cpp).
pub mod Laws
pub mod Indexer
pub mod Backend
use mile_explorer.Common.{
  ℕ, String, Bool, true, false, not, List, [], ◌∷◌, ◌++◌, if◌then◌else◌, str_eq,
}
use mile_explorer.Common.Int.{ℤ, pos, negsuc}
use mile_explorer.Common.Exec.{Exec, Result, pure, lift, modify, catch, ◌>>=◌, ◌>>◌}

-- The static members of `config`, and the settings of the logger and of the SDK's client.
pub record Config : Type 0 where
  pub db_host : String
  pub db_port : ℕ
  pub db_name : String
  pub node_urls : List String
  pub rpc_queue_size : ℤ
  pub block_processin_queue_size : ℤ
  pub update_timeout : ℤ
  pub request_timeout : ℤ
  pub rpc_connection_timeout : ℤ
  pub procesing_refresh_time : ℤ
  pub http_bind_address : String
  pub http_port : ℕ
  pub rpc_pool_size : ℤ
  pub genesis_url : String
  pub debug_on : Bool
  pub client_timeout : ℤ
  pub log_level : ℤ

-- The YAML parser (vendor/yaml-cpp): a file, the elements under a key, of which a missing key has none,
-- an element as a text, and the values of a key, which a missing key does not have.
pub record Yaml (Y : Type 0) : Type 0 where
  pub load_file : String → Result Y
  pub elements : Y → String → List Y
  pub element : Y → Result String
  pub text : Y → String → Result String
  pub number : Y → String → Result ℤ
  pub port : Y → String → Result ℕ
  pub flag : Y → String → Result Bool

-- What Boost makes of the command line.
pub record Options : Type 0 where
  pub help : Bool
  pub config_file : String

-- How `parse_cmdline` ends: by `exit`, or by a return.
pub data Outcome : Type 0 where
  exits : ℤ → Outcome
  returns : Bool → Outcome

-- A value of the file that is written to its member.
abbrev pub setting : {A : Type 0} → Result A → (A → Config → Config) → Exec Config Unit
setting value write = do v ← lift value; modify (write v)

module _ {Y : Type 0} (yaml : Yaml Y) where
  -- What both programs read of the database.
  unfoldable pub read_db : Y → Exec Config Unit
  read_db file = do
    setting (yaml.text file "db_host") (λ v c. record c { db_host = v })
    setting (yaml.port file "db_port") (λ v c. record c { db_port = v })
    setting (yaml.text file "db_name") (λ v c. record c { db_name = v })

  -- Both programs' `parse_cmdline`, with what they read from the file; `access` tells of a file that
  -- can be read. Whatever is thrown is logged.
  unfoldable pub parse_cmdline :
      (Y → Exec Config Unit) → (String → Bool) → Result Options → Exec Config Outcome
  parse_cmdline read access args =
      catch
        (do
          options ← lift args
          if options.help
              then pure (exits (pos 0))
              else if str_eq options.config_file ""
              then pure (exits (negsuc 0))
              else if not (access options.config_file)
              then pure (exits (negsuc 0))
              else (do
                nodes ← lift (yaml.load_file options.config_file)
                read nodes
                pure (returns true)))
        (λ e. pure (returns false))

-- A program: its configuration, and the world.
pub record Process (W : Type 0) : Type 0 where
  pub config : Config
  pub world : W

module _ {W A : Type 0} where
  abbrev pub on_config : Exec Config A → Exec (Process W) A
  on_config m s = let (r, c) = m s.config in (r, record s { config = c })

  abbrev pub on_world : Exec W A → Exec (Process W) A
  on_world m s = let (r, w) = m s.world in (r, record s { world = w })
