-- ===== src/Main/Laws.antt =====
-- When `parse_cmdline` returns true: indexer/main.cpp and backend/main.cpp.
use mile_explorer.Common.{String, ◌≡◌, inl, inr, Bool, true, false, arith}
use mile_explorer.Common.Exec.{Exec, Result, Result-cases, ok}
use mile_explorer.Main.{Config, Yaml, Options, returns, parse_cmdline}

module _ {Y : Type 0} (yaml : Yaml Y) (read : Y → Exec Config Unit) (access : String → Bool) where
  -- The command line names a file that is there, loads and is read to its end.
  pub record IsRun (args : Result Options) (c : Config) (file : Y) : Type 0 where
    pub options : Options
    pub parsed : args ≡ ok options
    pub no_help : options.help ≡ false
    pub accessible : access options.config_file ≡ true
    pub loaded : yaml.load_file options.config_file ≡ ok file
    pub read_all : (read file c).0 ≡ ok tt

  pub parse_cmdline-true :
      (args : Result Options) (c : Config)
      → (parse_cmdline yaml read access args c).0 ≡ ok (returns true)
      → (file : Y) × IsRun args c file
        × ((parse_cmdline yaml read access args c).1 ≡ (read file c).1)
  unfolding parse_cmdline
  parse_cmdline-true args c h = elim (Result-cases args) [
    | inr (x, e) ↦ absurd (ground arith)
    | inl (o, e) ↦ elim (Result-cases (yaml.load_file o.config_file)) [
      | inr (x, f) ↦ absurd (ground arith)
      | inl (file, f) ↦ (
        file,
        record {
          options = o;
          parsed = e;
          no_help = ground arith;
          accessible = ground arith;
          loaded = f;
          read_all = ground arith;
        },
        ground arith,
      )
    ]
  ]
