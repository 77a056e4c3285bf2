-- ===== src/Main/Indexer/Laws.antt =====
-- What the indexer has read when it starts to fetch: indexer/main.cpp.
use mathlib.Core.List.{append_assoc, append-nil}
use mile_explorer.Common.{ℕ, String, ◌≡◌, subst, inl, inr, Bool, List, [], ◌∷◌, ◌++◌, arith}
use mile_explorer.Common.Int.{ℤ}
use mile_explorer.Common.Exec.{Result-cases, ok}
use mile_explorer.Main.{Config, Yaml, read_db}
use mile_explorer.Main.Indexer.{
  add_urls, read_nodes, read_timeouts, read_queues, read_debug, read_config,
}

module _ {Y : Type 0} (yaml : Yaml Y) where
  abbrev pub AreTexts : List Y → List String → Type 0
  AreTexts [] [] = Unit
  AreTexts [] (u ∷ us) = ⊥
  AreTexts (y ∷ ys) [] = ⊥
  AreTexts (y ∷ ys) (u ∷ us) = (yaml.element y ≡ ok u) × AreTexts ys us

  -- Each member that the indexer sets has the file's value.
  pub record IsRead (file : Y) (c : Config) : Type 0 where
    pub node_urls : AreTexts (yaml.elements file "node_urls") c.node_urls
    pub genesis_url : yaml.text file "genesis_url" ≡ ok c.genesis_url
    pub request_timeout : yaml.number file "request_timeout" ≡ ok c.request_timeout
    pub update_timeout : yaml.number file "update_timeout" ≡ ok c.update_timeout
    pub rpc_connection_timeout :
        yaml.number file "rpc_connection_timeout" ≡ ok c.rpc_connection_timeout
    pub rpc_queue_size : yaml.number file "rpc_queue_size" ≡ ok c.rpc_queue_size
    pub block_processin_queue_size :
        yaml.number file "block_processin_queue_size" ≡ ok c.block_processin_queue_size
    pub db_host : yaml.text file "db_host" ≡ ok c.db_host
    pub db_port : yaml.port file "db_port" ≡ ok c.db_port
    pub db_name : yaml.text file "db_name" ≡ ok c.db_name
    pub debug_on : yaml.flag file "json_rpc_debug" ≡ ok c.debug_on
    pub client_timeout : c.client_timeout ≡ c.rpc_connection_timeout
    pub log_level : yaml.number file "log_level" ≡ ok c.log_level

  add_urls-AreTexts :
      (ys : List Y) (c : Config)
      → (add_urls yaml ys c).0 ≡ ok tt
      → (us : List String) × (AreTexts ys us
          × ((add_urls yaml ys c).1 ≡ record c { node_urls = c.node_urls ++ us }))
  unfolding add_urls
  add_urls-AreTexts [] c returns = ([], (tt, ground (arith, append-nil c.node_urls)))
  add_urls-AreTexts (y ∷ ys) c returns = elim (Result-cases (yaml.element y)) [
    | inr (x, e) ↦ absurd (ground arith)
    | inl (u, e) ↦
        let added = record c { node_urls = c.node_urls ++ u ∷ [] } in
        let (us, (are, same)) = add_urls-AreTexts ys added (ground arith) in
        (u ∷ us, ((e, are), ground (arith, append_assoc c.node_urls (u ∷ []) us)))
  ]

  read_nodes-ok :
      (file : Y) (c : Config)
      → (read_nodes yaml file c).0 ≡ ok tt
      → (us : List String) × (url : String) × AreTexts (yaml.elements file "node_urls") us
        × (yaml.text file "genesis_url" ≡ ok url)
        × ((read_nodes yaml file c).1 ≡ record c { node_urls = us; genesis_url = url })
  unfolding read_nodes
  read_nodes-ok file c returns =
      let cleared = record c { node_urls = [] } in
      elim (Result-cases (add_urls yaml (yaml.elements file "node_urls") cleared).0) [
        | inr (x, e) ↦ absurd (ground arith)
        | inl (t, e) ↦ elim (Result-cases (yaml.text file "genesis_url")) [
          | inr (x, f) ↦ absurd (ground arith)
          | inl (url, f) ↦
              let (us, (are, same)) =
                add_urls-AreTexts (yaml.elements file "node_urls") cleared e in
              (us, url, are, f, ground arith)
        ]
      ]

  read_timeouts-ok :
      (file : Y) (c : Config)
      → (read_timeouts yaml file c).0 ≡ ok tt
      → (a b d : ℤ) × (yaml.number file "request_timeout" ≡ ok a)
        × (yaml.number file "update_timeout" ≡ ok b)
        × (yaml.number file "rpc_connection_timeout" ≡ ok d)
        × ((read_timeouts yaml file c).1
            ≡ record c { request_timeout = a; update_timeout = b; rpc_connection_timeout = d })
  unfolding read_timeouts
  read_timeouts-ok file c returns = elim (Result-cases (yaml.number file "request_timeout")) [
    | inr (x, e) ↦ absurd (ground arith)
    | inl (a, e) ↦ elim (Result-cases (yaml.number file "update_timeout")) [
      | inr (x, f) ↦ absurd (ground arith)
      | inl (b, f) ↦ elim (Result-cases (yaml.number file "rpc_connection_timeout")) [
        | inr (x, g) ↦ absurd (ground arith)
        | inl (d, g) ↦ (a, b, d, e, f, g, ground arith)
      ]
    ]
  ]

  read_queues-ok :
      (file : Y) (c : Config)
      → (read_queues yaml file c).0 ≡ ok tt
      → (a b : ℤ) × (yaml.number file "rpc_queue_size" ≡ ok a)
        × (yaml.number file "block_processin_queue_size" ≡ ok b)
        × ((read_queues yaml file c).1
            ≡ record c { rpc_queue_size = a; block_processin_queue_size = b })
  unfolding read_queues
  read_queues-ok file c returns = elim (Result-cases (yaml.number file "rpc_queue_size")) [
    | inr (x, e) ↦ absurd (ground arith)
    | inl (a, e) ↦ elim (Result-cases (yaml.number file "block_processin_queue_size")) [
      | inr (x, f) ↦ absurd (ground arith)
      | inl (b, f) ↦ (a, b, e, f, ground arith)
    ]
  ]

  read_db-ok :
      (file : Y) (c : Config)
      → (read_db yaml file c).0 ≡ ok tt
      → (host : String) × (port : ℕ) × (name : String) × (yaml.text file "db_host" ≡ ok host)
        × (yaml.port file "db_port" ≡ ok port)
        × (yaml.text file "db_name" ≡ ok name)
        × ((read_db yaml file c).1 ≡ record c { db_host = host; db_port = port; db_name = name })
  unfolding read_db
  read_db-ok file c returns = elim (Result-cases (yaml.text file "db_host")) [
    | inr (x, e) ↦ absurd (ground arith)
    | inl (host, e) ↦ elim (Result-cases (yaml.port file "db_port")) [
      | inr (x, f) ↦ absurd (ground arith)
      | inl (port, f) ↦ elim (Result-cases (yaml.text file "db_name")) [
        | inr (x, g) ↦ absurd (ground arith)
        | inl (name, g) ↦ (host, port, name, e, f, g, ground arith)
      ]
    ]
  ]

  read_debug-ok :
      (file : Y) (c : Config)
      → (read_debug yaml file c).0 ≡ ok tt
      → (on : Bool) × (level : ℤ) × (yaml.flag file "json_rpc_debug" ≡ ok on)
        × (yaml.number file "log_level" ≡ ok level)
        × ((read_debug yaml file c).1 ≡ record c {
          debug_on = on;
          client_timeout = c.rpc_connection_timeout;
          log_level = level;
        })
  unfolding read_debug
  read_debug-ok file c returns = elim (Result-cases (yaml.flag file "json_rpc_debug")) [
    | inr (x, e) ↦ absurd (ground arith)
    | inl (on, e) ↦ elim (Result-cases (yaml.number file "log_level")) [
      | inr (x, f) ↦ absurd (ground arith)
      | inl (level, f) ↦ (on, level, e, f, ground arith)
    ]
  ]

  -- Each part returns, as the next one runs only then.
  parts-ok :
      (file : Y) (c : Config)
      → (read_config yaml file c).0 ≡ ok tt
      → let a = read_nodes yaml file c in
        let b = read_timeouts yaml file a.1 in
        let d = read_queues yaml file b.1 in
        let e = read_db yaml file d.1 in
        let f = read_debug yaml file e.1 in
        (a.0 ≡ ok tt)
        × (b.0 ≡ ok tt)
        × (d.0 ≡ ok tt)
        × (e.0 ≡ ok tt)
        × (f.0 ≡ ok tt)
        × ((read_config yaml file c).1 ≡ f.1)
  unfolding read_config
  parts-ok file c returns = ground arith

  pub read_config-IsRead :
      (file : Y) (c : Config)
      → (read_config yaml file c).0 ≡ ok tt
      → IsRead file (read_config yaml file c).1
  read_config-IsRead file c returns =
      let s1 = (read_nodes yaml file c).1 in
      let s2 = (read_timeouts yaml file s1).1 in
      let s3 = (read_queues yaml file s2).1 in
      let s4 = (read_db yaml file s3).1 in
      let (r1, r2, r3, r4, r5, last) = parts-ok file c returns in
      let (us, url, are, has_url, e1) = read_nodes-ok file c r1 in
      let (a2, b2, c2, h2, i2, j2, e2) = read_timeouts-ok file s1 r2 in
      let (a3, b3, h3, i3, e3) = read_queues-ok file s2 r3 in
      let (host, port, name, h4, i4, j4, e4) = read_db-ok file s3 r4 in
      let (on, level, h5, i5, e5) = read_debug-ok file s4 r5 in
      record {
        node_urls = subst (AreTexts (yaml.elements file "node_urls")) (ground arith) are;
        genesis_url = ground arith;
        request_timeout = ground arith;
        update_timeout = ground arith;
        rpc_connection_timeout = ground arith;
        rpc_queue_size = ground arith;
        block_processin_queue_size = ground arith;
        db_host = ground arith;
        db_port = ground arith;
        db_name = ground arith;
        debug_on = ground arith;
        client_timeout = ground arith;
        log_level = ground arith;
      }
