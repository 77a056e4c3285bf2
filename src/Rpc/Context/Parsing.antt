-- ===== src/Rpc/Context/Parsing.antt =====
-- Which texts `context::from_string` accepts, and what it leaves in the context otherwise.
use mile_explorer.Common.{
  String, ◌≡◌, ◌⊎◌, inl, inr, Bool, true, false, Option, none, some, arith, ap, Option-cases,
  is_some, str_eq, eq_iff, if◌then◌else◌,
}
use mile_explorer.Common.Exec.{ok}
use mile_explorer.Json.{JsonLib, is_object, is_string}
use mile_explorer.Rpc.Context.{Context, fresh, from_string, make_response_parse_error}

module _ {J : Type 0} ⦃lib : JsonLib J⦄ where
  -- A text that is a JSON-RPC 2.0 request with this id, method and parameters.
  pub record IsRequest (name : String) (id : J) (method : String) (params : J) : Type 0 where
    pub json : J
    pub version : J
    pub name_of : J
    pub parses : lib.parsed name ≡ some json
    pub an_object : is_object json ≡ true
    pub has_version : lib.find json "jsonrpc" ≡ some version
    pub is_two : lib.text version ≡ some "2.0"
    pub has_id : lib.find json "id" ≡ some id
    pub has_method : lib.find json "method" ≡ some name_of
    pub method_text : lib.text name_of ≡ some method
    pub has_params :
        (lib.find json "param" ≡ some params)
        ⊎ ((lib.find json "param" ≡ none) × (lib.find json "params" ≡ some params))

  pub from_string_total : (name : String) (ctx : Context J) → (from_string name ctx).0 ≡ ok tt
  unfolding from_string
  from_string_total name ctx = ground arith

  text_is_string : (j : J) (s : String) → lib.text j ≡ some s → is_string j ≡ true
  text_is_string j s h = cc (lib.text_kind j, ap is_some h)

  pub from_string-IsRequest :
      (name : String) (id : J) (method : String) (params : J)
      → IsRequest name id method params
      → from_string name fresh ≡ (
        ok tt,
        record {
          request = record { id = id; method = method; params = params };
          response = record { id = id; result = lib.null_value; error = none };
        },
      )
  unfolding from_string
  from_string-IsRequest name id method params h = ground (
    arith,
    lib.parse_lem name,
    lib.at_lem h.json "jsonrpc",
    lib.get_string_lem h.version,
    eq_iff "2.0" "2.0",
    lib.at_lem h.json "id",
    lib.at_lem h.json "method",
    text_is_string h.name_of method h.method_text,
    lib.get_string_lem h.name_of,
    lib.at_lem h.json "param",
    lib.at_lem h.json "params",
  )

  -- What is missing when `from_string` runs into the parameters.
  pub record LacksParams (name : String) (id : J) (method : String) : Type 0 where
    pub json : J
    pub version : J
    pub name_of : J
    pub parses : lib.parsed name ≡ some json
    pub an_object : is_object json ≡ true
    pub has_version : lib.find json "jsonrpc" ≡ some version
    pub is_two : lib.text version ≡ some "2.0"
    pub has_id : lib.find json "id" ≡ some id
    pub has_method : lib.find json "method" ≡ some name_of
    pub method_text : lib.text name_of ≡ some method
    pub no_param : lib.find json "param" ≡ none
    pub no_params : lib.find json "params" ≡ none

  pub from_string-LacksParams :
      (name : String) (id : J) (method : String)
      → LacksParams name id method
      → from_string name fresh ≡ (
        ok tt,
        make_response_parse_error "json-rpc: unknown parse error" (record fresh {
          request = record { id = id; method = method; params = lib.null_value };
        }),
      )
  unfolding from_string
  from_string-LacksParams name id method h = ground (
    arith,
    lib.parse_lem name,
    lib.at_lem h.json "jsonrpc",
    lib.get_string_lem h.version,
    eq_iff "2.0" "2.0",
    lib.at_lem h.json "id",
    lib.at_lem h.json "method",
    text_is_string h.name_of method h.method_text,
    lib.get_string_lem h.name_of,
    lib.at_lem h.json "params",
  )

  -- What JSON-RPC 2.0 asks of a message, read off the document.
  read_version : J → Bool
  read_version json = elim (lib.find json "jsonrpc") [
    | none ↦ false
    | some v ↦ elim (lib.text v) [ none ↦ false | some s ↦ str_eq s "2.0" ]
  ]

  read_method : J → Option String
  read_method json = elim (lib.find json "method") [ none ↦ none | some m ↦ lib.text m ]

  params_of : J → Option J
  params_of json = elim (lib.find json "param") [ none ↦ lib.find json "params" | some p ↦ some p ]

  members_of : J → Option (J × String × J)
  unfolding read_method params_of
  members_of json = elim (lib.find json "id") [
    | none ↦ none
    | some id ↦ elim (read_method json) [
      | none ↦ none
      | some method ↦ elim (params_of json) [
        | none ↦ none
        | some params ↦ some (id, method, params)
      ]
    ]
  ]

  pub request_of : String → Option (J × String × J)
  unfolding read_version members_of
  request_of name = elim (lib.parsed name) [
    | none ↦ none
    | some json ↦ if read_version json then members_of json else none
  ]

  -- What the caller of `from_string` takes for a request.
  abbrev pub accepted : Context J → Option (J × String × J)
  accepted ctx = elim ctx.response.error [
    | none ↦ some (ctx.request.id, ctx.request.method, ctx.request.params)
    | some e ↦ none
  ]

  accepted_document :
      (name : String) (json : J)
      → lib.parsed name ≡ some json
      → accepted (from_string name (fresh {J = J})).1 ≡ request_of name
  unfolding from_string request_of
  accepted_document name json e = elim (Option-cases (lib.find json "jsonrpc")) [
    | inl no_version ↦
        ground (arith, lib.parse_lem name, lib.at_lem json "id", lib.find_kind json "jsonrpc")
    | inr (v, e_v) ↦ elim (Option-cases (lib.find json "method")) [
      | inl no_method ↦ ground (
        arith,
        lib.parse_lem name,
        lib.find_kind json "jsonrpc",
        lib.at_lem json "jsonrpc",
        lib.get_string_lem v,
        lib.at_lem json "id",
      )
      | inr (m, e_m) ↦ ground (
        arith,
        lib.parse_lem name,
        lib.find_kind json "jsonrpc",
        lib.at_lem json "jsonrpc",
        lib.get_string_lem v,
        lib.at_lem json "id",
        lib.at_lem json "method",
        lib.text_kind m,
        lib.get_string_lem m,
        lib.at_lem json "param",
        lib.at_lem json "params",
      )
    ]
  ]

  -- from_string leaves a new context without an error exactly for the texts of JSON-RPC 2.0
  -- requests, with their id, method and parameters, as an independent reading of the document
  -- finds them.
  pub from_string-accepts :
      (name : String) → accepted (from_string name (fresh {J = J})).1 ≡ request_of name
  from_string-accepts name = elim (Option-cases (lib.parsed name)) [
    | inl e ↦ unfold from_string request_of in ground (arith, lib.parse_lem name)
    | inr (json, e) ↦ accepted_document name json e
  ]
