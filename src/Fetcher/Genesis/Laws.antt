-- ===== src/Fetcher/Genesis/Laws.antt =====
-- When the loop of `Fetcher::fetch_genesis` of common/src/fetcher.cpp ends.
use mile_explorer.Common.{
  ℕ, zero, suc, ◌+◌, ◌%◌, ◌^◌, String, ◌≡◌, ◌≢◌, refl, subst, inl, inr, true, false, some, List, [],
  ◌∷◌, ◌++◌, arith,
}
use mile_explorer.Common.Lists.{All, All-middle}
use mile_explorer.Common.Exec.{Result-cases, ok}
use mile_explorer.Common.Float.{FloatLib}
use mile_explorer.Json.{JsonLib}
use mile_explorer.Driver.{Driver, Sdk}
use mile_explorer.Db.{Db}
use mile_explorer.Db.Jobs.{Queued, on_world}
use mile_explorer.Db.Network.{update_genesis}
use mile_explorer.Db.Network.Laws.{update_genesis-ok}
use mile_explorer.Genesis.{GenesisLib, parser}
use mile_explorer.Genesis.Words.{line_type}
use mile_explorer.Genesis.Laws.{AreRows, parser-AreRows}
use mile_explorer.Fetcher.Genesis.{
  HttpClient, Round, over, again, store_genesis, genesis_round, fetch_genesis,
}

module _ {J F : Type 0} ⦃lib : JsonLib J⦄ (text : GenesisLib F) where
  typed_lines :
      (n : ℕ) (tokens : List String) (rows : List J)
      → AreRows text n tokens rows
      → All (λ row. row ≢ lib.null_value) rows
      → All (λ token. line_type text token ≢ "") tokens
  typed_lines n [] [] are h = tt
  typed_lines n [] (row ∷ rows) are h = absurd are
  typed_lines n (token ∷ tokens) [] are h = absurd are
  typed_lines n (token ∷ tokens) (row ∷ rows) (inl (typed, t), are) (p, h) =
      (typed, typed_lines ((n + 1) % 2 ^ 64) tokens rows are h)
  typed_lines n (token ∷ tokens) (row ∷ rows) (inr (untyped, null), are) (p, h) = absurd (p null)

module _ {J F W : Type 0} ⦃lib : JsonLib J⦄ ⦃floats : FloatLib F⦄ (driver : Driver J W) (sdk : Sdk)
    (text : GenesisLib F) (entries : J → List (String × J)) (http : HttpClient W) (db : Db) where
  store_genesis-over :
      (body : String) (genesis : J) (s : Queued J W)
      → parser sdk text body ≡ some genesis
      → (store_genesis driver sdk text entries http db body s).0 ≡ ok over
      → All (λ token. line_type text token ≢ "") (text.lines body)
  unfolding store_genesis
  store_genesis-over body g s parsed returns =
      let updated = update_genesis driver sdk entries db g s in
      elim (Result-cases updated.0) [
        | inr (x, e) ↦ absurd (ground arith)
        | inl (t, e) ↦
            typed_lines text 0 (text.lines body) (lib.items g)
              (parser-AreRows sdk text body g parsed)
              (update_genesis-ok driver sdk entries db g s (ground arith))
      ]

  store_genesis-defined :
      (body : String) (genesis : J) (s : Queued J W) (r : Round)
      → parser sdk text body ≡ some genesis
      → (store_genesis driver sdk text entries http db body s).0 ≡ ok r
      → r ≡ over
  unfolding store_genesis
  store_genesis-defined body g s r parsed returns =
      elim (Result-cases (update_genesis driver sdk entries db g s).0) [
        | inr (x, e) ↦ absurd (ground arith)
        | inl (t, e) ↦ ground arith
      ]

  module _ (body token : String) (before after : List String) (genesis : J)
      (parsed : parser sdk text body ≡ some genesis)
      (served : (w : W) → (http.get w).0 ≡ ok (some body))
      (has_line : text.lines body ≡ before ++ token ∷ after)
      (untyped : line_type text token ≡ "") where
    store_genesis-throws :
        (s : Queued J W) (r : Round)
        → (store_genesis driver sdk text entries http db body s).0 ≢ ok r
    store_genesis-throws s r returns =
        let same = store_genesis-defined body genesis s r parsed returns in
        let typed = store_genesis-over body genesis s parsed (ground (arith, returns, same)) in
        let IsTyped = λ (line : String). line_type text line ≢ "" in
        All-middle IsTyped before after token (subst (All IsTyped) has_line typed) untyped

    genesis_round-again :
        (s : Queued J W) → (genesis_round driver sdk text entries http db s).0 ≡ ok again
    unfolding genesis_round
    genesis_round-again s =
        let connected = on_world http.connect s in
        let got = on_world http.get connected.1 in
        elim (Result-cases connected.0) [
          | inr (x, e) ↦ ground arith
          | inl (true, e) ↦
              elim (Result-cases (store_genesis driver sdk text entries http db body got.1).0) [
                | inr (x, f) ↦ ground (arith, served connected.1.world)
                | inl (t, f) ↦ absurd (store_genesis-throws got.1 t f)
              ]
          | inl (false, e) ↦ ground arith
        ]

    -- Against an HTTP server whose every answer is one text that the parser reads to its end and
    -- that has a line of no type, the loop that fetches the genesis does not end, however many
    -- rounds it makes and whatever the database does.
    pub fetch_genesis-untyped :
        (rounds : ℕ) (s : Queued J W)
        → (fetch_genesis driver sdk text entries http rounds db s).0 ≡ ok again
    unfolding fetch_genesis
    fetch_genesis-untyped zero s = refl
    fetch_genesis-untyped (suc rounds) s =
        let next = genesis_round driver sdk text entries http db s in
        ground (arith, genesis_round-again s, fetch_genesis-untyped rounds next.1)
