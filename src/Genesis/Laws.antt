-- ===== src/Genesis/Laws.antt =====
-- What the parser of the genesis makes of a text: common/src/genesis.cpp.
use mile_explorer.Common.{
  ℕ, ◌+◌, ◌%◌, ◌^◌, ◌||◌, String, ◌≡◌, ◌≢◌, ◌∙◌, ap, subst, ◌⊎◌, inl, inr, true, some, List, [],
  ◌∷◌, ◌++◌, arith, eq_iff,
}
use mathlib.Core.List.{append_assoc, append-nil}
use mile_explorer.Common.Exec.{ok, Result-cases}
use mile_explorer.Common.Float.{FloatLib}
use mile_explorer.Common.Text.{to_string}
use mile_explorer.Json.{JsonLib, is_object, is_null, is_array}
use mile_explorer.Driver.{Sdk}
use mile_explorer.Genesis.{
  GenesisLib, Line, transfer, register_node, read_words, no_words, line_row, read_lines, parser,
}
use mile_explorer.Genesis.Words.{line_type, line_key, type_cases, words_variables}
use mile_explorer.Genesis.Rows.{typed_row, untyped_row}

module _ {J F : Type 0} ⦃lib : JsonLib J⦄ (text : GenesisLib F) where
  -- The transaction with this number, of this line.
  pub record IsTransaction (trx_id : ℕ) (token : String) (trx : J) : Type 0 where
    pub an_object : is_object trx ≡ true
    pub type : lib.find trx "transaction-type" ≡ some (lib.of_string (line_type text token))
    pub number : lib.find trx "transaction-id" ≡ some (lib.of_string (to_string trx_id))
    pub public_key : lib.find trx "public-key" ≡ some (lib.of_string (line_key text token))

  -- A line of a type has a transaction, and any other has null.
  abbrev pub IsLineRow : ℕ → String → J → Type 0
  IsLineRow trx_id token trx =
      ((line_type text token ≢ "") × IsTransaction trx_id token trx)
      ⊎ ((line_type text token ≡ "") × (trx ≡ lib.null_value))

  -- One row for each line, in order, numbered modulo 2^64.
  abbrev pub AreRows : ℕ → List String → List J → Type 0
  AreRows n [] [] = Unit
  AreRows n [] (x ∷ xs) = ⊥
  AreRows n (token ∷ tokens) [] = ⊥
  AreRows n (token ∷ tokens) (x ∷ xs) = IsLineRow n token x × AreRows ((n + 1) % 2 ^ 64) tokens xs

module _ {J F : Type 0} ⦃lib : JsonLib J⦄ ⦃floats : FloatLib F⦄ (sdk : Sdk)
    (text : GenesisLib F) where
  row-IsLineRow :
      (n : ℕ) (token : String) (l : Line) (trx : J)
      → read_words sdk text (text.words token) (no_words sdk text) ≡ ok l
      → line_row sdk text n l ≡ ok trx
      → IsLineRow text n token trx
  row-IsLineRow n token l trx words row =
      let (type, key) = words_variables sdk text (text.words token) (no_words sdk text) l words in
      elim (type_cases text (text.words token) "") [
        | inl e ↦ inr (e, untyped_row sdk text n l trx (type ∙ e) row)
        | inr typed ↦
            let typed' : (l.transaction_type ≡ transfer) ⊎ (l.transaction_type ≡ register_node) =
              elim typed [ inl e ↦ inl (type ∙ e) | inr e ↦ inr (type ∙ e) ] in
            let says = typed_row sdk text n l trx typed' row in
            inl (
              ground (arith, eq_iff "" register_node, eq_iff "" transfer),
              record {
                an_object = says.an_object;
                type = says.type ∙ ap (λ s. some (lib.of_string s)) type;
                number = says.number;
                public_key = says.public_key ∙ ap (λ s. some (lib.of_string s)) key;
              },
            )
      ]

  -- The rows that are there already stay in front.
  read_lines-AreRows :
      (n : ℕ) (tokens : List String) (before after : J)
      → (is_null before || is_array before) ≡ true
      → read_lines sdk text n tokens before ≡ ok after
      → (rows : List J) × ((lib.items after ≡ lib.items before ++ rows)
          × AreRows text n tokens rows)
  unfolding read_lines
  read_lines-AreRows n [] before after h returns =
      ([], (ground (arith, append-nil (lib.items before)), tt))
  read_lines-AreRows n (token ∷ tokens) before after h returns =
      elim (Result-cases (read_words sdk text (text.words token) (no_words sdk text))) [
        | inr (x, e) ↦ absurd (ground arith)
        | inl (l, e) ↦ elim (Result-cases (line_row {J = J} sdk text n l)) [
          | inr (x, f) ↦ absurd (ground arith)
          | inl (trx, f) ↦
              let pushed = lib.push_back before trx in
              let (rows, (items, are)) =
                read_lines-AreRows ((n + 1) % 2 ^ 64) tokens pushed after
                  (ground (arith, lib.kind_push_back before trx)) (ground arith) in
              let joined =
                ap (λ xs. xs ++ rows) (lib.items_push_back before trx h)
                ∙ append_assoc (lib.items before) (trx ∷ []) rows in
              (trx ∷ rows, (items ∙ joined, (row-IsLineRow n token l trx e f, are)))
        ]
      ]

  -- If the parser of the genesis returns, there is one row for each line of the text, in their
  -- order: a line of a type has a transaction with the type that its words name last, its last
  -- public key and the number of the line modulo 2^64 as a text, and a line of no type has null.
  pub parser-AreRows :
      (buffer : String) (transactions : J)
      → parser sdk text buffer ≡ some transactions
      → AreRows text 0 (text.lines buffer) (lib.items transactions)
  unfolding parser
  parser-AreRows buffer transactions returns =
      elim (Result-cases (read_lines {J = J} sdk text 0 (text.lines buffer) lib.null_value)) [
        | inr (x, e) ↦ absurd (ground arith)
        | inl (g, e) ↦
            let (rows, (items, are)) =
              read_lines-AreRows 0 (text.lines buffer) lib.null_value transactions
                (ground (arith, lib.kind_null)) (ground arith) in
            subst (AreRows text 0 (text.lines buffer)) (ground (arith, lib.items_null)) are
      ]
