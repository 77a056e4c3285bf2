-- ===== src/Genesis/Words.antt =====
-- What the words of a line of the genesis say: common/src/genesis.cpp.
use mile_explorer.Common.{
  ◌||◌, Bool, String, ◌≡◌, refl, ◌∙◌, ap, ◌⊎◌, inl, inr, List, [], ◌∷◌, arith, if◌then◌else◌,
  str_eq,
}
use mile_explorer.Common.Exec.{ok, Result-cases}
use mile_explorer.Common.Float.{FloatLib}
use mile_explorer.Driver.{Sdk}
use mile_explorer.Genesis.{GenesisLib, Line, transfer, register_node, read_word, read_words}

module _ {F : Type 0} (text : GenesisLib F) where
  -- The type that the words of a line name last, and the last of them that is a key, or `d`.
  abbrev pub type_of : List String → String → String
  type_of [] d = d
  type_of (t ∷ ts) d = type_of ts (
      if str_eq (text.to_lower_copy t) "transfer"
      then transfer
      else if str_eq (text.to_lower_copy t) "amount-register-node"
      then register_node
      else d)

  abbrev pub is_keyword : String → Bool
  is_keyword word =
      str_eq word "transfer"
      || (str_eq word "amount-register-node" || (str_eq word "xdr" || str_eq word "mile"))

  abbrev pub key_of : List String → String → String
  key_of [] d = d
  key_of (t ∷ ts) d =
      key_of ts (
        if is_keyword (text.to_lower_copy t)
        then d
        else if text.validate_public_key t
        then t
        else d)

module _ {F : Type 0} ⦃floats : FloatLib F⦄ (sdk : Sdk) (text : GenesisLib F) where
  word_variables :
      (t : String) (l l' : Line)
      → read_word sdk text t l ≡ ok l'
      → (l'.transaction_type ≡ type_of text (t ∷ []) l.transaction_type)
        × (l'.public_key ≡ key_of text (t ∷ []) l.public_key)
  unfolding read_word
  word_variables t l l' returns = ground arith

  pub words_variables :
      (ts : List String) (l l' : Line)
      → read_words sdk text ts l ≡ ok l'
      → (l'.transaction_type ≡ type_of text ts l.transaction_type)
        × (l'.public_key ≡ key_of text ts l.public_key)
  unfolding read_words
  words_variables [] l l' returns = ground arith
  words_variables (t ∷ ts) l l' returns = elim (Result-cases (read_word sdk text t l)) [
    | inl (m, e) ↦
        let (type, key) = words_variables ts m l' (ground arith) in
        let (type_m, key_m) = word_variables t l m e in
        (type ∙ ap (type_of text ts) type_m, key ∙ ap (key_of text ts) key_m)
    | inr (x, e) ↦ absurd (ground arith)
  ]

module _ {F : Type 0} (text : GenesisLib F) where
  pub type_cases :
      (ts : List String) (d : String)
      → (type_of text ts d ≡ d)
        ⊎ ((type_of text ts d ≡ transfer) ⊎ (type_of text ts d ≡ register_node))
  type_cases [] d = inl refl
  type_cases (t ∷ ts) d =
      let word = text.to_lower_copy t in
      let d' : String =
        if str_eq word "transfer"
        then transfer
        else if str_eq word "amount-register-node"
        then register_node
        else d in
      ground (arith, type_cases ts d')

-- The type and the key of a line.
module _ {F : Type 0} (text : GenesisLib F) where
  abbrev pub line_type : String → String
  line_type token = type_of text (text.words token) ""

  abbrev pub line_key : String → String
  line_key token = key_of text (text.words token) ""
