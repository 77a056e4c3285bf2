-- ===== src/Rpc/Container.antt =====
-- The container that `RpcBase` is a template over (boost's flat_map in the program): a dictionary
-- with text keys, where `emplace` keeps the entry that is there.
use mile_explorer.Common.{
  String, ◌≡◌, refl, List, [], ◌∷◌, Option, none, some, arith, if◌then◌else◌, str_eq, eq_iff,
}
use mile_explorer.Common.Lists.{lookup}

pub record Container (M V : Type 0) : Type 0 where
  pub empty : M
  pub find : String → M → Option V
  pub emplace : String → V → M → M
  -- the pairs that a loop over the container meets
  pub entries : M → List (String × V)
  pub find_empty : (k : String) → find k empty ≡ none
  pub find_emplace :
      (k j : String) (v : V) (m : M)
      → find j (emplace k v m)
        ≡ elim (find k m) [ some w ↦ find j m | none ↦ if str_eq k j then some v else find j m ]
  pub lookup_entries : (k : String) (m : M) → lookup k (entries m) ≡ find k m

-- A container for tests: the newest entry first.
module _ {V : Type 0} where
  abbrev pub prepend_new : String → V → List (String × V) → List (String × V)
  prepend_new k v m = elim (lookup k m) [ none ↦ (k, v) ∷ m | some w ↦ m ]

  pub lookup-prepend_new :
      (k j : String) (v : V) (m : List (String × V))
      → lookup j (prepend_new k v m) ≡ elim (lookup k m) [
        | some w ↦ lookup j m
        | none ↦ if str_eq k j then some v else lookup j m
      ]
  lookup-prepend_new k j v m = ground (arith, eq_iff k j)

  abbrev pub list_container : Container (List (String × V)) V
  list_container = record {
    empty = [];
    find = lookup;
    emplace = prepend_new;
    entries = λ m. m;
    find_empty = λ k. refl;
    find_emplace = lookup-prepend_new;
    lookup_entries = λ k m. refl;
  }
