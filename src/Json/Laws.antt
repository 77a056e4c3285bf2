-- ===== src/Json/Laws.antt =====
-- What the throwing reads of the JSON interface give where the value is there, and their rule set.
use mile_explorer.Common.{ℕ, String, ◌≡◌, true, none, some, str_eq, arith, if◌then◌else◌}
use mile_explorer.Common.Exec.{ok}
use mile_explorer.Json.{JsonLib, is_object}

module _ {J : Type 0} ⦃lib : JsonLib J⦄ where
  -- What the reads of a member give where it is there, and its kinds.
  pub at_found : (j : J) (k : String) (v : J) → lib.find j k ≡ some v → lib.at j k ≡ ok v
  at_found j k v h = ground (arith, lib.find_kind j k, lib.at_lem j k)

  pub index_found : (j : J) (k : String) (v : J) → lib.find j k ≡ some v → lib.index j k ≡ ok v
  index_found j k v h = ground (arith, lib.find_kind j k, lib.index_lem j k)

  pub object_found : (j : J) (k : String) (v : J) → lib.find j k ≡ some v → is_object j ≡ true
  object_found j k v h = ground (arith, lib.find_kind j k)

  pub string_found : (j : J) (s : String) → lib.text j ≡ some s → lib.get_string j ≡ ok s
  string_found j s h = ground (arith, lib.get_string_lem j)

  pub uint64_found : (j : J) (n : ℕ) → lib.uint j ≡ some n → lib.get_uint64 j ≡ ok n
  uint64_found j n h = ground (arith, lib.get_uint64_lem j)

  pub assign_object :
      (j : J) (k : String) (v : J) → is_object j ≡ true → lib.assign j k v ≡ ok (lib.put j k v)
  assign_object j k v h = ground (arith, lib.assign_lem j k v)

  -- Writes into an object, and into the null of a new variable.
  pub object_put :
      (j : J) (k : String) (v : J) → is_object j ≡ true → is_object (lib.put j k v) ≡ true
  object_put j k v h = ground (arith, lib.kind_put j k v)

  pub object_first : (k : String) (v : J) → is_object (lib.put lib.null_value k v) ≡ true
  object_first k v = ground (arith, lib.kind_put lib.null_value k v, lib.kind_null)

  pub find_object :
      (j : J) (k : String) (v : J) (k' : String)
      → is_object j ≡ true
      → lib.find (lib.put j k v) k' ≡ (if str_eq k k' then some v else lib.find j k')
  find_object j k v k' h = ground (arith, lib.find_put j k v k')

  pub find_first :
      (k : String) (v : J) (k' : String)
      → lib.find (lib.put lib.null_value k v) k' ≡ (if str_eq k k' then some v else none)
  find_first k v k' =
      ground
        (arith, lib.find_put lib.null_value k v k', lib.kind_null, lib.find_kind lib.null_value k')

pub ruleset json_reads = (at_found, index_found, string_found, uint64_found)
