-- ===== src/Db/Stream/Numbered.antt =====
-- Serial numbers are given once each, without a gap: common/src/db/transactions/processing.cpp.
use mathlib.Core.Path.{sym, subst, ap}
use mile_explorer.Common.{
  ℕ, ◌+◌, ◌<◌, String, ◌≡◌, ◌∙◌, ◌⊎◌, inl, inr, Bool-cases, Option, none, some, arith, ltb, str_eq,
  eq_iff, eq_refl, if◌then◌else◌,
}
use mile_explorer.Json.{JsonLib}
use mile_explorer.Db.Stream.Tables.{HasSerial}

module _ {J : Type 0} ⦃lib : JsonLib J⦄ where
  -- Each number below the count is the serial number of one transaction, and no other is of any.
  pub record IsNumbered (rows : String → Option J) (count : ℕ) : Type 0 where
    pub below :
        (id : String) (row : J) → rows id ≡ some row → (k : ℕ) × HasSerial row k × (k < count)
    pub once :
        (id id' : String) (row row' : J) (k : ℕ)
        → rows id ≡ some row
        → rows id' ≡ some row'
        → HasSerial row k
        → HasSerial row' k
        → id ≡ id'
    pub each :
        (k : ℕ) → k < count → (id : String) × (row : J) × (rows id ≡ some row) × HasSerial row k

  pub serial_of : {row row' : J} {k : ℕ} → HasSerial row k → row ≡ row' → HasSerial row' k
  serial_of {k = k} serial same = subst (λ j. HasSerial j k) same serial

  serial_once : {row : J} {k n : ℕ} → HasSerial row k → HasSerial row n → k ≡ n
  serial_once (m, h, e) (m', h', e') = ground arith

  -- A row of the greater table is the new one or stood in the table before.
  found_in :
      (rows rows' : String → Option J) (id : String) (row : J)
      → ((other : String) → rows' other ≡ (if str_eq id other then some row else rows other))
      → (id1 : String) (row1 : J) → rows' id1 ≡ some row1
      → ((id ≡ id1) × (row ≡ row1)) ⊎ (rows id1 ≡ some row1)
  found_in rows rows' id row more id1 row1 has = elim (Bool-cases (str_eq id id1)) [
    | inl e ↦ inl ((eq_iff id id1).0 e, ground (arith, more id1))
    | inr e ↦ inr (ground (arith, more id1))
  ]

  -- One row more, with the count as its serial number.
  pub numbered_more :
      (rows rows' : String → Option J) (count : ℕ) (id : String) (row : J)
      → IsNumbered rows count
      → rows id ≡ none
      → HasSerial row count
      → ((other : String) → rows' other ≡ (if str_eq id other then some row else rows other))
      → IsNumbered rows' (count + 1)
  numbered_more rows rows' count id row h absent serial more = record {
    below = λ id1 row1 has. elim (found_in rows rows' id row more id1 row1 has) [
      | inl (e, same) ↦ (count, serial_of serial same, omega arith)
      | inr old ↦ let (k, has1, less) = h.below id1 row1 old in (k, has1, omega arith)
    ];
    once = λ id1 id2 row1 row2 k has1 has2 serial1 serial2.
        elim (found_in rows rows' id row more id1 row1 has1) [
          | inl (e, same) ↦ elim (found_in rows rows' id row more id2 row2 has2) [
            | inl (f, same2) ↦ sym e ∙ f
            | inr old ↦
                let (n, has_n, less) = h.below id2 row2 old in
                absurd (
                  omega (
                    arith,
                    serial_once serial2 has_n,
                    serial_once serial1 (serial_of serial same),
                    less,
                  ))
          ]
          | inr old ↦ elim (found_in rows rows' id row more id2 row2 has2) [
            | inl (f, same2) ↦
                let (n, has_n, less) = h.below id1 row1 old in
                absurd (
                  omega (
                    arith,
                    serial_once serial1 has_n,
                    serial_once serial2 (serial_of serial same2),
                    less,
                  ))
            | inr old2 ↦ h.once id1 id2 row1 row2 k old old2 serial1 serial2
          ]
        ];
    each = λ k less. elim (Bool-cases (ltb k count)) [
      | inl e ↦
          let (id1, row1, has1, serial1) = h.each k (ground arith) in
          elim (Bool-cases (str_eq id id1)) [
            | inl f ↦ absurd (ground (arith, has1, absent, ap rows ((eq_iff id id1).0 f)))
            | inr f ↦ (id1, row1, ground (arith, more id1, has1), serial1)
          ]
      | inr e ↦
          let same : count ≡ k = ground arith in
          (id, row, ground (arith, more id, eq_refl id), subst (HasSerial row) same serial)
    ];
  }

  pub numbered_same :
      (rows rows' : String → Option J) (count : ℕ)
      → IsNumbered rows count
      → ((other : String) → rows' other ≡ rows other)
      → IsNumbered rows' count
  numbered_same rows rows' count h same = record {
    below = λ id row has. h.below id row (sym (same id) ∙ has);
    once = λ id id' row row' k has has'.
        h.once id id' row row' k (sym (same id) ∙ has) (sym (same id') ∙ has');
    each = λ k less. let (id, row, has, serial) = h.each k less in (id, row, same id ∙ has, serial);
  }
