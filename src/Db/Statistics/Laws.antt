-- ===== src/Db/Statistics/Laws.antt =====
-- The order of the registry, and what a round of the statistics does: common/include/statistics.hpp
-- and common/src/db/db.cpp.
use mathlib.Core.List.{Permᴰ}
use mathlib.Core.Path.{sym, ap, subst}
use mile_explorer.Common.{
  ℕ, String, ◌≡◌, refl, ◌∙◌, ◌⊎◌, inl, inr, Bool-cases, true, false, List, [], ◌∷◌, arith,
}
use mile_explorer.Common.Exec.{Exception, Result-cases, ok, throw}
use mile_explorer.Common.Lists.{All}
use mile_explorer.Common.Text.{codes}
use mile_explorer.Json.{JsonLib}
use mile_explorer.Driver.{Driver}
use mile_explorer.Db.{Db}
use mile_explorer.Db.Getters.{get_block_history_state}
use mile_explorer.Db.Statistics.{
  less_codes, less, StorageType, add, add_each, StatisticMethod, each_method, last_time,
  statistics_round,
}

less_codes_trans :
    (xs ys zs : List ℕ)
    → less_codes xs ys ≡ true
    → less_codes ys zs ≡ true
    → less_codes xs zs ≡ true
less_codes_trans xs [] zs h k = absurd (ground arith)
less_codes_trans [] (y ∷ ys) [] h k = absurd (ground arith)
less_codes_trans [] (y ∷ ys) (z ∷ zs) h k = refl
less_codes_trans (x ∷ xs) (y ∷ ys) [] h k = absurd (ground arith)
less_codes_trans (x ∷ xs) (y ∷ ys) (z ∷ zs) h k = ground (arith, less_codes_trans xs ys zs)

less_codes_asym : (xs ys : List ℕ) → less_codes xs ys ≡ true → less_codes ys xs ≡ false
less_codes_asym xs [] h = absurd (ground arith)
less_codes_asym [] (y ∷ ys) h = refl
less_codes_asym (x ∷ xs) (y ∷ ys) h = ground (arith, less_codes_asym xs ys)

-- Texts of which none comes before the other are the same codes.
less_codes_total : (xs ys : List ℕ) → less_codes xs ys ≡ false → less_codes ys xs ≡ false → xs ≡ ys
less_codes_total [] [] h k = refl
less_codes_total [] (y ∷ ys) h k = absurd (ground arith)
less_codes_total (x ∷ xs) [] h k = absurd (ground arith)
less_codes_total (x ∷ xs) (y ∷ ys) h k = ground (arith, less_codes_total xs ys)

module _ {M : Type 0} where
  add_before :
      (s t : String) (f g : M) (r : StorageType M)
      → less s t ≡ true
      → add s f (add t g r) ≡ add t g (add s f r)
  unfolding add less
  add_before s t f g [] h = ground (arith, less_codes_asym (codes s) (codes t) h)
  add_before s t f g ((k, m) ∷ r) h =
      let back = less_codes_asym (codes s) (codes t) h in
      elim (Bool-cases (less t k)) [
        | inl e ↦ ground (
          arith,
          back,
          less_codes_trans (codes s) (codes t) (codes k) h e,
          less_codes_asym (codes t) (codes k) e,
        )
        | inr e ↦ elim (Bool-cases (less k t)) [
          | inl d ↦ elim (Bool-cases (less s k)) [
            | inl i ↦ ground (arith, back)
            | inr i ↦ elim (Bool-cases (less k s)) [
              | inl j ↦ ground (arith, add_before s t f g r h)
              | inr j ↦ ground arith
            ]
          ]
          | inr d ↦ let same = less_codes_total (codes t) (codes k) e d in ground (arith, back)
        ]
      ]

-- One of the two names comes before the other.
abbrev pub AreApart : String → String → Type 0
AreApart s t = (less s t ≡ true) ⊎ (less t s ≡ true)

apart_sym : (s t : String) → AreApart s t → AreApart t s
apart_sym s t (inl h) = inr h
apart_sym s t (inr h) = inl h

module _ {M : Type 0} where
  abbrev pub IsApart : String → String × M → Type 0
  IsApart s e = AreApart s e.0

  -- No two entries have one name.
  abbrev pub AreDistinct : List (String × M) → Type 0
  AreDistinct [] = Unit
  AreDistinct (e ∷ entries) = All (IsApart e.0) entries × AreDistinct entries

  add_comm :
      (s t : String) (f g : M) (r : StorageType M)
      → AreApart s t
      → add s f (add t g r) ≡ add t g (add s f r)
  add_comm s t f g r (inl h) = add_before s t f g r h
  add_comm s t f g r (inr h) = sym (add_before t s g f r h)

  All-perm :
      (s : String) {xs ys : List (String × M)}
      → Permᴰ xs ys
      → All (IsApart s) xs
      → All (IsApart s) ys
  All-perm s Permᴰ.nil h = tt
  All-perm s (Permᴰ.cons e d) (a, h) = (subst (IsApart s) e a, All-perm s d h)
  All-perm s (Permᴰ.swap e d) (a, (b, h)) = (subst (IsApart s) d b, (subst (IsApart s) e a, h))
  All-perm s (Permᴰ.trans d e) h = All-perm s e (All-perm s d h)

  AreDistinct-perm : {xs ys : List (String × M)} → Permᴰ xs ys → AreDistinct xs → AreDistinct ys
  AreDistinct-perm Permᴰ.nil h = tt
  AreDistinct-perm (Permᴰ.cons {a} {b} {l₁} {l₂} e d) (a_apart, h) =
      (subst (λ c. All (IsApart c.0) l₂) e (All-perm a.0 d a_apart), AreDistinct-perm d h)
  AreDistinct-perm (Permᴰ.swap {a} {b} {a'} {b'} {l} e d) ((ab, al), (bl, h)) = (
    (
      subst (λ c. IsApart c.0 b') d (subst (IsApart b.0) e (apart_sym a.0 b.0 ab)),
      subst (λ c. All (IsApart c.0) l) d bl,
    ),
    (subst (λ c. All (IsApart c.0) l) e al, h),
  )
  AreDistinct-perm (Permᴰ.trans d e) h = AreDistinct-perm e (AreDistinct-perm d h)

  -- The order of registrations of distinct names does not matter.
  pub add_each-perm :
      {xs ys : List (String × M)}
      → Permᴰ xs ys
      → AreDistinct xs
      → (storage : StorageType M) → add_each xs storage ≡ add_each ys storage
  unfolding add_each
  add_each-perm Permᴰ.nil h storage = refl
  add_each-perm (Permᴰ.cons {a} {b} {l₁} {l₂} e d) (apart, h) storage =
      add_each-perm d h (add a.0 a.1 storage) ∙ ap (λ c. add_each l₂ (add c.0 c.1 storage)) e
  add_each-perm (Permᴰ.swap {a} {b} {a'} {b'} {l} e d) ((ab, al), (bl, h)) storage =
      ap (add_each l) (sym (add_comm a.0 b.0 a.1 b.1 storage ab))
      ∙ ap (λ c. add_each l (add c.0 c.1 (add b.0 b.1 storage))) e
      ∙ ap (λ c. add_each l (add b'.0 b'.1 (add c.0 c.1 storage))) d
  add_each-perm (Permᴰ.trans d e) h storage =
      add_each-perm d h storage ∙ add_each-perm e (AreDistinct-perm d h) storage

module _ {W : Type 0} where
  -- The world after the methods, one after the other.
  abbrev pub called : StorageType (StatisticMethod W) → Db → ℕ → W → W
  called [] db last w = w
  called ((name, method) ∷ rest) db last w = called rest db last (method db last w).1

  each_method-called :
      (methods : StorageType (StatisticMethod W)) (db : Db) (last : ℕ) (w : W)
      → each_method methods db last w ≡ (ok tt, called methods db last w)
  unfolding each_method
  each_method-called [] db last w = refl
  each_method-called ((name, method) ∷ rest) db last w = elim (Result-cases (method db last w).0) [
    | inl (t, e) ↦ ground (arith, each_method-called rest db last (method db last w).1)
    | inr (x, e) ↦ ground (arith, each_method-called rest db last (method db last w).1)
  ]

module _ {J W : Type 0} ⦃lib : JsonLib J⦄ (driver : Driver J W) where
  -- A round returns and has called every method, or its exception comes from the time.
  pub statistics_round-called :
      (methods : StorageType (StatisticMethod W)) (db : Db) (w w' : W) (state : J)
      → get_block_history_state driver db w ≡ (ok state, w')
      → ((last : ℕ) × (last_time state ≡ ok last)
          × (statistics_round driver methods db w ≡ (ok tt, called methods db last w')))
        ⊎ ((e : Exception) × (last_time state ≡ throw e)
            × (statistics_round driver methods db w ≡ (throw e, w')))
  unfolding statistics_round
  statistics_round-called methods db w w' state got = elim (Result-cases (last_time state)) [
    | inl (last, e) ↦ inl (last, e, ground (arith, got, each_method-called methods db last w'))
    | inr (x, e) ↦ inr (x, e, ground (arith, got))
  ]
