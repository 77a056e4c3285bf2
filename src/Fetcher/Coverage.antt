-- ===== src/Fetcher/Coverage.antt =====
-- No block is left out, in whatever order the main loop and the threads take their steps:
-- common/src/fetcher.cpp.
use mile_explorer.Common.{
  ℕ, zero, suc, ◌+◌, ◌-◌, ◌≤◌, ◌<◌, ◌≡◌, ◌⊎◌, inl, inr, Option, none, some, List, [], ◌∷◌, ◌++◌,
  arith, ltb, not, ◌&&◌, Bool-cases, subst,
}
use mile_explorer.Common.Lists.{All}
use mile_explorer.Fetcher.{
  Fetching, fetch_blocks, ids_from, main_round, begin_job, end_job, Step, round, begins, ends,
  Reachable, starts, steps,
}

-- The id is in the list.
abbrev pub IsIn : ℕ → List ℕ → Type 0
IsIn i [] = ⊥
IsIn i (j ∷ js) = (i ≡ j) ⊎ IsIn i js

IsIn-append_left : (i : ℕ) (xs ys : List ℕ) → IsIn i xs → IsIn i (xs ++ ys)
IsIn-append_left i [] ys h = elim h [ ]
IsIn-append_left i (x ∷ xs) ys (inl e) = inl e
IsIn-append_left i (x ∷ xs) ys (inr h) = inr (IsIn-append_left i xs ys h)

IsIn-append_right : (i : ℕ) (xs ys : List ℕ) → IsIn i ys → IsIn i (xs ++ ys)
IsIn-append_right i [] ys h = h
IsIn-append_right i (x ∷ xs) ys h = inr (IsIn-append_right i xs ys h)

first_or_later : (from i : ℕ) → from ≤ i → (i ≡ from) ⊎ (suc from ≤ i)
first_or_later from i h = ground arith

IsIn-ids_from : (n from i : ℕ) → from ≤ i → i < from + n → IsIn i (ids_from n from)
IsIn-ids_from zero from i h k = absurd (omega arith)
IsIn-ids_from (suc n) from i h k = elim (first_or_later from i h) [
  | inl e ↦ inl e
  | inr l ↦ inr (IsIn-ids_from n (suc from) i l (omega arith))
]

-- The loop of `fetch_blocks` meets every id from the first to the last, both included.
IsIn-fetch_blocks : (from to i : ℕ) → from ≤ i → i ≤ to → IsIn i (fetch_blocks from to)
unfolding fetch_blocks
IsIn-fetch_blocks from to i h k = IsIn-ids_from (suc to - from) from i h (omega arith)

-- From the first id up to this one, this one excluded, all are requested.
abbrev pub Covers : ℕ → List ℕ → ℕ → Type 0
Covers block_id requested bound = (i : ℕ) → block_id ≤ i → i < bound → IsIn i requested

-- What every step keeps: the ids below `first` are requested, and those below the id that a running
-- job began with.
record IsCovered (block_id : ℕ) (s : Fetching) : Type 0 where
  below_first : Covers block_id s.requested s.first
  below_jobs : All (λ (job : ℕ × ℕ). Covers block_id s.requested job.0) s.running

below_or_from : (i from : ℕ) → (i < from) ⊎ (from ≤ i)
below_or_from i from = ground arith

Covers-more :
    (block_id bound : ℕ) (xs ys : List ℕ)
    → Covers block_id xs bound
    → Covers block_id (xs ++ ys) bound
Covers-more block_id bound xs ys h i p q = IsIn-append_left i xs ys (h i p q)

-- The ids of a job that ends close up with those below the id that it began with.
Covers-job :
    (block_id from last : ℕ) (xs : List ℕ)
    → Covers block_id xs from
    → Covers block_id (xs ++ fetch_blocks from last) last
Covers-job block_id from last xs h i p q = elim (below_or_from i from) [
  | inl l ↦ IsIn-append_left i xs (fetch_blocks from last) (h i p l)
  | inr l ↦
      IsIn-append_right i xs (fetch_blocks from last)
        (IsIn-fetch_blocks from last i l (omega arith))
]

module _ {A : Type 0} (P : A → Type 0) where
  All-middle : (xs : List A) (y : A) (ys : List A) → All P (xs ++ y ∷ ys) → P y × All P (xs ++ ys)
  All-middle [] y ys (h, hs) = (h, hs)
  All-middle (x ∷ xs) y ys (h, hs) = let (this, rest) = All-middle xs y ys hs in (this, (h, rest))

module _ {A : Type 0} (P Q : A → Type 0) (f : (a : A) → P a → Q a) where
  All-map : (xs : List A) → All P xs → All Q xs
  All-map [] h = tt
  All-map (x ∷ xs) (h, hs) = (f x h, All-map xs hs)

IsCovered-main_round :
    (block_id : ℕ) (next : Option ℕ) (s : Fetching)
    → IsCovered block_id s
    → IsCovered block_id (main_round next s)
unfolding main_round
IsCovered-main_round block_id none s h = h
IsCovered-main_round block_id (some last) s h =
    elim (Bool-cases (not s.is_active && ltb s.first last)) [
      | inl e ↦ rw e (record { below_first = h.below_first; below_jobs = h.below_jobs })
      | inr e ↦ rw e h
    ]

IsCovered-begin_job :
    (block_id last : ℕ) (rest : List ℕ) (s : Fetching)
    → IsCovered block_id s
    → IsCovered block_id (begin_job last rest s)
unfolding begin_job
IsCovered-begin_job block_id last rest s h = record {
  below_first = h.below_first;
  below_jobs = (h.below_first, h.below_jobs);
}

IsCovered-end_job :
    (block_id from last : ℕ) (before after : List (ℕ × ℕ)) (s : Fetching)
    → s.running ≡ before ++ (from, last) ∷ after
    → IsCovered block_id s
    → IsCovered block_id (end_job from last (before ++ after) s)
unfolding end_job
IsCovered-end_job block_id from last before after s e h =
    let is_below : ℕ × ℕ → Type 0 = λ job. Covers block_id s.requested job.0 in
    let still_below : ℕ × ℕ → Type 0 =
      λ job. Covers block_id (s.requested ++ fetch_blocks from last) job.0 in
    let jobs = subst (All is_below) e h.below_jobs in
    let (this, others) = All-middle is_below before (from, last) after jobs in
    record {
      below_first = Covers-job block_id from last s.requested this;
      below_jobs =
          All-map is_below still_below
            (λ job. Covers-more block_id job.0 s.requested (fetch_blocks from last))
            (before ++ after) others;
    }

IsCovered-Step :
    (block_id : ℕ) (s t : Fetching) → Step s t → IsCovered block_id s → IsCovered block_id t
IsCovered-Step block_id s t (round next) h = IsCovered-main_round block_id next s h
IsCovered-Step block_id s t (begins last rest e) h = IsCovered-begin_job block_id last rest s h
IsCovered-Step block_id s t (ends from last before after e) h =
    IsCovered-end_job block_id from last before after s e h

IsCovered-Reachable : (block_id : ℕ) (s : Fetching) → Reachable block_id s → IsCovered block_id s
IsCovered-Reachable block_id s starts = record {
  below_first = λ i p q. absurd (omega (arith, p, q));
  below_jobs = tt;
}
IsCovered-Reachable block_id t (steps {s} reached step) =
    IsCovered-Step block_id s t step (IsCovered-Reachable block_id s reached)

-- In every order of the steps of the main loop and of the threads of the fetching task, every
-- block id from the one that the indexer starts at up to first, this one excluded, has been
-- requested.
pub first-Reachable :
    (block_id i : ℕ) (s : Fetching)
    → Reachable block_id s
    → block_id ≤ i
    → i < s.first
    → IsIn i s.requested
first-Reachable block_id i s reached p q =
    (IsCovered-Reachable block_id s reached).below_first i p q
