-- ===== src/Stratum/JobMemory.antt =====
-- src/stratum/stratum.cpp: the jobs whose network difficulty a connection remembers.
use monero_solo_stratum.Common.{
  ℕ, ◌≤◌, ◌<◌, ◌≡◌, ◌≢◌, refl, sym, ◌∙◌, subst, Bool, true, false, ◌||◌, some, List, [], ◌∷◌, ◌++◌,
  ltb, if◌then◌else◌, length, length-append, arith,
}
use monero_solo_stratum.Common.Map.{
  Map, text_eq, same_text, same_text_iff, lookup, insert, erase, lookup-insert, lookup-erase,
}
use monero_solo_stratum.Stratum.Connections.{Connection, forget_oldest, is_known, remember_job}

abbrev pub mem : List ℕ → List (List ℕ) → Bool
mem id [] = false
mem id (x ∷ xs) = same_text x id || mem id xs

abbrev pub IsDistinct : List (List ℕ) → Type 0
IsDistinct [] = Unit {0}
IsDistinct (x ∷ xs) = (mem x xs ≡ false) × IsDistinct xs

mem-append :
    (id j : List ℕ) (xs : List (List ℕ)) → mem id (xs ++ j ∷ []) ≡ (mem id xs || same_text j id)
mem-append id j [] = ground arith
mem-append id j (x ∷ xs) = ground (arith, mem-append id j xs)

IsDistinct-append :
    (j : List ℕ) (xs : List (List ℕ)) → mem j xs ≡ false → IsDistinct xs → IsDistinct (xs ++ j ∷ [])
IsDistinct-append j [] h d = (refl, tt)
IsDistinct-append j (x ∷ xs) h d = (
  ground (arith, mem-append x j xs, d.0, same_text_iff j x, same_text_iff x j),
  IsDistinct-append j xs (ground arith) d.1,
)

-- The remembered ids are those of the map, each once.
pub record JobsOf (order : List (List ℕ)) (jobs : Map (List ℕ) (List ℕ)) : Type 0 where
  pub distinct : IsDistinct order
  pub same : (id : List ℕ) → is_known (lookup id jobs) ≡ mem id order

insert_known-JobsOf :
    (j v : List ℕ) (order : List (List ℕ)) (jobs : Map (List ℕ) (List ℕ))
    → mem j order ≡ true
    → JobsOf order jobs
    → JobsOf order (insert j v jobs)
insert_known-JobsOf j v order jobs h inv = record {
  distinct = inv.distinct;
  same = λ id. ground (arith, lookup-insert j id v jobs, inv.same id, same_text_iff j id);
}

insert_new-JobsOf :
    (j v : List ℕ) (order : List (List ℕ)) (jobs : Map (List ℕ) (List ℕ))
    → mem j order ≡ false
    → JobsOf order jobs
    → JobsOf (order ++ j ∷ []) (insert j v jobs)
insert_new-JobsOf j v order jobs h inv = record {
  distinct = IsDistinct-append j order h inv.distinct;
  same = λ id. ground (arith, lookup-insert j id v jobs, inv.same id, mem-append id j order);
}

erase-JobsOf :
    (x : List ℕ) (xs : List (List ℕ)) (jobs : Map (List ℕ) (List ℕ))
    → JobsOf (x ∷ xs) jobs
    → JobsOf xs (erase x jobs)
erase-JobsOf x xs jobs inv = record {
  distinct = inv.distinct.1;
  same =
      λ id. ground (arith, lookup-erase x id jobs, inv.same id, inv.distinct.0, same_text_iff x id);
}

forget_short :
    (ids : List (List ℕ)) (jobs : Map (List ℕ) (List ℕ))
    → length ids ≤ 64
    → forget_oldest ids jobs ≡ (ids, jobs)
unfolding forget_oldest
forget_short [] jobs h = refl
forget_short (x ∷ xs) jobs h = ground arith

-- What is remembered is at most 64 jobs, with the value of one of them.
pub record Kept (j v : List ℕ) (r : List (List ℕ) × Map (List ℕ) (List ℕ)) : Type 0 where
  pub jobs : JobsOf r.0 r.1
  pub few : length r.0 ≤ 64
  pub found : lookup j r.1 ≡ some v

erase-Kept :
    (j x v : List ℕ) (xs : List (List ℕ)) (jobs : Map (List ℕ) (List ℕ))
    → JobsOf (x ∷ xs) jobs
    → length xs ≤ 64
    → x ≢ j
    → lookup j jobs ≡ some v
    → Kept j v (xs, erase x jobs)
erase-Kept j x v xs jobs inv short other found = record {
  jobs = erase-JobsOf x xs jobs inv;
  few = short;
  found = ground (arith, lookup-erase x j jobs, same_text_iff x j);
}

forget_oldest-Kept :
    (j v : List ℕ) (order : List (List ℕ)) (jobs : Map (List ℕ) (List ℕ))
    → JobsOf order jobs
    → length order ≤ 65
    → ((x : List ℕ) (xs : List (List ℕ)) → order ≡ x ∷ xs → 64 < length order → x ≢ j)
    → lookup j jobs ≡ some v
    → Kept j v (forget_oldest order jobs)
unfolding forget_oldest
forget_oldest-Kept j v [] jobs inv short front found = record {
  jobs = inv;
  few = omega arith;
  found = found;
}
forget_oldest-Kept j v (x ∷ xs) jobs inv short front found = go (ltb 64 (length (x ∷ xs))) refl
  where
    go :
        (b : Bool)
        → ltb 64 (length (x ∷ xs)) ≡ b
        → Kept j v (if b then forget_oldest xs (erase x jobs) else (x ∷ xs, jobs))
    go true e =
        subst (Kept j v) (sym (forget_short xs (erase x jobs) (omega arith)))
          (erase-Kept j x v xs jobs inv (omega arith) (front x xs refl (ground arith)) found)
    go false e = record { jobs = inv; few = ground arith; found = found }

front_is_old :
    (j x : List ℕ) (old xs : List (List ℕ))
    → old ++ j ∷ [] ≡ x ∷ xs
    → 64 < length (old ++ j ∷ [])
    → mem j old ≡ false
    → x ≢ j
front_is_old j x [] xs e long new = absurd (omega arith)
front_is_old j x (y ∷ ys) xs e long new =
    λ same. let equal : y ≡ j = cc in ground (arith, (same_text_iff y j).1 equal)

abbrev pub IsRemembering : Connection → Type 0
IsRemembering c =
    JobsOf c.job_difficulty_order c.job_network_difficulties × length c.job_difficulty_order ≤ 64

-- When a connection's remembered ids are those of its table, each once and at most 64, this holds
-- again after a job with a network difficulty is remembered, and the table then has this difficulty
-- for the job.
pub remember_job-Kept :
    (j : List ℕ) (b : ℕ) (difficulty : List ℕ) (c : Connection)
    → IsRemembering c
    → Kept j (b ∷ difficulty) (
      (remember_job j (b ∷ difficulty) c).job_difficulty_order,
      (remember_job j (b ∷ difficulty) c).job_network_difficulties,
    )
unfolding remember_job
remember_job-Kept j b difficulty c h = go (is_known (lookup j c.job_network_difficulties)) refl
  where
    order : List (List ℕ)
    order = c.job_difficulty_order

    jobs : Map (List ℕ) (List ℕ)
    jobs = c.job_network_difficulties

    v : List ℕ
    v = b ∷ difficulty

    found : lookup j (insert j v jobs) ≡ some v
    found = ground (arith, lookup-insert j j v jobs, same_text_iff j j)

    go :
        (known : Bool)
        → is_known (lookup j jobs) ≡ known
        → Kept j v (forget_oldest (if known then order else order ++ j ∷ []) (insert j v jobs))
    go true e =
        forget_oldest-Kept j v order (insert j v jobs)
          (insert_known-JobsOf j v order jobs (sym (h.0.same j) ∙ e) h.0) (omega arith)
          (λ x xs s long. absurd (omega arith)) found
    go false e =
        let new = sym (h.0.same j) ∙ e in
        forget_oldest-Kept j v (order ++ j ∷ []) (insert j v jobs)
          (insert_new-JobsOf j v order jobs new h.0)
          (omega (arith, length-append order (j ∷ []), h.1))
          (λ x xs s long. front_is_old j x order xs s long new) found
