-- ===== src/Stratum/LiveIds.antt =====
-- src/stratum/stratum.cpp: the live request ids of a connection, and the ids of its submissions.
use monero_solo_stratum.Common.{
  ℕ, ◌+◌, ◌≡◌, ◌≢◌, refl, sym, ◌∙◌, ap, subst, Bool, true, false, ◌||◌, List, [], ◌∷◌, ◌++◌, ◌==◌,
  ==_iff, if◌then◌else◌, arith,
}
use monero_solo_stratum.Common.Map.{one_if, same_text, same_text_iff}
use monero_solo_stratum.Stratum.Targets.{ShareDisposition}
use monero_solo_stratum.Stratum.Connections.{Connection, close_connection}
use monero_solo_stratum.Stratum.Submits.{
  PendingSubmit, CompletedSubmit, Server, update, take_work, complete_work,
}
use monero_solo_stratum.Stratum.Output.{close_connection_lem}
use monero_solo_stratum.Stratum.SubmitCounts.{update_at}
use monero_solo_stratum.Stratum.Json.{is_in}
use monero_solo_stratum.Stratum.Replies.{IsAnswered, closed, replied}
use monero_solo_stratum.Stratum.Fates.{
  is_request, count_requests, count_results, count_requests-append, held,
}
use monero_solo_stratum.Stratum.LineFates.{LineFate, ended, settled, waits}

pub count_results-append :
    (k : List ℕ) (i : ℕ) (xs ys : List CompletedSubmit)
    → count_results k i (xs ++ ys) ≡ count_results k i xs + count_results k i ys
count_results-append k i [] ys = omega arith
count_results-append k i (x ∷ xs) ys = omega (arith, count_results-append k i xs ys)

-- An id of an open connection is live when one of its submissions under way answers to it, and no two
-- answer to the same; `left` are the results of which the loop is not yet done.
module _ {S : Type 0} where
  abbrev pub IdsAt : List CompletedSubmit → Server S → ℕ → Connection → Type 0
  IdsAt left s i c =
      c.closing ≡ false
      → (k : List ℕ) → one_if (is_in k c.live_request_ids) ≡ held k i s + count_results k i left

  abbrev pub LiveIds : List CompletedSubmit → Server S → Type 0
  LiveIds left s = s.running ≡ true → (i : ℕ) → IdsAt left s i (s.connections i)

pub not_request :
    (key : List ℕ) (index : ℕ) (k : List ℕ) (i : ℕ)
    → i ≢ index
    → one_if (is_request key index k i) ≡ 0
not_request key index k i away = ground (arith, ==_iff index i)

pub own_request :
    (key : List ℕ) (index : ℕ) (k : List ℕ)
    → one_if (is_request key index k index) ≡ one_if (same_text key k)
own_request key index k = ground (arith, ==_iff index index)

pub open_not_closing : (b : Bool) → b ≡ true → b ≡ false → ⊥
open_not_closing b h e = cc

-- A live id that is released was held once.
pub released_id :
    (b same : Bool) (held_ : ℕ)
    → one_if b ≡ held_ + one_if same
    → one_if (if same then false else b) ≡ held_
released_id b same held_ h = ground arith

-- An id that was not live becomes live.
added_id :
    (b same : Bool) (held_ : ℕ)
    → (same ≡ true → b ≡ false)
    → one_if b ≡ held_
    → one_if (same || b) ≡ held_ + one_if same
added_id b same held_ new h = ground arith

-- A step that moves submissions keeps their number.
moved-LiveIds :
    {S : Type 0} (s r : Server S)
    → r.running ≡ s.running
    → r.connections ≡ s.connections
    → ((k : List ℕ) (i : ℕ) → held k i r ≡ held k i s)
    → LiveIds [] s
    → LiveIds [] r
moved-LiveIds s r up same equal inv run i live k =
    ap (λ (f : ℕ → Connection). one_if (is_in k (f i).live_request_ids)) same
    ∙ inv (sym up ∙ run) i (ap (λ (f : ℕ → Connection). (f i).closing) (sym same) ∙ live) k
    ∙ omega (arith, equal k i)

at_or_away {ℓ} : (i index : ℕ) (P : ℕ → Type ℓ) → P index → (i ≢ index → P i) → P i
at_or_away i index P here away = go (i == index) refl
  where
    go : (b : Bool) → (i == index) ≡ b → P i
    go true e = subst P (sym ((==_iff i index).0 e)) here
    go false e = away (λ same. ground (arith, ==_iff i index))

unchanged-IdsAt :
    {S : Type 0} (s r : Server S) (j : ℕ)
    → r.connections j ≡ s.connections j
    → IdsAt [] s j (s.connections j)
    → ((k : List ℕ) → held k j r ≡ held k j s)
    → IdsAt [] r j (r.connections j)
unchanged-IdsAt s r j e inv equal stays k =
    ap (λ (c : Connection). one_if (is_in k c.live_request_ids)) e
    ∙ inv (ap (λ (c : Connection). c.closing) (sym e) ∙ stays) k
    ∙ omega (arith, equal k)

module _ {S : Type 0} where
  pub take_work-LiveIds :
      (candidate_lane : Bool) (s : Server S)
      → LiveIds [] s
      → LiveIds [] (take_work candidate_lane s)
  unfolding take_work
  take_work-LiveIds true s inv = candidate s.pending_candidate_submits refl
    where
      candidate :
          (lane : List (PendingSubmit S))
          → s.pending_candidate_submits ≡ lane
          → LiveIds [] (elim lane [
            | [] ↦ s
            | work ∷ later ↦ record s {
              pending_candidate_submits = later;
              working = s.working ++ work ∷ [];
            }
          ])
      candidate [] e = inv
      candidate (work ∷ later) e =
          moved-LiveIds s
            (record s { pending_candidate_submits = later; working = s.working ++ work ∷ [] }) refl
            refl
            (λ k i.
              omega
                (arith, ap (count_requests k i) e, count_requests-append k i s.working (work ∷ [])))
            inv
  take_work-LiveIds false s inv = ordinary s.pending_submits refl
    where
      ordinary :
          (lane : List (PendingSubmit S))
          → s.pending_submits ≡ lane
          → LiveIds [] (elim lane [
            | [] ↦ s
            | work ∷ later ↦ record s { pending_submits = later; working = s.working ++ work ∷ [] }
          ])
      ordinary [] e = inv
      ordinary (work ∷ later) e =
          moved-LiveIds s (record s { pending_submits = later; working = s.working ++ work ∷ [] })
            refl refl
            (λ k i.
              omega
                (arith, ap (count_requests k i) e, count_requests-append k i s.working (work ∷ [])))
            inv

  pub complete_work-LiveIds :
      (before : List (PendingSubmit S)) (work : PendingSubmit S) (after : List (PendingSubmit S))
      (disposition : ShareDisposition) (internal_code : List ℕ) (s : Server S)
      → s.working ≡ before ++ work ∷ after
      → LiveIds [] s
      → LiveIds [] (complete_work before work after disposition internal_code s)
  unfolding complete_work
  complete_work-LiveIds before work after disposition internal_code s e inv =
      moved-LiveIds s (complete_work before work after disposition internal_code s) refl refl
        (λ k i. omega (
          arith,
          ap (count_requests k i) e,
          count_requests-append k i before (work ∷ after),
          count_requests-append k i before after,
          count_results-append k i s.completed_submits (
              record {
                connection = work.connection;
                request_key = work.request_key;
                disposition = disposition;
                internal_code = internal_code;
              }
              ∷ []),
        ))
        inv

  -- A line that an open connection sent.
  pub LineFate-LiveIds :
      (index : ℕ) (s r : Server S)
      → s.running ≡ true
      → (s.connections index).closing ≡ false
      → LineFate index s r
      → LiveIds [] s
      → LiveIds [] r
  LineFate-LiveIds index s r up live (ended h) inv run i = absurd (open_not_closing _ run h)
  LineFate-LiveIds index s r up live (settled others same h) inv run i =
      at_or_away i index (λ (j : ℕ). IdsAt [] r j (r.connections j)) (here h)
        (λ away. unchanged-IdsAt s r i (others i away) (inv up i) (λ k. same k i))
    where
      here :
          IsAnswered
            (s.connections index)
            (r.connections index)
            (s.connections index).live_request_ids
          → IdsAt [] r index (r.connections index)
      here (closed c) stays k = absurd (open_not_closing _ c stays)
      here (replied p) stays k =
          ap (λ (ids : List (List ℕ)). one_if (is_in k ids)) p.ids
          ∙ inv up index live k
          ∙ omega (arith, same k index)
  LineFate-LiveIds index s r up live (waits key new others more ids output pending) inv run i =
      at_or_away i index (λ (j : ℕ). IdsAt [] r j (r.connections j)) here
        (λ away.
          unchanged-IdsAt s r i (others i away) (inv up i)
            (λ k. omega (arith, more k i, not_request key index k i away)))
    where
      c : Connection
      c = s.connections index

      here : IdsAt [] r index (r.connections index)
      here stays k =
          ap (λ (l : List (List ℕ)). one_if (is_in k l)) ids
          ∙ added_id (is_in k c.live_request_ids) (same_text key k) (held k index s)
              (λ e.
                subst (λ (x : List ℕ). is_in x c.live_request_ids ≡ false)
                  ((same_text_iff key k).0 e) new)
              (inv up index live k ∙ omega arith)
          ∙ omega (arith, more k index, own_request key index k)

  pub close_connection-LiveIds :
      (id : ℕ) (s : Server S)
      → LiveIds [] s
      → LiveIds []
          (record s { connections = update s.connections id (close_connection (s.connections id)) })
  close_connection-LiveIds id s inv run =
      update_at (IdsAt [] s) s.connections id (close_connection (s.connections id))
        (λ other away. inv run other)
        (λ stays k. absurd (open_not_closing _ (close_connection_lem (s.connections id)).2 stays))
