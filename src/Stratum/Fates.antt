-- ===== src/Stratum/Fates.antt =====
-- src/stratum/stratum.cpp: what becomes of a request.
use monero_solo_stratum.Common.{
  ℕ, ◌+◌, ◌≡◌, ◌≢◌, refl, sym, subst, Bool, false, ◌&&◌, Option, List, [], ◌∷◌, ◌++◌, ◌==◌, ==_iff,
  arith,
}
use monero_solo_stratum.Common.Map.{one_if, same_text}
use monero_solo_stratum.Defense.{AbuseKind}
use monero_solo_stratum.Stratum.Connections.{Connection, forget_id}
use monero_solo_stratum.Stratum.Submits.{PendingSubmit, CompletedSubmit, Server, update}
use monero_solo_stratum.Stratum.Replies.{IsAnswered}

abbrev pub is_request : List ℕ → ℕ → List ℕ → ℕ → Bool
is_request key index k i = index == i && same_text key k

abbrev pub count_results : List ℕ → ℕ → List CompletedSubmit → ℕ
count_results k i [] = 0
count_results k i (r ∷ rs) =
    one_if (is_request r.request_key r.connection k i) + count_results k i rs

pub update_own :
    (connections : ℕ → Connection) (id : ℕ) (c : Connection) → update connections id c id ≡ c
update_own connections id c = ground (arith, ==_iff id id)

pub update_other :
    (connections : ℕ → Connection) (id : ℕ) (c : Connection) (other : ℕ)
    → other ≢ id
    → update connections id c other ≡ connections other
update_other connections id c other away = ground (arith, ==_iff other id)

module _ {S : Type 0} where
  abbrev pub count_requests : List ℕ → ℕ → List (PendingSubmit S) → ℕ
  count_requests k i [] = 0
  count_requests k i (p ∷ ps) =
      one_if (is_request p.request_key p.connection k i) + count_requests k i ps

  pub count_requests-append :
      (k : List ℕ) (i : ℕ) (xs ys : List (PendingSubmit S))
      → count_requests k i (xs ++ ys) ≡ count_requests k i xs + count_requests k i ys
  count_requests-append k i [] ys = omega arith
  count_requests-append k i (x ∷ xs) ys = omega (arith, count_requests-append k i xs ys)

  -- The submissions of a connection under way that answer to a key.
  abbrev pub held : List ℕ → ℕ → Server S → ℕ
  held k i s =
      count_requests k i s.pending_submits
      + count_requests k i s.pending_candidate_submits
      + count_requests k i s.working
      + count_results k i s.completed_submits

  -- A handler of the request with the key, whose id is live before.
  pub data Handled (key : List ℕ) (index : ℕ) (s r : Server S) : Type 0 where
    stopped : r.running ≡ false → Handled key index s r
    answered_once :
        ((other : ℕ) → other ≢ index → r.connections other ≡ s.connections other)
        → ((k : List ℕ) (i : ℕ) → held k i r ≡ held k i s)
        → IsAnswered
            (s.connections index)
            (r.connections index)
            (forget_id key (s.connections index).live_request_ids)
        → Handled key index s r
    queued :
        ((other : ℕ) → other ≢ index → r.connections other ≡ s.connections other)
        → ((k : List ℕ) (i : ℕ) → held k i r ≡ held k i s + one_if (is_request key index k i))
        → (r.connections index).live_request_ids ≡ (s.connections index).live_request_ids
        → (r.connections index).output ≡ (s.connections index).output
        → (r.connections index).pending_submits ≡ (s.connections index).pending_submits + 1
        → Handled key index s r

  -- One connection is changed.
  pub changed-Handled :
      (key : List ℕ) (index : ℕ) (d : Connection) (running : Bool)
      (recorded : Option (List (ℕ × AbuseKind))) (s : Server S)
      → IsAnswered (s.connections index) d (forget_id key (s.connections index).live_request_ids)
      → Handled key index s (record s {
        running = running;
        connections = update s.connections index d;
        recorded = recorded;
      })
  changed-Handled key index d running recorded s h =
      answered_once (update_other s.connections index d) (λ k i. refl)
        (subst
          (λ (e : Connection).
            IsAnswered (s.connections index) e
              (forget_id key (s.connections index).live_request_ids))
          (sym (update_own s.connections index d)) h)
