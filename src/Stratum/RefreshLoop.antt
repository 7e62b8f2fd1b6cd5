-- ===== src/Stratum/RefreshLoop.antt =====
-- src/stratum/stratum.cpp: new jobs for the miners of the table.
use monero_solo_stratum.Common.{
  ℕ, ◌≡◌, ◌≢◌, refl, sym, ◌∙◌, ap, subst, Bool, true, false, ◌||◌, Option, none, some, List, [],
  ◌∷◌, ◌++◌, ◌==◌, ==_iff, if◌then◌else◌, occurs, arith,
}
use monero_solo_stratum.Stratum.Connections.{Connection}
use monero_solo_stratum.Stratum.Config.{StratumServerConfig}
use monero_solo_stratum.Stratum.Submits.{JobAnswer, provider_failed, Responses, Server}
use monero_solo_stratum.Stratum.Requests.{set_connection}
use monero_solo_stratum.Stratum.JobMemory.{IsRemembering}
use monero_solo_stratum.Stratum.Fates.{update_own, update_other}
use monero_solo_stratum.Stratum.Upkeep.{visited, refresh_connection, refresh_jobs_now}
use monero_solo_stratum.Stratum.Refresh.{
  is_due, IsRefreshed, skipped, no_job, full, callback_failed, informed,
  refresh_connection-IsRefreshed, refresh_connection-throws,
}

-- The connections of the table, each once.
abbrev pub IsTable : List ℕ → Type 0
IsTable [] = Unit {0}
IsTable (x ∷ xs) = (occurs x xs ≡ false) × IsTable xs

-- What is not in a list is not in a part of it.
absent_before :
    (x : ℕ) (before : List ℕ) (at : ℕ) (after : List ℕ)
    → occurs x (before ++ at ∷ after) ≡ false
    → (occurs x before ≡ false) × (at ≢ x)
absent_before x [] at after h = (refl, λ same. ground (arith, h, ==_iff at x, same))
absent_before x (y ∷ ys) at after h =
    let rest = absent_before x ys at after (ground (arith, h)) in
    (ground (arith, h, rest.0), rest.1)

module _ (t : Responses) (config : StratumServerConfig) where
  out_of_turn :
      (jobs : Connection → JobAnswer) (c d : Connection)
      → IsRefreshed t config jobs false c d
      → d ≡ c
  out_of_turn jobs c d (skipped due e) = e
  out_of_turn jobs c d (no_job due e h) = absurd (ground arith)
  out_of_turn jobs c d (full job due e f h) = absurd (ground arith)
  out_of_turn jobs c d (callback_failed job due e f had h s) = absurd (ground arith)
  out_of_turn jobs c d (informed job due e h) = absurd (ground arith)

module _ {S : Type 0} (t : Responses) (config : StratumServerConfig) where
  -- What comes of new jobs for the connections of the table, in its order.
  pub data RefreshResult (jobs : Connection → JobAnswer) (active : List ℕ) (s r : Server S)
      : Type 0 where
    completes :
        r.running ≡ true
        → ((index : ℕ)
            → IsRefreshed t config jobs
                (occurs index active)
                (s.connections index)
                (r.connections index))
        → RefreshResult jobs active s r
    fails :
        (before : List ℕ) (at : ℕ) (after : List ℕ)
        → active ≡ before ++ at ∷ after
        → is_due t config true (s.connections at) ≡ true
        → jobs (s.connections at) ≡ provider_failed
        → r.running ≡ false
        → ((index : ℕ)
            → IsRefreshed t config jobs
                (occurs index before)
                (s.connections index)
                (r.connections index))
        → RefreshResult jobs active s r

  -- The connection x had its turn before those of the list.
  with_first :
      (jobs : Connection → JobAnswer) (x : ℕ) (list : List ℕ) (c : Connection) (s r : Server S)
      → occurs x list ≡ false
      → IsRefreshed t config jobs true (s.connections x) c
      → ((index : ℕ)
          → IsRefreshed t config jobs
              (occurs index list)
              ((set_connection x c s).connections index)
              (r.connections index))
      → (index : ℕ)
      → IsRefreshed t config jobs
          (occurs index (x ∷ list))
          (s.connections index)
          (r.connections index)
  with_first jobs x list c s r absent first rest index = go (x == index) refl
    where
      next : ℕ → Connection
      next = (set_connection x c s).connections

      last : r.connections x ≡ c
      last =
          out_of_turn t config jobs (next x) (r.connections x) (
            subst (λ (b : Bool). IsRefreshed t config jobs b (next x) (r.connections x)) absent
              (rest x))
          ∙ update_own s.connections x c

      go :
          (here : Bool)
          → (x == index) ≡ here
          → IsRefreshed t config jobs
              (here || occurs index list)
              (s.connections index)
              (r.connections index)
      go true e =
          subst (λ (i : ℕ). IsRefreshed t config jobs true (s.connections i) (r.connections i))
            ((==_iff x index).0 e)
            (subst (IsRefreshed t config jobs true (s.connections x)) (sym last) first)
      go false e =
          subst
            (λ (d : Connection).
              IsRefreshed t config jobs (occurs index list) d (r.connections index))
            (update_other s.connections x c index (λ same. ground (arith, e, ==_iff x index, same)))
            (rest index)

  module _ (jobs : Connection → JobAnswer) (x : ℕ) (xs : List ℕ) (s : Server S)
      (absent : occurs x xs ≡ false) where
    none_visited :
        refresh_connection t config jobs (s.connections x) ≡ none
        → RefreshResult jobs (x ∷ xs) s (record s { running = false })
    none_visited e =
        let failed = refresh_connection-throws t config jobs (s.connections x) e in
        fails [] x xs refl failed.0 failed.1 refl (λ index. skipped refl refl)

    some_visited :
        (c : Connection) (r : Server S)
        → IsRefreshed t config jobs true (s.connections x) c
        → RefreshResult jobs xs (set_connection x c s) r
        → RefreshResult jobs (x ∷ xs) s r
    some_visited c r first (completes up rest) =
        completes up (with_first jobs x xs c s r absent first rest)
    some_visited c r first (fails before at after split due threw down rest) =
        let apart = absent_before x before at after (ap (occurs x) (sym split) ∙ absent) in
        let same = update_other s.connections x c at apart.1 in
        fails (x ∷ before) at after (ap (λ (l : List ℕ). x ∷ l) split)
          (ap (is_due t config true) (sym same) ∙ due) (ap jobs (sym same) ∙ threw) down
          (with_first jobs x before c s r apart.0 first rest)

  -- While the server runs, the table has each connection once, and the remembered ids of each are those
  -- of its table, each once and at most 64, new jobs come to the connections one after the other. A
  -- connection whose turn comes and which is authenticated and not closing is closed when there is no
  -- job for it or the notification does not fit into its output; otherwise the notification of its job,
  -- with the target for the connection's difficulty, follows its output, its sent height and its queued
  -- height are that of the job, its live ids are as before, and it remembers the job's network
  -- difficulty, where there is one, among at most 64; and then it is closed when the callback of the
  -- job fails. Any other connection is as it was. Either the turn of every connection of the
  -- table comes, and the server still runs, or the job provider throws for an authenticated connection
  -- that is not closing: then the server stops, and only the connections before that one had their turn.
  pub refresh_jobs_now-RefreshResult :
      (jobs : Connection → JobAnswer) (active : List ℕ) (s : Server S)
      → s.running ≡ true
      → IsTable active
      → ((index : ℕ) → occurs index active ≡ true → IsRemembering (s.connections index))
      → RefreshResult jobs active s (refresh_jobs_now t config jobs active s)
  unfolding refresh_jobs_now
  refresh_jobs_now-RefreshResult jobs [] s up table inv = completes up (λ index. skipped refl refl)
  refresh_jobs_now-RefreshResult jobs (x ∷ xs) s up table inv =
      subst
        (λ (b : Bool). RefreshResult jobs (x ∷ xs) s (
          if b
          then visited t config x (λ next. refresh_jobs_now t config jobs xs next)
              (refresh_connection t config jobs (s.connections x)) s
          else s))
        (sym up)
        (go (refresh_connection t config jobs (s.connections x)) refl
          (λ c h. refresh_jobs_now-RefreshResult jobs xs (set_connection x c s) up table.1 h))
    where
      go :
          (o : Option Connection)
          → refresh_connection t config jobs (s.connections x) ≡ o
          → ((c : Connection)
              → ((index : ℕ)
                  → occurs index xs ≡ true
                  → IsRemembering ((set_connection x c s).connections index))
              → RefreshResult jobs xs
                  (set_connection x c s)
                  (refresh_jobs_now t config jobs xs (set_connection x c s)))
          → RefreshResult jobs
              (x ∷ xs)
              s
              (visited t config x (λ next. refresh_jobs_now t config jobs xs next) o s)
      go none e rest = none_visited jobs x xs s table.0 e
      go (some c) e rest =
          some_visited jobs x xs s table.0 c _
            (refresh_connection-IsRefreshed t config jobs (s.connections x) c
              (inv x (ground (arith, ==_iff x x))) e)
            (rest c (λ index member.
              subst IsRemembering
                (sym (
                  update_other s.connections x c index
                    (λ same. absurd (ground (arith, member, table.0, same)))))
                (inv index (ground arith))))
