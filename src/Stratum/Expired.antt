-- ===== src/Stratum/Expired.antt =====
-- src/stratum/stratum.cpp: the connections that have expired.
use monero_solo_stratum.Common.{
  either, subst, ℕ, ◌+◌, ◌*◌, ◌≡◌, refl, ◌∙◌, ap, Bool, true, false, ◌&&◌, ◌||◌, List, [], ◌∷◌, leb,
  ◌==◌, ==_iff, if◌then◌else◌, none, occurs, arith,
}
use monero_solo_stratum.Stratum.Connections.{Connection, close_connection}
use monero_solo_stratum.Stratum.Config.{StratumServerConfig}
use monero_solo_stratum.Stratum.Submits.{Server, update}
use monero_solo_stratum.Stratum.Fates.{update_own, update_other}
use monero_solo_stratum.Stratum.Requests.{abort_connection}
use monero_solo_stratum.Stratum.Upkeep.{is_expired, expired_of, close_all, close_expired}

close_connection-twice :
    (c : Connection) → close_connection (close_connection c) ≡ close_connection c
unfolding close_connection
close_connection-twice c = go c.closing refl
  where
    go :
        (b : Bool)
        → c.closing ≡ b
        → (let d : Connection = if b then c else record c { closing = true; descriptor = none } in
            (if d.closing then d else record d { closing = true; descriptor = none }) ≡ d)
    go true e = ground (arith, e)
    go false e = refl

module _ {S : Type 0} where
  close_all_lem :
      (expired : List ℕ) (s : Server S) (index : ℕ)
      → (close_all expired s).connections index ≡ (
          if occurs index expired
          then close_connection (s.connections index)
          else s.connections index)
  unfolding close_all
  close_all_lem [] s index = refl
  close_all_lem (x ∷ xs) s index =
      close_all_lem xs (abort_connection x s) index ∙ step (x == index) (occurs index xs) refl
    where
      step :
          (here later : Bool)
          → (x == index) ≡ here
          → (let c = update s.connections x (close_connection (s.connections x)) index in
              if later then close_connection c else c)
            ≡ (if here || later
                then close_connection (s.connections index)
                else s.connections index)
      step true later e =
          subst
            (λ (i : ℕ).
              (let c = update s.connections x (close_connection (s.connections x)) i in
                if later then close_connection c else c)
              ≡ close_connection (s.connections i))
            ((==_iff x index).0 e)
            (ap (λ (c : Connection). if later then close_connection c else c)
                (update_own s.connections x (close_connection (s.connections x)))
              ∙ either (λ (c : Connection). c ≡ close_connection (s.connections x)) later _ _
                  (close_connection-twice (s.connections x)) refl)
      step false later e =
          ap (λ (c : Connection). if later then close_connection c else c)
            (update_other s.connections x (close_connection (s.connections x)) index
              (λ same. ground (arith, e, ==_iff x index, same)))

  occurs-expired_of :
      (config : StratumServerConfig) (banned : ℕ → Bool) (now : ℕ) (active : List ℕ) (s : Server S)
      (index : ℕ)
      → occurs index (expired_of config banned now active s)
        ≡ (occurs index active && is_expired config banned now (s.connections index))
  unfolding expired_of
  occurs-expired_of config banned now [] s index = refl
  occurs-expired_of config banned now (x ∷ xs) s index =
      step (x == index) (is_expired config banned now (s.connections x))
        (occurs-expired_of config banned now xs s index) refl refl
    where
      at_index :
          {due : Bool}
          → (x == index) ≡ true
          → is_expired config banned now (s.connections x) ≡ due
          → is_expired config banned now (s.connections index) ≡ due
      at_index {due = due} e d =
          subst (λ (i : ℕ). is_expired config banned now (s.connections i) ≡ due)
            ((==_iff x index).0 e) d

      step :
          (here due : Bool)
          → occurs index (expired_of config banned now xs s)
            ≡ (occurs index xs && is_expired config banned now (s.connections index))
          → (x == index) ≡ here
          → is_expired config banned now (s.connections x) ≡ due
          → occurs index (
              if due
              then x ∷ expired_of config banned now xs s
              else expired_of config banned now xs s)
            ≡ ((here || occurs index xs) && is_expired config banned now (s.connections index))
      step true true ih e d = ground (arith, e, ih, at_index e d)
      step true false ih e d = ground (arith, e, ih, at_index e d)
      step false true ih e d = ground (arith, e, ih)
      step false false ih e d = ih

  -- Closing what expired closes a connection of the table exactly when its peer is banned, or when it is authenticated
  -- and was last active, or is not and was opened, as long ago as its limit or longer; all other
  -- connections are as before.
  pub close_expired_exact :
      (config : StratumServerConfig) (banned : ℕ → Bool) (now : ℕ) (active : List ℕ) (s : Server S)
      (index : ℕ)
      → (close_expired config banned now active s).connections index ≡ (
          if occurs index active
            && (banned (s.connections index).peer
                || (if (s.connections index).authenticated
                    then leb
                        ((s.connections index).last_activity + config.idle_timeout_ms * 1000000)
                        now
                    else leb
                        ((s.connections index).opened + config.login_timeout_ms * 1000000)
                        now))
          then close_connection (s.connections index)
          else s.connections index)
  unfolding close_expired is_expired
  close_expired_exact config banned now active s index =
      close_all_lem (expired_of config banned now active s) s index
      ∙ ap (λ (b : Bool). if b then close_connection (s.connections index) else s.connections index)
          (occurs-expired_of config banned now active s index
            ∙ ap (λ (b : Bool). occurs index active && (banned (s.connections index).peer || b))
                (limits (s.connections index).authenticated))
    where
      limits :
          (authenticated : Bool)
          → (let c = s.connections index in
              leb
                ((if authenticated then c.last_activity else c.opened)
                  + (if authenticated then config.idle_timeout_ms else config.login_timeout_ms)
                    * 1000000)
                now
              ≡ (if authenticated
                  then leb (c.last_activity + config.idle_timeout_ms * 1000000) now
                  else leb (c.opened + config.login_timeout_ms * 1000000) now))
      limits true = refl
      limits false = refl
