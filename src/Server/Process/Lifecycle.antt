-- ===== src/Server/Process/Lifecycle.antt =====
-- How the process of server/server.go starts and stops.
use eris_db.Base.{
  suc, ◌≡◌, ◌≢◌, refl, ap, ◌⊎◌, inl, inr, Bool, true, false, none, some, List, [], ◌∷◌, ◌++◌, map,
  Result, ok, err, panic, ◌==◌, ==_iff, if◌then◌else◌, if_rule, All, arith,
}
use eris_db.Server.Process.{
  Server, Network, ServeProcess, start_servers, shut_down_servers, listen_address, over_tls,
  secured, serve, stop_event_channel, bound, start, begin_stop, graceful_stop, stop_served,
}

abbrev pub IsRunning : Server → Type 0
IsRunning s = s.running ≡ true

abbrev pub IsStopped : Server → Type 0
IsStopped s = s.running ≡ false

start_servers-IsRunning : (ss : List Server) → All IsRunning (start_servers ss)
unfolding start_servers
start_servers-IsRunning [] = tt
start_servers-IsRunning (s ∷ ss) = (refl, start_servers-IsRunning ss)

shut_down_servers-IsStopped : (ss : List Server) → All IsStopped (shut_down_servers ss)
unfolding shut_down_servers
shut_down_servers-IsStopped [] = tt
shut_down_servers-IsStopped (s ∷ ss) = (refl, shut_down_servers-IsStopped ss)

module _ {L : Type 0} where
  -- The process serves and has told every start listener, or it has not changed, or its servers
  -- run though it does not serve.
  abbrev pub Started : ServeProcess L → Result (Unit {0}) × ServeProcess L → Type 0
  Started proc (ok _, proc2) =
      (proc.config.bind.port ≢ 0)
      × All IsRunning proc2.servers
      × ((l : L) × (proc2.serving ≡ some (l, proc.config.tls.tls)))
      × (proc2.start_listeners ≡ map suc proc.start_listeners)
  Started proc (err e, proc2) =
      ((proc.config.bind.port ≡ 0) × (proc2 ≡ proc))
      ⊎ ((proc.config.bind.port ≢ 0)
          × All IsRunning proc2.servers
          × (proc2.serving ≡ proc.serving)
          × (proc2.start_listeners ≡ proc.start_listeners))
  Started proc (panic, proc2) = Unit

  module _ (network : Network L) (proc : ServeProcess L) (valid : proc.config.bind.port ≢ 0) where
    abbrev readied : ServeProcess L
    readied = record proc { servers = start_servers proc.servers }

    over_tls-tls :
        (b : Bool) (l : L) (r : Result (Unit {0})) (lst : L × Bool)
        → (if b then over_tls l r else ok (l, false)) ≡ ok lst
        → lst.1 ≡ b
    unfolding over_tls
    over_tls-tls true l (ok u) (l2, t) h = cc
    over_tls-tls true l (err e) lst h = (let bad : ⊥ = cc in absurd bad)
    over_tls-tls true l panic lst h = (let bad : ⊥ = cc in absurd bad)
    over_tls-tls false l r (l2, t) h = cc

    served-Started :
        (r : Result (L × Bool))
        → ((lst : L × Bool) → r ≡ ok lst → lst.1 ≡ proc.config.tls.tls)
        → Started proc (serve readied r)
    unfolding serve
    served-Started (ok (l, t)) same = (
      valid,
      start_servers-IsRunning proc.servers,
      (l, ap (λ b. some (l, b)) (same (l, t) refl)),
      refl,
    )
    served-Started (err x) same = inr (valid, start_servers-IsRunning proc.servers, refl, refl)
    served-Started panic same = tt

    bound-Started : (r : Result L) → Started proc (bound network readied r)
    unfolding bound secured
    bound-Started (ok l) =
        served-Started (secured network proc.config l) (over_tls-tls proc.config.tls.tls l _)
    bound-Started (err e) = inr (valid, start_servers-IsRunning proc.servers, refl, refl)
    bound-Started panic = tt

  -- `Start` refuses the port 0 and changes nothing. Otherwise, if it returns no error, every server
  -- runs, the listener is served, over TLS exactly if the configuration says so, and every start
  -- listener has been told once more; if it returns an error, every server runs all the same, but
  -- nothing is served and nobody is told.
  pub start-Started :
      (network : Network L) (proc : ServeProcess L) → Started proc (start network proc)
  unfolding start
  start-Started network proc =
      if_rule (Started proc) (proc.config.bind.port == 0) _ _
        (λ e. inl ((==_iff proc.config.bind.port 0).0 e, refl))
        (λ e.
          bound-Started network proc (λ z. ground (arith, e, z))
            (network.listen (listen_address proc.config)))

  -- Stopping a process that serves shuts all servers down, ends the serving, takes the signal, and
  -- tells every stop listener once more, the one that `Stop` adds for itself included.
  graceful_stop-begin_stop :
      (proc : ServeProcess L) (l : L) (tls : Bool)
      → proc.serving ≡ some (l, tls)
      → let proc2 = graceful_stop (begin_stop proc) in
        All IsStopped proc2.servers
        × (proc2.serving ≡ none)
        × (proc2.stop_signals ≡ 0)
        × (proc2.stop_listeners ≡ map suc (proc.stop_listeners ++ 0 ∷ []))
  unfolding graceful_stop begin_stop stop_served stop_event_channel
  graceful_stop-begin_stop proc l tls serves =
      rw (serves, stop_served)
        (shut_down_servers-IsStopped (shut_down_servers proc.servers), refl, refl, refl)
