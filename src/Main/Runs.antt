-- ===== src/Main/Runs.antt =====
-- What runs of `main` do, by how the start of the gateway and the calls after it end, and with a value
-- that is no number (bin/main.rs).
use oasis_chain.Prelude.{
  ℕ, ◌≤◌, ◌≡◌, ◌⊎◌, inl, inr, refl, ap, true, false, Option, none, some, some-injective,
  Option-cases, List, [], ◌∷◌, ◌++◌, Bytes, codes, Result, Result-cases, ok, err, panic,
}
use oasis_chain.Util.{gwei_to_wei}
use oasis_chain.Blockchain.{Ethcore, Mkvs}
use oasis_chain.Servers.{ServerCrates}
use oasis_chain.Run.{wait_for_drop}
use oasis_chain.Run.Wait.{Sleeps, Finishes, wait_for_drop-Finishes}
use oasis_chain.Run.Gateway.{
  start, execute, start_broker, shutdown, runtime, http_server_handle, ws_server_handle,
  blockchain_handle, km_client_handle,
}
use oasis_chain.Main.CommandLine.{Clap, IsClap, arguments, level_of}
use oasis_chain.Main.{
  Event, Ending, returned, panicked, start_failed, Program, emit, try, ◌>>◌, fd_limit_raised,
  logger_started, starting, running, shutting_down, gateway_shut_down, shutdown_completed,
  returned_error, value, ended, Surroundings, main, matches_of, start_logger, started_or_return,
  until_signal, shut_down,
}
use oasis_chain.Main.Values.{
  Given, IsInRange, Texts, texts_of, HasValues, IsRefused, read_settings-ok, read_settings-Fails,
}

-- The calls between the start of the gateway and its shutdown, in order.
abbrev pub calls : Surroundings → List (Result Bytes (Unit {0}))
calls s =
    s.pair ∷ s.clone_for_int ∷ s.register_int ∷ s.clone_for_term ∷ s.register_term ∷ s.read_signal
    ∷ []

-- How the process ends by the first of some calls that does not succeed, if there is one.
unfoldable pub first_stop : List (Result Bytes (Unit {0})) → Option Ending
first_stop [] = none
first_stop (ok _ ∷ rest) = first_stop rest
first_stop (err e ∷ rest) = some (returned_error e)
first_stop (panic ∷ rest) = some panicked

follow : List (Result Bytes (Unit {0})) → Program (Unit {0}) → Program (Unit {0})
follow [] after = after
follow (call ∷ rest) after = let later = follow rest after in try call >> later

follow-none :
    (rs : List (Result Bytes (Unit {0}))) (after : Program (Unit {0}))
    → first_stop rs ≡ none
    → follow rs after ≡ after
unfolding follow first_stop
follow-none [] after e = refl
follow-none (ok _ ∷ rs) after e = rw (follow-none rs after e) refl
follow-none (err _ ∷ rs) after e = cc
follow-none (panic ∷ rs) after e = cc

follow-some :
    (rs : List (Result Bytes (Unit {0}))) (after : Program (Unit {0})) (ending : Ending)
    → first_stop rs ≡ some ending
    → follow rs after ≡ ([], ended ending)
unfolding follow first_stop
follow-some [] after ending e = cc
follow-some (ok _ ∷ rs) after ending e = rw (follow-some rs after ending e) refl
follow-some (err _ ∷ rs) after ending e = ap (λ k. ([], ended k)) (some-injective _ _ e)
follow-some (panic ∷ rs) after ending e = ap (λ k. ([], ended k)) (some-injective _ _ e)

until_signal-follow :
    (s : Surroundings) → until_signal s ≡ (emit running >> follow (calls s) (emit shutting_down))
unfolding until_signal follow
until_signal-follow s = refl

-- What a run of `main` does after the events of its beginning, by how the start of the gateway ended:
-- the calls up to the signal are made, and only after them the gateway is shut down.
abbrev pub Ends :
    {G : Type 0} → List Event → Surroundings → ℕ → Result Bytes G → Program (Unit {0}) → Type 0
Ends {G} begun s fuel start_result run =
    ((client : G) × (start_result ≡ ok client)
      × (first_stop (calls s) ≡ none)
      × (run ≡ (
        begun
            ++ running
              ∷ shutting_down
              ∷ gateway_shut_down
                  (runtime ∷ http_server_handle ∷ ws_server_handle ∷ blockchain_handle
                    ∷ km_client_handle ∷ [])
                  (wait_for_drop s.readings fuel)
              ∷ shutdown_completed
              ∷ [],
        value tt,
      ))
      × Finishes s.readings 0 false (wait_for_drop s.readings fuel))
    ⊎ (((client : G) × (start_result ≡ ok client)
          × (ending : Ending) × (first_stop (calls s) ≡ some ending)
          × (run ≡ (begun ++ running ∷ [], ended ending)))
        ⊎ (((e : Bytes) × (start_result ≡ err e)
              × (run ≡ (begun ++ start_failed e ∷ [], ended returned)))
            ⊎ ((start_result ≡ panic) × (run ≡ (begun, ended panicked)))))

module _ (clap : Clap) (laws : IsClap clap) (crates : ServerCrates) (core : Ethcore)
    (genesis : Mkvs) (ws_listener http_listener : ℕ) (chain_info : Bytes) (s : Surroundings)
    (args : clap.Matches) (taken : clap.get_matches arguments ≡ some args) where
  -- A run of `main` where the logger can be set up and the options have the decimal digits of numbers
  -- of their types logs on the level that was asked for and starts a gateway with exactly these
  -- numbers, the gas price in wei. Where that start panics, the process does; where it fails, the
  -- failure is logged and `main` returns without an error. Otherwise the first of the calls up to
  -- the signal that fails or panics ends the process like that, with no shutdown of the gateway; and
  -- where all of them succeed, the gateway is shut down once, which drops the runtime, the servers,
  -- the chain and the key manager and waits for the chain to be dropped, that wait finishes, and
  -- `main` completes. Each round of the wait finds the clock at least a second further.
  pub main-Ends :
      (g : Given)
      → IsInRange g
      → HasValues clap args (texts_of g)
      → s.logger_is_free ≡ true
      → Sleeps s.readings
      → (failure : Option Bytes) (fuel : ℕ) → 301 ≤ fuel
      → Ends
          (fd_limit_raised
            ∷ logger_started (level_of (clap.occurrences_of args (codes "v")))
            ∷ starting chain_info
            ∷ [])
          s
          fuel
          (start crates core genesis failure ws_listener http_listener g.pubsub_interval g.interface
            g.http_port g.threads g.ws_port g.ws_max_connections
            (gwei_to_wei g.gas_price)
            g.block_gas_limit)
          (main clap crates core genesis failure ws_listener http_listener chain_info fuel s)
  unfolding main matches_of start_logger started_or_return shut_down shutdown
  main-Ends g range given free sleeps failure fuel enough =
      let settled = read_settings-ok clap laws args g range given in
      elim (Result-cases (
        start crates core genesis failure ws_listener http_listener g.pubsub_interval g.interface
          g.http_port g.threads g.ws_port g.ws_max_connections (gwei_to_wei g.gas_price)
          g.block_gas_limit)) [
            | inl (client, begun) ↦ elim (Option-cases (first_stop (calls s))) [
              | inl none_stops ↦ inl (
                client,
                begun,
                none_stops,
                rw
                    (
                      taken,
                      free,
                      settled,
                      begun,
                      until_signal-follow s,
                      follow-none (calls s) (emit shutting_down) none_stops,
                    )
                    refl,
                wait_for_drop-Finishes s.readings sleeps fuel enough,
              )
              | inr (ending, stops) ↦ inr (
                  inl (
                    client,
                    begun,
                    ending,
                    stops,
                    rw
                        (
                          taken,
                          free,
                          settled,
                          begun,
                          until_signal-follow s,
                          follow-some (calls s) (emit shutting_down) ending stops,
                        )
                        refl,
                  ))
            ]
            | inr (inl (e, fails)) ↦
                inr (inr (inl (e, fails, rw (taken, free, settled, fails) refl)))
            | inr (inr panics) ↦ inr (inr (inr (panics, rw (taken, free, settled, panics) refl)))
          ]

  -- A pub/sub interval of zero seconds is taken from the command line, and then `main` panics after it
  -- has announced the start, whatever the other numbers in range are and whatever it meets later;
  -- where the logger can be set up, the runtime starts, and the timer panics on a period of zero.
  pub main-panics :
      (g : Given)
      → IsInRange g
      → HasValues clap args (texts_of g)
      → s.logger_is_free ≡ true
      → g.pubsub_interval ≡ 0
      → crates.new_interval 0 ≡ none
      → (fuel : ℕ)
      → main clap crates core genesis none ws_listener http_listener chain_info fuel s ≡ (
        fd_limit_raised
            ∷ logger_started (level_of (clap.occurrences_of args (codes "v")))
            ∷ starting chain_info
            ∷ [],
        ended panicked,
      )
  unfolding main matches_of start_logger started_or_return start execute start_broker
  main-panics g range given free zero panics fuel =
      rw (taken, free, read_settings-ok clap laws args g range given, zero, panics) refl

  -- A run of `main` where the value of an option is no number of its type ends in an error before
  -- anything is started; where the logger can be set up.
  pub main-refused :
      (t : Texts)
      → HasValues clap args t
      → IsRefused t
      → s.logger_is_free ≡ true
      → (failure : Option Bytes) (fuel : ℕ)
      → (e : Bytes) × (main clap crates core genesis failure ws_listener http_listener chain_info
            fuel s
          ≡ (
            fd_limit_raised ∷ logger_started (level_of (clap.occurrences_of args (codes "v"))) ∷ [],
            ended (returned_error e),
          ))
  unfolding main matches_of start_logger
  main-refused t given refused free failure fuel =
      let (e, fails) = read_settings-Fails clap laws args t given refused in
      (e, rw (taken, free, fails) refl)
