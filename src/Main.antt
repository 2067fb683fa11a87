-- ===== src/Main.antt =====
-- bin/main.rs: the process, from the command line to its end. What it does outwardly is a list of
-- events; the signals, the logger and the parser of the command line are interfaces.
pub mod CommandLine
pub mod Values
pub mod Runs
mod Tests
use oasis_chain.Prelude.{
  ℕ, Bool, true, false, Option, none, some, List, [], ◌∷◌, ◌++◌, Bytes, codes, Result, ok, err,
  panic,
}
use oasis_chain.Blockchain.{Ethcore, Mkvs}
use oasis_chain.Servers.{ServerCrates}
use oasis_chain.Run.{Reading, Warning}
use oasis_chain.Run.Gateway.{RunningGateway, Resource, start, shutdown}
use oasis_chain.Main.CommandLine.{Clap, arguments, Level, level_of, Settings, read_settings}

pub data Event : Type 0 where
  fd_limit_raised : Event
  logger_started : Level → Event
  -- The information on the chain is logged.
  starting : Bytes → Event
  start_failed : Bytes → Event
  running shutting_down : Event
  -- What the gateway's shutdown drops, and the warnings while it waits, if the wait ends.
  gateway_shut_down : List Resource → Option (List Warning) → Event
  shutdown_completed : Event

pub data Ending : Type 0 where
  -- `Ok(())` and `Err(_)`.
  returned : Ending
  returned_error : Bytes → Ending
  panicked : Ending
  -- The parser of the command line ended the process.
  exited : Ending

pub data Outcome (A : Type 0) : Type 0 where
  value : A → Outcome A
  ended : Ending → Outcome A

-- The events so far, and a value to go on with or how the process ended.
abbrev pub Program : Type 0 → Type 0
Program A = List Event × Outcome A

infixl 5 ◌>>=◌ ◌>>◌
abbrev pub ◌>>=◌ : {A B : Type 0} → Program A → (A → Program B) → Program B
(before, value a) >>= rest = let (after, outcome) = rest a in (before ++ after, outcome)
(before, ended ending) >>= rest = (before, ended ending)

abbrev pub ◌>>◌ : {B : Type 0} → Program (Unit {0}) → Program B → Program B
step >> rest = step >>= λ nothing. rest

abbrev pub emit : Event → Program (Unit {0})
emit event = (event ∷ [], value tt)

-- The `?` of `main`.
abbrev pub try : {A : Type 0} → Result Bytes A → Program A
try (ok a) = ([], value a)
try (err e) = ([], ended (returned_error e))
try panic = ([], ended panicked)

-- What the process meets besides its command line.
pub record Surroundings : Type 0 where
  -- Whether the logger can be set up.
  pub logger_is_free : Bool
  -- The pipe, its write end cloned and registered for each of the two signals, and the wait.
  pub pair : Result Bytes (Unit {0})
  pub clone_for_int : Result Bytes (Unit {0})
  pub register_int : Result Bytes (Unit {0})
  pub clone_for_term : Result Bytes (Unit {0})
  pub register_term : Result Bytes (Unit {0})
  pub read_signal : Result Bytes (Unit {0})
  -- What the wait for the chain's drop reads.
  pub readings : ℕ → Reading

-- `simple_logger::init_with_level`, unwrapped.
unfoldable pub start_logger : Bool → Level → Program (Unit {0})
start_logger true level = emit (logger_started level)
start_logger false level = ([], ended panicked)

-- From the start of the gateway on: it runs until a signal comes.
unfoldable pub until_signal : Surroundings → Program (Unit {0})
until_signal s = do
  emit running
  try s.pair
  try s.clone_for_int
  try s.register_int
  try s.clone_for_term
  try s.register_term
  try s.read_signal
  emit shutting_down

unfoldable pub shut_down : ℕ → Surroundings → Program (Unit {0})
shut_down fuel s = do
  let (dropped, warnings) = shutdown s.readings fuel
  emit (gateway_shut_down dropped warnings)
  emit shutdown_completed

module _ (clap : Clap) (crates : ServerCrates) where
  -- `get_matches`, which does not return where the command line is refused.
  unfoldable pub matches_of : Option clap.Matches → Program clap.Matches
  matches_of none = ([], ended exited)
  matches_of (some args) = ([], value args)

  -- `oasis_chain::start`, with what `main` does where it fails.
  unfoldable pub started_or_return :
      Result Bytes (RunningGateway crates) → Program (RunningGateway crates)
  started_or_return (ok client) = ([], value client)
  started_or_return (err e) = (start_failed e ∷ [], ended returned)
  started_or_return panic = ([], ended panicked)

  -- `main`, with what the start of the gateway takes besides the settings: the failure of the
  -- runtime's start, if any, the listeners' numbers and the store of the genesis specification.
  unfoldable pub main :
      Ethcore
      → Mkvs
      → Option Bytes
      → (ws_listener http_listener : ℕ) → (chain_info : Bytes) → (fuel : ℕ) → Surroundings
      → Program (Unit {0})
  unfolding matches_of start_logger started_or_return until_signal shut_down
  main core genesis failure ws_listener http_listener chain_info fuel s = do
    emit fd_limit_raised
    args ← matches_of (clap.get_matches arguments)
    start_logger s.logger_is_free (level_of (clap.occurrences_of args (codes "v")))
    settings ← try (read_settings clap args)
    emit (starting chain_info)
    client ← started_or_return (
        start crates core genesis failure ws_listener http_listener settings.pubsub_interval_secs
          settings.interface settings.http_port settings.num_threads settings.ws_port
          settings.ws_max_connections settings.gas_price settings.block_gas_limit)
    until_signal s
    shut_down fuel s
