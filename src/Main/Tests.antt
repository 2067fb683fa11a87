-- ===== src/Main/Tests.antt =====
-- Runs of `main` with no options given, with an interval of zero seconds, and with a port that is no
-- number (bin/main.rs).
use oasis_chain.Prelude.{
  ◌+◌, ◌*◌, ◌≡◌, refl, false, true, inl, inr, Option, none, some, List, [], ◌∷◌, Bytes, bytes_eq,
  codes, Result, ok, err, if◌then◌else◌, arith,
}
use oasis_chain.Decimal.{to_string}
use oasis_chain.Decimal.Parsing.{parse_unsigned}
use oasis_chain.Blockchain.{block_gas_limit}
use oasis_chain.Blockchain.Samples.{toy_core}
use oasis_chain.Servers.Samples.{toy_servers}
use oasis_chain.Run.{second}
use oasis_chain.Run.Wait.{Sleeps}
use oasis_chain.Util.{gwei_to_wei}
use oasis_chain.Run.Gateway.{start}
use oasis_chain.Main.CommandLine.{Clap, IsClap, Arg, arguments, level_of}
use oasis_chain.Main.{
  fd_limit_raised, logger_started, starting, panicked, returned_error, ended, Surroundings, main,
}
use oasis_chain.Main.Values.{Given, IsInRange, texts_of, HasValues, IsRefused}
use oasis_chain.Main.Runs.{Ends, main-Ends, main-panics, main-refused}

-- The value of an option is the one that is given first, or the default.
find_default : List Arg → Bytes → Option Bytes
find_default [] name = none
find_default (arg ∷ args) name =
    let rest = find_default args name in if bytes_eq arg.name name then arg.default_value else rest

or_else : Option Bytes → Option Bytes → Option Bytes
or_else none later = later
or_else (some first) later = some first

find_given : List (Bytes × Bytes) → Bytes → Option Bytes
find_given [] name = none
find_given ((key, text) ∷ given) name =
    let rest = find_given given name in if bytes_eq key name then some text else rest

or_message : {A : Type 0} → Option A → Result Bytes A
or_message none = err (codes "Invalid value")
or_message (some a) = ok a

parse_given : (A : Type 0) → (Bytes → Option A) → Option Bytes → Result Bytes A
unfolding or_message
parse_given A parse none = err (codes "Not found")
parse_given A parse (some text) = or_message (parse text)

abbrev toy_clap : List (Bytes × Bytes) → Clap
toy_clap given = record {
  Matches = List Arg;
  get_matches = λ args. some args;
  occurrences_of = λ args name. 0;
  value_of = λ args name. or_else (find_given given name) (find_default args name);
  value_t = λ A parse args name.
      parse_given A parse (or_else (find_given given name) (find_default args name));
}

toy-IsClap : (given : List (Bytes × Bytes)) → IsClap (toy_clap given)
unfolding parse_given
toy-IsClap given = record {
  value_t_valid = λ A parse args name text a there parsed. rw (there, parsed) refl;
  value_t_invalid =
      λ A parse args name text there nothing. (codes "Invalid value", rw (there, nothing) refl);
}

abbrev defaults : Given
defaults = record {
  threads = 1;
  interface = codes "127.0.0.1";
  http_port = 8545;
  ws_port = 8546;
  ws_max_connections = 10000;
  pubsub_interval = 1;
  gas_price = 1;
  block_gas_limit = block_gas_limit;
}

abbrev args : List Arg
args = arguments

defaults-IsInRange : IsInRange defaults
defaults-IsInRange = omega arith

defaults-HasValues : HasValues (toy_clap []) args (texts_of defaults)
unfolding arguments to_string find_default find_given or_else
defaults-HasValues = record {
  threads = refl;
  interface = refl;
  http_port = refl;
  ws_port = refl;
  ws_max_connections = refl;
  pubsub_interval = refl;
  gas_price = refl;
  block_gas_limit = refl;
}

-- The clock advances by ten seconds in each round.
abbrev calm : Surroundings
calm = record {
  logger_is_free = true;
  pair = ok tt;
  clone_for_int = ok tt;
  register_int = ok tt;
  clone_for_term = ok tt;
  register_term = ok tt;
  read_signal = ok tt;
  readings = λ i. record {
    elapsed = i * (10 * second);
    is_dropped = false;
    elapsed_later = i * (10 * second) + second;
  };
}

calm-Sleeps : Sleeps calm.readings
calm-Sleeps i = omega arith

main-Ends_example :
    Ends
      (fd_limit_raised ∷ logger_started (level_of 0) ∷ starting (codes "info") ∷ [])
      calm
      301
      (start toy_servers toy_core [] none 1 2 1
        (codes "127.0.0.1")
        8545
        1
        8546
        10000
        (gwei_to_wei 1)
        block_gas_limit)
      (main (toy_clap []) toy_servers toy_core [] none 1 2 (codes "info") 301 calm)
main-Ends_example =
    main-Ends (toy_clap []) (toy-IsClap []) toy_servers toy_core [] 1 2 (codes "info") calm args
      refl defaults defaults-IsInRange defaults-HasValues refl calm-Sleeps none 301 (omega arith)

abbrev no_interval : List (Bytes × Bytes)
no_interval = (codes "pubsub-interval", codes "0") ∷ []

abbrev with_no_interval : Given
with_no_interval = record defaults { pubsub_interval = 0 }

no_interval-HasValues : HasValues (toy_clap no_interval) args (texts_of with_no_interval)
unfolding arguments to_string find_default find_given or_else
no_interval-HasValues = record {
  threads = refl;
  interface = refl;
  http_port = refl;
  ws_port = refl;
  ws_max_connections = refl;
  pubsub_interval = refl;
  gas_price = refl;
  block_gas_limit = refl;
}

zero_interval_panics :
    main (toy_clap no_interval) toy_servers toy_core [] none 1 2 (codes "info") 301 calm
    ≡ (fd_limit_raised ∷ logger_started (level_of 0) ∷ starting (codes "info") ∷ [], ended panicked)
zero_interval_panics =
    main-panics (toy_clap no_interval) (toy-IsClap no_interval) toy_servers toy_core [] 1 2
      (codes "info") calm args refl with_no_interval (omega arith) no_interval-HasValues refl refl
      refl 301

abbrev wrong_port : List (Bytes × Bytes)
wrong_port = (codes "http-port", codes "65536") ∷ []

wrong-HasValues :
    HasValues (toy_clap wrong_port) args (record (texts_of defaults) { http_port = codes "65536" })
unfolding arguments to_string find_default find_given or_else
wrong-HasValues = record {
  threads = refl;
  interface = refl;
  http_port = refl;
  ws_port = refl;
  ws_max_connections = refl;
  pubsub_interval = refl;
  gas_price = refl;
  block_gas_limit = refl;
}

wrong-IsRefused : IsRefused (record (texts_of defaults) { http_port = codes "65536" })
unfolding parse_unsigned
wrong-IsRefused = inr (inl refl)

main-refused_example :
    (e : Bytes) × (main
        (toy_clap wrong_port)
        toy_servers
        toy_core
        []
        none
        1
        2
        (codes "info")
        301
        calm
      ≡ (fd_limit_raised ∷ logger_started (level_of 0) ∷ [], ended (returned_error e)))
main-refused_example =
    main-refused (toy_clap wrong_port) (toy-IsClap wrong_port) toy_servers toy_core [] 1 2
      (codes "info") calm args refl (record (texts_of defaults) { http_port = codes "65536" })
      wrong-HasValues wrong-IsRefused refl none 301
