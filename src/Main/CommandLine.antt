-- ===== src/Main/CommandLine.antt =====
-- bin/main.rs: the command line. The parser of it, `clap`, is an interface.
use oasis_chain.Prelude.{
  ℕ, zero, suc, ◌^◌, ◌≡◌, Bool, true, false, Option, none, some, List, [], ◌∷◌, Bytes, codes,
  Result, ok, err, ◌>>=◌,
}
use oasis_chain.Decimal.{to_string}
use oasis_chain.Decimal.Parsing.{parse_unsigned}
use oasis_chain.Util.{gwei_to_wei}
use oasis_chain.Blockchain.{block_gas_limit, min_gas_price_gwei}

-- `clap::Arg`
pub record Arg : Type 0 where
  pub name : Bytes
  pub long : Option Bytes
  pub short : Option Bytes
  pub help : Bytes
  pub default_value : Option Bytes
  pub takes_value : Bool
  pub multiple : Bool

pub record Clap : Type 1 where
  pub Matches : Type 0
  -- The process's command line, unless it is refused and `clap` ends the process.
  pub get_matches : List Arg → Option Matches
  pub occurrences_of : Matches → Bytes → ℕ
  pub value_of : Matches → Bytes → Option Bytes
  -- The macro `value_t!`, with `FromStr` of the type.
  pub value_t : (A : Type 0) → (Bytes → Option A) → Matches → Bytes → Result Bytes A

-- What is documented of `clap`.
pub record IsClap (clap : Clap) : Type 1 where
  pub value_t_valid :
      (A : Type 0) (parse : Bytes → Option A) (matches : clap.Matches) (name text : Bytes) (a : A)
      → clap.value_of matches name ≡ some text
      → parse text ≡ some a
      → clap.value_t A parse matches name ≡ ok a
  pub value_t_invalid :
      (A : Type 0) (parse : Bytes → Option A) (matches : clap.Matches) (name text : Bytes)
      → clap.value_of matches name ≡ some text
      → parse text ≡ none
      → (e : Bytes) × (clap.value_t A parse matches name ≡ err e)

-- An option that takes a value.
unfoldable pub option_arg : Bytes → Bytes → Bytes → Arg
option_arg name help default_value = record {
  name = name;
  long = some name;
  short = none;
  help = help;
  default_value = some default_value;
  takes_value = true;
  multiple = false;
}

unfoldable pub verbosity_arg : Arg
verbosity_arg = record {
  name = codes "v";
  long = none;
  short = some (codes "v");
  help = codes "Sets the level of verbosity";
  default_value = none;
  takes_value = false;
  multiple = true;
}

unfoldable pub arguments : List Arg
unfolding option_arg verbosity_arg to_string
arguments =
    option_arg (codes "http-port") (codes "Port to use for JSON-RPC HTTP server.") (codes "8545")
    ∷ option_arg (codes "threads") (codes "Number of threads to use for HTTP server.") (codes "1")
    ∷ option_arg (codes "ws-port") (codes "Port to use for WebSocket server.") (codes "8546")
    ∷ option_arg (codes "ws-max-connections")
        (codes "Max number of concurrent WebSocket connections.") (codes "10000")
    ∷ option_arg (codes "pubsub-interval")
        (codes "Time interval used for pub/sub notifications (in sec).") (codes "1")
    ∷ option_arg (codes "gas-price") (codes "Gas price (in Gwei).") (to_string min_gas_price_gwei)
    ∷ option_arg (codes "block-gas-limit") (codes "Block gas limit.") (to_string block_gas_limit)
    ∷ option_arg (codes "interface") (codes "Interface address for HTTP and WebSocket servers.")
        (codes "127.0.0.1")
    ∷ verbosity_arg
    ∷ []

-- `log::Level`, as far as it is used.
pub data Level : Type 0 where
  info debug trace : Level

unfoldable pub level_of : ℕ → Level
level_of zero = info
level_of (suc zero) = debug
level_of (suc (suc n)) = trace

-- What `main` reads off the command line.
pub record Settings : Type 0 where
  pub num_threads : ℕ
  pub interface : Bytes
  pub http_port : ℕ
  pub ws_port : ℕ
  pub ws_max_connections : ℕ
  pub pubsub_interval_secs : ℕ
  pub gas_price : ℕ
  pub block_gas_limit : ℕ

-- `FromStr` of `u16`, of `u64` and `usize`, and of `String`.
abbrev pub u16 : Bytes → Option ℕ
u16 = parse_unsigned (2 ^ 16)

abbrev pub u64 : Bytes → Option ℕ
u64 = parse_unsigned (2 ^ 64)

abbrev pub text : Bytes → Option Bytes
text = some

module _ (clap : Clap) where
  open clap use {Matches, value_t}

  unfoldable pub read_settings : Matches → Result Bytes Settings
  read_settings args = do
    num_threads ← value_t ℕ u64 args (codes "threads")
    interface ← value_t Bytes text args (codes "interface")
    http_port ← value_t ℕ u16 args (codes "http-port")
    ws_port ← value_t ℕ u16 args (codes "ws-port")
    ws_max_connections ← value_t ℕ u64 args (codes "ws-max-connections")
    pubsub_interval_secs ← value_t ℕ u64 args (codes "pubsub-interval")
    gas_price ← value_t ℕ u64 args (codes "gas-price")
    block_gas_limit ← value_t ℕ u64 args (codes "block-gas-limit")
    ok (record {
      num_threads = num_threads;
      interface = interface;
      http_port = http_port;
      ws_port = ws_port;
      ws_max_connections = ws_max_connections;
      pubsub_interval_secs = pubsub_interval_secs;
      gas_price = gwei_to_wei gas_price;
      block_gas_limit = block_gas_limit;
    })
