-- ===== src/Main/Values.antt =====
-- What the values of the options are made into (bin/main.rs).
use oasis_chain.Prelude.{
  ℕ, ◌^◌, ◌<◌, ◌≡◌, refl, ◌⊎◌, inl, inr, Option, none, some, Option-cases, Bytes, codes, Result, ok,
  err, ◌>>=◌,
}
use oasis_chain.Decimal.{to_string}
use oasis_chain.Decimal.Parsing.{parse_unsigned, parse_unsigned-to_string}
use oasis_chain.Util.{gwei_to_wei}
use oasis_chain.Main.CommandLine.{Clap, IsClap, Settings, read_settings, u16, u64, text}

-- The numbers that are given for the options, and the interface.
pub record Given : Type 0 where
  pub threads : ℕ
  pub interface : Bytes
  pub http_port : ℕ
  pub ws_port : ℕ
  pub ws_max_connections : ℕ
  pub pubsub_interval : ℕ
  pub gas_price : ℕ
  pub block_gas_limit : ℕ

pub record IsInRange (g : Given) : Type 0 where
  pub threads : g.threads < 2 ^ 64
  pub http_port : g.http_port < 2 ^ 16
  pub ws_port : g.ws_port < 2 ^ 16
  pub ws_max_connections : g.ws_max_connections < 2 ^ 64
  pub pubsub_interval : g.pubsub_interval < 2 ^ 64
  pub gas_price : g.gas_price < 2 ^ 64
  pub block_gas_limit : g.block_gas_limit < 2 ^ 64

-- The texts of the options' values.
pub record Texts : Type 0 where
  pub threads : Bytes
  pub interface : Bytes
  pub http_port : Bytes
  pub ws_port : Bytes
  pub ws_max_connections : Bytes
  pub pubsub_interval : Bytes
  pub gas_price : Bytes
  pub block_gas_limit : Bytes

abbrev pub texts_of : Given → Texts
texts_of g = record {
  threads = to_string g.threads;
  interface = g.interface;
  http_port = to_string g.http_port;
  ws_port = to_string g.ws_port;
  ws_max_connections = to_string g.ws_max_connections;
  pubsub_interval = to_string g.pubsub_interval;
  gas_price = to_string g.gas_price;
  block_gas_limit = to_string g.block_gas_limit;
}

-- One of the numbers does not parse.
abbrev pub IsRefused : Texts → Type 0
IsRefused t =
    (u64 t.threads ≡ none)
    ⊎ ((u16 t.http_port ≡ none)
        ⊎ ((u16 t.ws_port ≡ none)
            ⊎ ((u64 t.ws_max_connections ≡ none)
                ⊎ ((u64 t.pubsub_interval ≡ none)
                    ⊎ ((u64 t.gas_price ≡ none) ⊎ (u64 t.block_gas_limit ≡ none))))))

-- The settings that the numbers are made into.
abbrev pub settings_of : Given → Settings
settings_of g = record {
  num_threads = g.threads;
  interface = g.interface;
  http_port = g.http_port;
  ws_port = g.ws_port;
  ws_max_connections = g.ws_max_connections;
  pubsub_interval_secs = g.pubsub_interval;
  gas_price = gwei_to_wei g.gas_price;
  block_gas_limit = g.block_gas_limit;
}

abbrev pub Fails : {A : Type 0} → Result Bytes A → Type 0
Fails r = (e : Bytes) × (r ≡ err e)

module _ (clap : Clap) (args : clap.Matches) where
  open clap use {value_of}

  -- What the command line, or the default, has for the options.
  pub record HasValues (t : Texts) : Type 0 where
    pub threads : value_of args (codes "threads") ≡ some t.threads
    pub interface : value_of args (codes "interface") ≡ some t.interface
    pub http_port : value_of args (codes "http-port") ≡ some t.http_port
    pub ws_port : value_of args (codes "ws-port") ≡ some t.ws_port
    pub ws_max_connections : value_of args (codes "ws-max-connections") ≡ some t.ws_max_connections
    pub pubsub_interval : value_of args (codes "pubsub-interval") ≡ some t.pubsub_interval
    pub gas_price : value_of args (codes "gas-price") ≡ some t.gas_price
    pub block_gas_limit : value_of args (codes "block-gas-limit") ≡ some t.block_gas_limit

module _ (clap : Clap) (laws : IsClap clap) (args : clap.Matches) where
  open clap use {value_of, value_t}

  pub read_settings-ok :
      (g : Given)
      → IsInRange g
      → HasValues clap args (texts_of g)
      → read_settings clap args ≡ ok (settings_of g)
  unfolding read_settings
  read_settings-ok g range given =
      let number =
        λ (limit n : ℕ) (name : Bytes) (below : n < limit)
            (there : value_of args name ≡ some (to_string n)).
          laws.value_t_valid ℕ (parse_unsigned limit) args name (to_string n) n there
            (parse_unsigned-to_string limit n below) in
      rw
        (
          number (2 ^ 64) g.threads (codes "threads") range.threads given.threads,
          laws.value_t_valid Bytes text args (codes "interface") g.interface g.interface
              given.interface refl,
          number (2 ^ 16) g.http_port (codes "http-port") range.http_port given.http_port,
          number (2 ^ 16) g.ws_port (codes "ws-port") range.ws_port given.ws_port,
          number (2 ^ 64) g.ws_max_connections (codes "ws-max-connections") range.ws_max_connections
              given.ws_max_connections,
          number (2 ^ 64) g.pubsub_interval (codes "pubsub-interval") range.pubsub_interval
              given.pubsub_interval,
          number (2 ^ 64) g.gas_price (codes "gas-price") range.gas_price given.gas_price,
          number (2 ^ 64) g.block_gas_limit (codes "block-gas-limit") range.block_gas_limit
              given.block_gas_limit,
        )
        refl

  -- A value that does not parse ends the chain, or a later one does.
  value_t-Fails :
      {B Later : Type 0} (parse : Bytes → Option ℕ) (name given : Bytes) (rest : ℕ → Result Bytes B)
      → value_of args name ≡ some given
      → (parse given ≡ none) ⊎ Later
      → ((n : ℕ) → Later → Fails (rest n))
      → Fails (value_t ℕ parse args name >>= rest)
  value_t-Fails parse name given rest there bad later = elim (Option-cases (parse given)) [
    | inl nothing ↦
        let (e, fails) = laws.value_t_invalid ℕ parse args name given there nothing in
        (e, rw fails refl)
    | inr (n, parsed) ↦
        rw (laws.value_t_valid ℕ parse args name given n there parsed)
          (elim bad [ inl nothing ↦ absurd (cc) | inr others ↦ later n others ])
  ]

  -- Where a number does not parse, there are no settings.
  pub read_settings-Fails :
      (t : Texts) → HasValues clap args t → IsRefused t → Fails (read_settings clap args)
  unfolding read_settings
  read_settings-Fails t given refused =
      value_t-Fails u64 (codes "threads") t.threads _ given.threads refused λ threads others.
        rw
          (laws.value_t_valid Bytes text args (codes "interface") t.interface t.interface
            given.interface refl)
          (value_t-Fails u16 (codes "http-port") t.http_port _ given.http_port others
            λ http_port others.
              value_t-Fails u16 (codes "ws-port") t.ws_port _ given.ws_port others λ ws_port others.
                value_t-Fails u64 (codes "ws-max-connections") t.ws_max_connections _
                  given.ws_max_connections others
                  λ ws_max_connections others.
                    value_t-Fails u64 (codes "pubsub-interval") t.pubsub_interval _
                      given.pubsub_interval others
                      λ pubsub_interval others.
                        value_t-Fails u64 (codes "gas-price") t.gas_price _ given.gas_price others
                          λ gas_price last.
                            value_t-Fails {Later = ⊥} u64 (codes "block-gas-limit")
                              t.block_gas_limit _ given.block_gas_limit (inl last)
                              λ n nothing. absurd nothing)
