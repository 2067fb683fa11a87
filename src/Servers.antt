-- ===== src/Servers.antt =====
-- src/servers.rs: the start of the servers. The builders of `jsonrpc_http_server` and
-- `jsonrpc_ws_server` are records of what they are given, and starting a server from one is of the
-- interface, with the address parser, `Host`, the order in which a `HashSet` is iterated, and the
-- timer of `tokio`, which module Run.Gateway uses. The
-- executors and the extractors of metadata are left out.
pub mod Samples
mod Tests
use oasis_chain.Prelude.{
  ℕ, ◌≡◌, Bool, true, if◌then◌else◌, Option, none, some, List, [], map, Bytes, codes,
}
use oasis_chain.RpcApis.{Api, Delegate}

-- How a server's start ends.
pub data Started (S : Type 0) : Type 0 where
  started : S → Started S
  address_in_use : Started S
  -- Any other error, as it is debugged.
  failed : Bytes → Started S

-- `DomainsValidation`, and its conversion from an option.
pub data DomainsValidation (T : Type 0) : Type 0 where
  allow_only : List T → DomainsValidation T
  disabled : DomainsValidation T

abbrev pub domains_from : {T : Type 0} → Option (List T) → DomainsValidation T
domains_from none = disabled
domains_from (some items) = allow_only items

-- `MetaIoHandler`, with the limits of its middleware; a rate is limited for WebSockets only.
pub record MetaIoHandler : Type 0 where
  pub delegates : List Delegate
  pub max_req_per_sec : Option ℕ
  pub max_batch_size : ℕ

-- `RequestMiddlewareAction`
pub data MiddlewareAction (Request Response : Type 0) : Type 0 where
  proceed : Request → MiddlewareAction Request Response
  respond : Response → MiddlewareAction Request Response

-- `jsonrpc_http_server::ServerBuilder`; a domain is a text.
pub record HttpBuilder (Request Response AllowedHost : Type 0) : Type 0 where
  pub handler : MetaIoHandler
  pub thread_count : ℕ
  pub request_middleware : Request → MiddlewareAction Request Response
  pub cors : DomainsValidation Bytes
  pub allowed_hosts : DomainsValidation AllowedHost

-- `jsonrpc_ws_server::ServerBuilder`; an origin is a text.
pub record WsBuilder (AllowedHost : Type 0) : Type 0 where
  pub handler : MetaIoHandler
  pub allowed_origins : DomainsValidation Bytes
  pub allowed_hosts : DomainsValidation AllowedHost
  pub max_connections : ℕ

pub record ServerCrates : Type 1 where
  pub Host : Type 0
  -- `Host::from` and what a host is dereferenced to.
  pub host_from : Bytes → Host
  pub host_text : Host → Bytes
  pub AllowedHost : Type 0
  pub allowed_host_from : Bytes → AllowedHost
  pub SocketAddr : Type 0
  pub parse_addr : Bytes → Option SocketAddr
  pub Request : Type 0
  pub Response : Type 0
  -- `request.uri() == text`, and `Response::ok`.
  pub has_uri : Request → Bytes → Bool
  pub response_ok : Bytes → Response
  pub WsServer : Type 0
  pub HttpServer : Type 0
  -- `tokio::timer::Interval::new_interval` of some seconds, which may panic.
  pub Interval : Type 0
  pub new_interval : ℕ → Option Interval
  pub start_from_ws : WsBuilder AllowedHost → SocketAddr → Started WsServer
  pub start_from_http : HttpBuilder Request Response AllowedHost → SocketAddr → Started HttpServer
  pub iterate : List Api → List Api
  pub iterate_texts : List Bytes → List Bytes

module _ (crates : ServerCrates) where
  open crates use {
    AllowedHost, SocketAddr, Request, Response, has_uri, response_ok, WsServer, HttpServer,
    start_from_ws, start_from_http,
  }

  -- The request middleware of `start_http`.
  unfoldable pub status_middleware : Request → MiddlewareAction Request Response
  status_middleware request =
      if has_uri request (codes "/status") then respond (response_ok []) else proceed request

  -- `start_http`
  unfoldable pub start_http :
      SocketAddr
      → DomainsValidation Bytes
      → DomainsValidation AllowedHost
      → MetaIoHandler
      → ℕ
      → Started HttpServer
  unfolding status_middleware
  start_http addr cors_domains allowed_hosts handler threads =
      start_from_http
        (record {
          handler = handler;
          thread_count = threads;
          request_middleware = status_middleware;
          cors = cors_domains;
          allowed_hosts = allowed_hosts;
        })
        addr

  -- `start_ws`
  unfoldable pub start_ws :
      SocketAddr
      → MetaIoHandler
      → DomainsValidation Bytes
      → DomainsValidation AllowedHost
      → ℕ
      → Started WsServer
  start_ws addr handler allowed_origins allowed_hosts max_connections =
      start_from_ws
        (record {
          handler = handler;
          allowed_origins = allowed_origins;
          allowed_hosts = allowed_hosts;
          max_connections = max_connections;
        })
        addr
