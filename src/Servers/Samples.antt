-- ===== src/Servers/Samples.antt =====
-- Servers that are the lists of their endpoints, for the tests of what starts them (src/servers.rs).
use oasis_chain.Prelude.{ℕ, none, some, if◌then◌else◌, ◌==◌, List, Bytes, bytes_eq}
use oasis_chain.RpcApis.{Delegate}
use oasis_chain.Servers.{ServerCrates, started}

-- A host, an address, a request and a response are texts.
abbrev pub toy_servers : ServerCrates
toy_servers = record {
  Host = Bytes;
  host_from = λ s. s;
  host_text = λ s. s;
  AllowedHost = Bytes;
  allowed_host_from = λ s. s;
  SocketAddr = Bytes;
  parse_addr = λ s. some s;
  Request = Bytes;
  Response = Bytes;
  has_uri = bytes_eq;
  response_ok = λ s. s;
  WsServer = List Delegate;
  HttpServer = List Delegate;
  Interval = ℕ;
  new_interval = λ secs. if secs == 0 then none else some secs;
  start_from_ws = λ builder addr. started builder.handler.delegates;
  start_from_http = λ builder addr. started builder.handler.delegates;
  iterate = λ apis. apis;
  iterate_texts = λ texts. texts;
}
