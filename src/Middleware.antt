-- ===== src/Middleware.antt =====
-- src/middleware.rs: the limits on the size of a batch and on the rate of a WebSocket session. What
-- handles a request is an argument; a future that is ready is its result.
pub mod Limits
mod Tests
use oasis_chain.Prelude.{
  ℕ, Option, none, some, List, [], ◌∷◌, map, Bytes, ltb, if◌then◌else◌, length,
}
use oasis_chain.Informant.{RpcStats, count_request, open_session, close_session}

-- `rpc::CallId`
pub data CallId : Type 0 where
  null : CallId
  num : ℕ → CallId
  str : Bytes → CallId

-- `rpc::Call`: what an error's answer is made from, with the version where there is one.
pub data Call : Type 0 where
  method_call : CallId → Option ℕ → Bytes → Call
  notification : Option ℕ → Bytes → Call
  invalid : CallId → Call

pub data Request : Type 0 where
  single : Call → Request
  batch : List Call → Request

-- The error codes are -32099 and -32098.
pub data ServerError : Type 0 where
  batch_size rate_limited : ServerError

pub data Output : Type 0 where
  failure : ServerError → CallId → Option ℕ → Output
  success : Bytes → CallId → Option ℕ → Output

pub data Response : Type 0 where
  one : Output → Response
  many : List Output → Response

unfoldable pub generate_error_response_call : ServerError → Call → Output
generate_error_response_call e (method_call id jsonrpc _) = failure e id jsonrpc
generate_error_response_call e (notification jsonrpc _) = failure e null jsonrpc
generate_error_response_call e (invalid id) = failure e id none

unfoldable pub generate_error_response_calls : ServerError → List Call → List Output
unfolding generate_error_response_call
generate_error_response_calls e calls = map (generate_error_response_call e) calls

unfoldable pub generate_error_response : ServerError → Request → Option Response
unfolding generate_error_response_call generate_error_response_calls
generate_error_response e (single call) = some (one (generate_error_response_call e call))
generate_error_response e (batch calls) = some (many (generate_error_response_calls e calls))

-- `Middleware::on_request`
unfoldable pub on_request : ℕ → (Request → Option Response) → Request → Option Response
unfolding generate_error_response_calls
on_request max_batch_size process (single call) = process (single call)
on_request max_batch_size process (batch calls) =
    if ltb max_batch_size (length calls)
    then some (many (generate_error_response_calls batch_size calls))
    else process (batch calls)

-- `Origin`, as far as it is told apart.
pub data Origin : Type 0 where
  ws : ℕ → Origin
  other : Origin

-- `WsDispatcher::on_request`, with the clock at its readings.
unfoldable pub ws_on_request :
    ℕ
    → ℕ
    → ℕ
    → ℕ
    → (Request → Option Response)
    → Request
    → Origin
    → RpcStats
    → Option Response × RpcStats
unfolding generate_error_response
ws_on_request max_req_per_sec first second third process request (ws session) stats =
    let (count, stats') = count_request first second third session stats in
    (
      if ltb max_req_per_sec count
          then generate_error_response rate_limited request
          else process request,
      stats',
    )
ws_on_request max_req_per_sec first second third process request other stats =
    (process request, stats)

-- `WsStats::open_session` and `close_session`
unfoldable pub ws_open_session : ℕ → ℕ → RpcStats → RpcStats
ws_open_session now id stats = open_session now id stats

unfoldable pub ws_close_session : ℕ → RpcStats → RpcStats
ws_close_session id stats = close_session id stats
