-- ===== src/Middleware/Tests.antt =====
-- The theorem on the rate limit at a concrete session.
use oasis_chain.Prelude.{
  ◌*◌, ◌^◌, ◌≡◌, refl, Option, none, some, List, [], ◌∷◌, lookup, nat_eq, arith,
}
use oasis_chain.Informant.{RateCalculator, RpcStats, sample}
use oasis_chain.Middleware.{
  Request, Response, single, batch, method_call, notification, num, null, on_request, many, failure,
  batch_size, one, success,
}
use oasis_chain.Middleware.Limits.{serve, split_at, serve-limits}

abbrev calc : RateCalculator
calc = record { era = 0; samples = 0 ∷ 0 ∷ 1 ∷ 0 ∷ 0 ∷ 0 ∷ 0 ∷ 0 ∷ 0 ∷ 0 ∷ [] }

abbrev stats : RpcStats
stats = (7, calc) ∷ []

abbrev requests : List Request
requests =
    single (method_call (num 1) none [])
    ∷ single (method_call (num 2) none [])
    ∷ single (notification none [])
    ∷ []

abbrev process : Request → Option Response
process request = some (one (success [] null none))

-- The session has had one request in second 2, and two are allowed.
serve-limits_example :
    serve 2 (2 * 10 ^ 9) 7 process requests stats ≡ split_at 2 (2 * 10 ^ 9) 7 process 1 requests
unfolding lookup sample
serve-limits_example =
    serve-limits 2 (2 * 10 ^ 9) 7 process requests stats calc refl (omega arith) refl (omega arith)

large_batch :
    on_request 1 process (batch (method_call (num 1) none [] ∷ notification none [] ∷ []))
    ≡ some (many (failure batch_size (num 1) none ∷ failure batch_size null none ∷ []))
unfolding on_request
large_batch = refl
