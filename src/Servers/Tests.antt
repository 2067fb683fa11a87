-- ===== src/Servers/Tests.antt =====
-- src/servers.rs: a request for the status, and another.
use oasis_chain.Prelude.{◌≡◌, refl, [], codes}
use oasis_chain.Servers.Samples.{toy_servers}
use oasis_chain.Servers.{status_middleware, proceed, respond}

answers_status : status_middleware toy_servers (codes "/status") ≡ respond []
unfolding status_middleware
answers_status = refl

hands_on : status_middleware toy_servers (codes "/") ≡ proceed (codes "/")
unfolding status_middleware
hands_on = refl
