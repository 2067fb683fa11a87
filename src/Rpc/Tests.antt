-- ===== src/Rpc/Tests.antt =====
-- The addresses of src/rpc.rs's tests, hosts by two names, and a server that is not enabled.
use oasis_chain.Prelude.{ℕ, ◌≡◌, refl, true, false, none, some, [], ◌∷◌, Bytes, codes, ok}
use oasis_chain.Decimal.{to_string}
use oasis_chain.Broker.{Broker}
use oasis_chain.Rpc.{HttpConfiguration, address, new_http, replace, with_domain}
use oasis_chain.Servers.Samples.{toy_servers}
use oasis_chain.Servers.{ServerCrates}

not_enabled : address toy_servers false (codes "localhost") 8180 none ≡ none
unfolding address
not_enabled = refl

of_interface :
    address toy_servers true (codes "localhost") 8180 none ≡ some (codes "localhost:8180")
unfolding address to_string
of_interface = refl

of_host :
    address toy_servers true (codes "localhost") 8180 (some (codes "host:443" ∷ []))
    ≡ some (codes "host:443")
unfolding address
of_host = refl

replaced : replace (codes "aa") (codes "b") (codes "aaaxaa") ≡ codes "baxb"
unfolding replace
replaced = refl

local_names :
    with_domain toy_servers (some (codes "x" ∷ codes "x" ∷ [])) (some (codes "127.0.0.1:1"))
    ≡ some (codes "x" ∷ codes "127.0.0.1:1" ∷ codes "localhost:1" ∷ [])
unfolding with_domain replace
local_names = refl

-- A server that is not enabled registers no listener with the broker.
disabled_http :
    (crates : ServerCrates) (id options : Bytes) (conf : HttpConfiguration) (listener : ℕ)
    (broker : Broker)
    → conf.enabled ≡ false
    → new_http crates id options conf listener broker ≡ (ok none, broker)
unfolding new_http
disabled_http crates id options conf listener broker e = rw e refl
