-- ===== src/Tests/Gateway.antt =====
-- Ann's browser connects to the gateway.
use auth_backend.Base.{ℕ, refl, Bool, true, false, some, none, []}
use auth_backend.Chat.Gateway.{Gateway, set, handle_connection}
use auth_backend.Chat.Gateway.Connections.{IsTracked, connects, stop, next, GatewayRun-IsTracked}
use auth_backend.Tests.Fixtures.{services}

abbrev quiet : Gateway
quiet = record { user_sockets = λ u. none; user_of = λ c. none; calls = [] }

abbrev nobody : ℕ → Bool
nobody c = false

GatewayRun-IsTracked_example :
    IsTracked (handle_connection services 7 80 (some "refresh") quiet, set 80 true nobody)
GatewayRun-IsTracked_example =
    GatewayRun-IsTracked services (next (connects 7 80 (some "refresh") quiet nobody refl) (stop _))
      (record { tracked = λ u c. refl })
