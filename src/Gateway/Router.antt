-- ===== src/Gateway/Router.antt =====
-- internal/gateway/upstream_routerold.go: which upstream service an action goes to. `Text` stands
-- for strings.ToLower and strings.Contains.
use gateway_test.Prelude.{
  String, Bool, false, ◌||◌, List, [], ◌∷◌, if◌then◌else◌, ◌==◌, nat_eq, string_eq,
}
use gateway_test.Proto.{BusinessRequest}

pub record Text : Type 0 where
  pub to_lower : String → String
  pub contains : String → String → Bool

abbrev pub service_hello : String
service_hello = "hello"

abbrev pub service_zone : String
service_zone = "zone"

abbrev pub service_business : String
service_business = "business"

any_of : (String → Bool) → List String → Bool
any_of test [] = false
any_of test (x ∷ xs) = test x || any_of test xs

unfoldable pub is_hello_action : String → Bool
unfolding any_of
is_hello_action action =
    any_of (λ hello. action == hello)
      ("hello" ∷ "logout" ∷ "status" ∷ "heartbeat" ∷ "data_sync" ∷ [])

unfoldable pub is_zone_action : Text → String → Bool
unfolding any_of
is_zone_action text action =
    any_of (λ zone. action == zone || text.contains action zone)
      ("zone" ∷ "echo" ∷ "calculate" ∷ "time" ∷ [])

unfoldable pub determine_upstream_service : Text → BusinessRequest → String
determine_upstream_service text req =
    let action = text.to_lower req.action in
    if is_hello_action action
    then service_hello
    else if is_zone_action text action
    then service_zone
    else service_business
