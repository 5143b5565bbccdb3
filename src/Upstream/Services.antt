-- ===== src/Upstream/Services.antt =====
-- internal/upstream/services.go: the registry of upstream services. The lock makes each method one
-- step. The map holds pointers, and GetService hands one out; a caller that keeps it sees later
-- changes, which the model leaves to the next lookup.
pub mod Registry
mod Tests
use gateway_test.Prelude.{
  ℕ, ◌+◌, String, refl, ◌⊎◌, inl, inr, Bool, true, false, ◌&&◌, Option, none, some, List, [], ◌∷◌,
  arith, ltb, if◌then◌else◌, nat_eq, string_eq, length,
}
use gateway_test.Prelude.Dict.{Dict, lookup, store, delete}

-- ServiceType is a text.
pub record ServiceInfo : Type 0 where
  pub service_type : String
  pub addresses : List String
  pub enabled : Bool

pub record UpstreamServices : Type 0 where
  pub services : Dict String ServiceInfo

pub data ServiceError : Type 0 where
  no_such_service service_disabled : ServiceError

unfoldable pub new_upstream_services : UpstreamServices
new_upstream_services = record { services = [] }

unfoldable pub add_service : String → List String → UpstreamServices → UpstreamServices
add_service service_type addresses us = record us {
  services =
      store service_type
        (record { service_type = service_type; addresses = addresses; enabled = true }) us.services;
}

abbrev usable : Option ServiceInfo → ServiceError ⊎ ServiceInfo
usable none = inl no_such_service
usable (some service) = if service.enabled then inr service else inl service_disabled

unfoldable pub get_service : String → UpstreamServices → ServiceError ⊎ ServiceInfo
get_service service_type us = usable (lookup service_type us.services)

-- A copy of every entry.
unfoldable pub get_all_services : UpstreamServices → Dict String ServiceInfo
get_all_services us = us.services

-- A change of the entry that a key has, which stays where it is.
abbrev changed :
    String
    → (ServiceInfo → ServiceInfo)
    → UpstreamServices
    → Option ServiceInfo
    → UpstreamServices × Option ServiceError
changed service_type f us none = (us, some no_such_service)
changed service_type f us (some service) =
    (record us { services = store service_type (f service) us.services }, none)

unfoldable pub update_service :
    String → List String → UpstreamServices → UpstreamServices × Option ServiceError
update_service service_type addresses us =
    changed service_type (λ service. record service { addresses = addresses }) us
      (lookup service_type us.services)

unfoldable pub enable_service : String → UpstreamServices → UpstreamServices × Option ServiceError
enable_service service_type us =
    changed service_type (λ service. record service { enabled = true }) us
      (lookup service_type us.services)

unfoldable pub disable_service : String → UpstreamServices → UpstreamServices × Option ServiceError
disable_service service_type us =
    changed service_type (λ service. record service { enabled = false }) us
      (lookup service_type us.services)

unfoldable pub remove_service : String → UpstreamServices → UpstreamServices
remove_service service_type us = record us { services = delete service_type us.services }

unfoldable pub get_service_count : UpstreamServices → ℕ
get_service_count us = length us.services

count_enabled : Dict String ServiceInfo → ℕ
count_enabled [] = 0
count_enabled ((_, service) ∷ m) =
    let count = count_enabled m in if service.enabled then count + 1 else count

unfoldable pub get_enabled_service_count : UpstreamServices → ℕ
unfolding count_enabled
get_enabled_service_count us = count_enabled us.services

abbrev available : Option ServiceInfo → Bool
available none = false
available (some service) = service.enabled && ltb 0 (length service.addresses)

unfoldable pub is_service_available : String → UpstreamServices → Bool
is_service_available service_type us = available (lookup service_type us.services)
