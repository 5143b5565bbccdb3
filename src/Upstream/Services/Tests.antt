-- ===== src/Upstream/Services/Tests.antt =====
-- Runs of the registry, and instances of its theorems.
use gateway_test.Prelude.{◌≡◌, refl, inr, true, List, [], ◌∷◌, nat_eq, string_eq, length}
use gateway_test.Prelude.Dict.{lookup, store, delete}
use gateway_test.Upstream.Services.{
  UpstreamServices, new_upstream_services, add_service, update_service, enable_service,
  disable_service, remove_service, get_service, is_service_available, get_enabled_service_count,
  get_service_count, get_all_services,
}
use gateway_test.Upstream.Services.Registry.{
  Change, adds, updates, enables, disables, removes, apply, apply_all, get_service-apply_all,
  addresses_of,
}

abbrev changes : List Change
changes =
    adds "hello" ("h1" ∷ [])
    ∷ adds "zone" ("z1" ∷ [])
    ∷ disables "hello"
    ∷ updates "hello" ("h2" ∷ "h3" ∷ [])
    ∷ updates "business" ("b" ∷ [])
    ∷ enables "hello"
    ∷ disables "zone"
    ∷ []

abbrev registry : UpstreamServices
registry = apply_all changes new_upstream_services

get_service-apply_all_example :
    (addresses_of (get_service "hello" registry) ≡ inr ("h2" ∷ "h3" ∷ []))
    × (is_service_available "hello" registry ≡ true)
get_service-apply_all_example = get_service-apply_all "hello" changes

counts :
    (get_service_count registry ≡ 2)
    × (get_enabled_service_count registry ≡ 1)
    × (length (get_all_services (apply (removes "zone") registry)) ≡ 1)
unfolding get_service_count get_enabled_service_count get_all_services apply apply_all add_service
    update_service enable_service disable_service remove_service new_upstream_services store delete
    lookup
counts = (refl, refl, refl)
