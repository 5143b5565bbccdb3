-- ===== src/Upstream/Services/Registry.antt =====
-- What a history of changes leaves in the registry.
use gateway_test.Upstream.Services.{
  service_disabled, no_such_service, UpstreamServices, ServiceInfo, ServiceError, add_service,
  update_service, enable_service, disable_service, remove_service, new_upstream_services,
  get_service, is_service_available, changed,
}
use gateway_test.Prelude.{
  String, ◌≡◌, refl, ap, ◌∙◌, ◌⊎◌, inl, inr, Bool, true, false, ◌&&◌, Option, none, some, List, [],
  ◌∷◌, arith, ltb, if◌then◌else◌, Bool-cases, Option-cases, ◌==◌, nat_eq, string_eq, length,
}
use gateway_test.Prelude.Dict.{lookup, lookup-store, lookup-delete}

-- The methods that change the registry, as one alphabet.
pub data Change : Type 0 where
  adds updates : String → List String → Change
  enables disables removes : String → Change

unfoldable pub apply : Change → UpstreamServices → UpstreamServices
apply (adds t addresses) us = add_service t addresses us
apply (updates t addresses) us = (update_service t addresses us).0
apply (enables t) us = (enable_service t us).0
apply (disables t) us = (disable_service t us).0
apply (removes t) us = remove_service t us

unfoldable pub apply_all : List Change → UpstreamServices → UpstreamServices
apply_all [] us = us
apply_all (c ∷ cs) us = apply_all cs (apply c us)

-- One service by itself: no service, or its addresses and whether it is enabled.
abbrev on_some :
    (List String × Bool → List String × Bool)
    → Option (List String × Bool)
    → Option (List String × Bool)
on_some f none = none
on_some f (some s) = some (f s)

abbrev pub follow : String → Change → Option (List String × Bool) → Option (List String × Bool)
follow k (adds t addresses) s = if t == k then some (addresses, true) else s
follow k (updates t addresses) s = if t == k then on_some (λ p. (addresses, p.1)) s else s
follow k (enables t) s = if t == k then on_some (λ p. (p.0, true)) s else s
follow k (disables t) s = if t == k then on_some (λ p. (p.0, false)) s else s
follow k (removes t) s = if t == k then none else s

abbrev pub follow_all :
    String → List Change → Option (List String × Bool) → Option (List String × Bool)
follow_all k [] s = s
follow_all k (c ∷ cs) s = follow_all k cs (follow k c s)

abbrev view_info : Option ServiceInfo → Option (List String × Bool)
view_info none = none
view_info (some service) = some (service.addresses, service.enabled)

abbrev view : String → UpstreamServices → Option (List String × Bool)
view k us = view_info (lookup k us.services)

changed-view :
    (k t : String) (f : ServiceInfo → ServiceInfo) (g : List String × Bool → List String × Bool)
    (us : UpstreamServices)
    → ((s : ServiceInfo) → view_info (some (f s)) ≡ some (g (s.addresses, s.enabled)))
    → view k (changed t f us (lookup t us.services)).0
      ≡ (if t == k then on_some g (view k us) else view k us)
changed-view k t f g us same = elim (Option-cases (lookup t us.services)) [
  | inl missing ↦ ground (arith, missing, string_eq.beq_iff t k)
  | inr (service, e) ↦
      ground
        (arith, e, string_eq.beq_iff t k, lookup-store t k (f service) us.services, same service)
]

apply-view :
    (k : String) (c : Change) (us : UpstreamServices) → view k (apply c us) ≡ follow k c (view k us)
unfolding apply add_service update_service enable_service disable_service remove_service
apply-view k (adds t addresses) us = ground (
  arith,
  lookup-store t k (record { service_type = t; addresses = addresses; enabled = true }) us.services,
)
apply-view k (updates t addresses) us = changed-view k t _ _ us (λ s. refl)
apply-view k (enables t) us = changed-view k t _ _ us (λ s. refl)
apply-view k (disables t) us = changed-view k t _ _ us (λ s. refl)
apply-view k (removes t) us = ground (arith, lookup-delete t k us.services)

apply_all-view :
    (k : String) (cs : List Change) (us : UpstreamServices)
    → view k (apply_all cs us) ≡ follow_all k cs (view k us)
unfolding apply_all
apply_all-view k [] us = refl
apply_all-view k (c ∷ cs) us =
    apply_all-view k cs (apply c us) ∙ ap (follow_all k cs) (apply-view k c us)

-- The answer of `get_service`, as far as its addresses.
abbrev pub addresses_of : ServiceError ⊎ ServiceInfo → ServiceError ⊎ List String
addresses_of (inl e) = inl e
addresses_of (inr service) = inr service.addresses

abbrev pub expected_service : Option (List String × Bool) → ServiceError ⊎ List String
expected_service none = inl no_such_service
expected_service (some (addresses, true)) = inr addresses
expected_service (some (addresses, false)) = inl service_disabled

abbrev pub expected_available : Option (List String × Bool) → Bool
expected_available none = false
expected_available (some (addresses, enabled)) = enabled && ltb 0 (length addresses)

get_service-view :
    (k : String) (us : UpstreamServices)
    → addresses_of (get_service k us) ≡ expected_service (view k us)
unfolding get_service
get_service-view k us = elim (Option-cases (lookup k us.services)) [
  | inl missing ↦ rw missing refl
  | inr (service, e) ↦ elim (Bool-cases service.enabled) [
    | inl on ↦ ground (arith, e, on)
    | inr off ↦ ground (arith, e, off)
  ]
]

is_service_available-view :
    (k : String) (us : UpstreamServices)
    → is_service_available k us ≡ expected_available (view k us)
unfolding is_service_available
is_service_available-view k us = elim (Option-cases (lookup k us.services)) [
  | inl missing ↦ rw missing refl
  | inr (service, e) ↦ rw e refl
]

-- After any history of changes on a new registry, a service is found with the addresses that the
-- last change of its own gave it, if it was added, not removed since, and not disabled since it was
-- last added or enabled; otherwise the error says which it lacks. It is available if it is found
-- and has an address. No change of another service matters.
pub get_service-apply_all :
    (k : String) (cs : List Change)
    → let us = apply_all cs new_upstream_services in
      let expected = follow_all k cs none in
      (addresses_of (get_service k us) ≡ expected_service expected)
      × (is_service_available k us ≡ expected_available expected)
unfolding new_upstream_services lookup
get_service-apply_all k cs =
    let us = apply_all cs new_upstream_services in
    let seen = apply_all-view k cs new_upstream_services in
    (
      get_service-view k us ∙ ap expected_service seen,
      is_service_available-view k us ∙ ap expected_available seen,
    )
