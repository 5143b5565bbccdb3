-- ===== src/Upstream/Clients/Pool.antt =====
-- Which clients a manager holds after any history, and when GetAllClients returns.
use gateway_test.Upstream.Services.{get_all_services, ServiceInfo, UpstreamServices, get_service}
use gateway_test.Prelude.Dict.{Dict, lookup, lookup-store}
use gateway_test.Upstream.Clients.{
  collect, new_service_manager, all_clients, get_locked, get_all_clients, ServiceManager,
  ClientError, get_client, create_client, endpoint_of, endpoint_in, close, client_at,
}
use gateway_test.Prelude.{
  subst, String, ◌≡◌, refl, sym, ap, ◌∙◌, ◌↔◌, ◌⊎◌, inl, inr, Bool, true, false, ◌&&◌, ◌||◌, Option,
  none, some, List, [], ◌∷◌, arith, ◌==◌, nat_eq, string_eq, All, All-map, is_some,
}
use gateway_test.Upstream.Services.Registry.{Change, apply}

-- A call that asks for the client of a service, with the endpoints that can be dialled then.
pub data ClientEvent : Type 0 where
  asks : (String → Bool) → String → ClientEvent
  closes : ClientEvent
  changes : Change → ClientEvent

unfoldable pub client_step : ClientEvent → ServiceManager → ServiceManager
client_step (asks dials service_type) sm = (get_client dials service_type sm).0
client_step closes sm = close sm
client_step (changes c) sm = record sm { services = apply c sm.services }

unfoldable pub client_run : List ClientEvent → ServiceManager → ServiceManager
unfolding client_step
client_run [] sm = sm
client_run (c ∷ cs) sm = client_run cs (client_step c sm)

-- The events seen by the registry alone, and by one endpoint alone.
abbrev pub registry_after : List ClientEvent → UpstreamServices → UpstreamServices
registry_after [] us = us
registry_after (asks dials t ∷ cs) us = registry_after cs us
registry_after (closes ∷ cs) us = registry_after cs us
registry_after (changes c ∷ cs) us = registry_after cs (apply c us)

abbrev pub is_reached : String → (String → Bool) → ClientError ⊎ String → Bool
is_reached e dials (inl _) = false
is_reached e dials (inr endpoint) = endpoint == e && dials e

abbrev pub was_dialled : String → List ClientEvent → UpstreamServices → Bool → Bool
was_dialled e [] us b = b
was_dialled e (asks dials t ∷ cs) us b =
    was_dialled e cs us (b || is_reached e dials (endpoint_in (get_service t us)))
was_dialled e (closes ∷ cs) us b = was_dialled e cs us false
was_dialled e (changes c ∷ cs) us b = was_dialled e cs (apply c us) b

abbrev pub holds_client : String → ServiceManager → Bool
holds_client e sm = is_some (lookup e sm.clients)

client_at-holds :
    (e : String) (dials : String → Bool) (o : ClientError ⊎ String) (sm : ServiceManager)
    → holds_client e (client_at dials o sm).0 ≡ (holds_client e sm || is_reached e dials o)
unfolding client_at create_client
client_at-holds e dials (inl x) sm = ground arith
client_at-holds e dials (inr endpoint) sm =
    ground (arith, string_eq.beq_iff endpoint e, lookup-store endpoint e endpoint sm.clients)

client_at-services :
    (dials : String → Bool) (o : ClientError ⊎ String) (sm : ServiceManager)
    → (client_at dials o sm).0.services ≡ sm.services
unfolding client_at create_client
client_at-services dials (inl x) sm = refl
client_at-services dials (inr endpoint) sm = ground arith

run-holds :
    (e : String) (cs : List ClientEvent) (sm : ServiceManager)
    → holds_client e (client_run cs sm) ≡ was_dialled e cs sm.services (holds_client e sm)
unfolding client_run client_step get_client endpoint_of close lookup
run-holds e [] sm = refl
run-holds e (asks dials t ∷ cs) sm =
    let o = endpoint_in (get_service t sm.services) in
    rw
      (
        run-holds e cs (client_at dials o sm).0,
        client_at-holds e dials o sm,
        client_at-services dials o sm,
      )
      refl
run-holds e (closes ∷ cs) sm = run-holds e cs (close sm)
run-holds e (changes c ∷ cs) sm = run-holds e cs (record sm { services = apply c sm.services })

run-services :
    (cs : List ClientEvent) (sm : ServiceManager)
    → (client_run cs sm).services ≡ registry_after cs sm.services
unfolding client_run client_step get_client endpoint_of close
run-services [] sm = refl
run-services (asks dials t ∷ cs) sm =
    let o = endpoint_in (get_service t sm.services) in
    rw (run-services cs (client_at dials o sm).0, client_at-services dials o sm) refl
run-services (closes ∷ cs) sm = run-services cs (close sm)
run-services (changes c ∷ cs) sm = run-services cs (record sm { services = apply c sm.services })

-- Nothing has to be dialled for the endpoint that a service gives.
abbrev NoDial : (String → Bool) → ClientError ⊎ String → Type 0
NoDial held o = (endpoint : String) → o ≡ inr endpoint → held endpoint ≡ true

abbrev IsFree : ServiceManager → String × ServiceInfo → Type 0
IsFree sm (t, _) = NoDial (λ e. holds_client e sm) (endpoint_of t sm)

get_locked_iff :
    (o : ClientError ⊎ String) (sm : ServiceManager)
    → (is_some (get_locked o sm) ≡ true) ↔ NoDial (λ e. holds_client e sm) o
unfolding get_locked
get_locked_iff (inl x) sm = (λ _ endpoint e. cc, λ _. refl)
get_locked_iff (inr endpoint) sm = (
  λ found e same.
      let p : endpoint ≡ e = cc in subst (λ e. holds_client e sm ≡ true) p (ground (arith, found)),
  λ held. ground (arith, held endpoint refl),
)

collect_iff :
    (t : String) (o : Option (ClientError ⊎ String)) (rest : Option (Dict String String))
    → (is_some (collect t o rest) ≡ true) ↔ ((is_some o ≡ true) × (is_some rest ≡ true))
unfolding collect
collect_iff t none rest = ground arith
collect_iff t (some (inl x)) rest = ground arith
collect_iff t (some (inr c)) none = ground arith
collect_iff t (some (inr c)) (some rest) = ground arith

all_clients_iff :
    (services : List (String × ServiceInfo)) (sm : ServiceManager)
    → (is_some (all_clients services sm) ≡ true) ↔ All (IsFree sm) services
unfolding all_clients
all_clients_iff [] sm = (λ _. tt, λ _. refl)
all_clients_iff ((t, _) ∷ services) sm =
    let o = endpoint_of t sm in
    let rest = all_clients_iff services sm in
    let here = get_locked_iff o sm in
    let both = collect_iff t (get_locked o sm) (all_clients services sm) in
    (λ h. (here.0 (both.0 h).0, rest.0 (both.0 h).1), λ v. both.1 (here.1 v.0, rest.1 v.1))

-- A service needs no new client: it gives no endpoint, or a call has dialled its endpoint with
-- success since the last Close.
abbrev pub IsReady : List ClientEvent → UpstreamServices → String × ServiceInfo → Type 0
IsReady cs us (t, _) =
    NoDial (λ e. was_dialled e cs us false) (endpoint_in (get_service t (registry_after cs us)))

IsReady_iff :
    (cs : List ClientEvent) (us : UpstreamServices) (s : String × ServiceInfo)
    → IsFree (client_run cs (new_service_manager us)) s ↔ IsReady cs us s
unfolding endpoint_of new_service_manager lookup
IsReady_iff cs us (t, _) =
    let start = new_service_manager us in
    let sm = client_run cs start in
    let same = ap (λ r. endpoint_in (get_service t r)) (run-services cs start) in
    (
      λ h e o. sym (run-holds e cs start) ∙ h e (same ∙ o),
      λ h e o. run-holds e cs start ∙ h e (sym same ∙ o),
    )

-- A defect of GetAllClients, which holds the read lock while GetClient wants the write lock: after
-- any history of calls, of closings and of changes of the registry, it returns if and only if every
-- service that gives an endpoint was dialled with success since the last Close.
pub get_all_clients_iff :
    (cs : List ClientEvent) (us : UpstreamServices)
    → (is_some (get_all_clients (client_run cs (new_service_manager us))) ≡ true)
      ↔ All (IsReady cs us) (get_all_services (registry_after cs us))
unfolding get_all_clients new_service_manager
get_all_clients_iff cs us =
    let start = new_service_manager us in
    let sm = client_run cs start in
    let services = get_all_services sm.services in
    let at = all_clients_iff services sm in
    let same = ap (λ r. get_all_services r) (run-services cs start) in
    (
      λ h.
          subst (All (IsReady cs us)) same
            (All-map (IsFree sm) (IsReady cs us) (λ s. (IsReady_iff cs us s).0) services (at.0 h)),
      λ v. at.1 (
          All-map (IsReady cs us) (IsFree sm) (λ s. (IsReady_iff cs us s).1) services
            (subst (All (IsReady cs us)) (sym same) v)),
    )
