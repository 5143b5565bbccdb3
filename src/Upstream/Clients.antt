-- ===== src/Upstream/Clients.antt =====
-- internal/upstream/manager.go: ServiceManager, the clients of the upstream services by endpoint.
-- grpc.Dial, which may fail, and the call of a service are parameters. A client is known by the
-- endpoint that it was made for. `none` is a call that never returns.
pub mod Pool
mod Tests
use gateway_test.Prelude.{
  String, ◌⊎◌, inl, inr, Bool, true, false, Option, none, some, List, [], ◌∷◌, if◌then◌else◌,
  nat_eq, string_eq, is_some,
}
use gateway_test.Prelude.Dict.{Dict, lookup, store}
use gateway_test.Proto.{UpstreamRequest, UpstreamResponse}
use gateway_test.Upstream.Services.{
  UpstreamServices, ServiceInfo, ServiceError, get_service, get_all_services,
}

pub record ServiceManager : Type 0 where
  pub services : UpstreamServices
  pub connections : Dict String String
  pub clients : Dict String String
  pub cancelled : Bool

pub data ClientError : Type 0 where
  service_refused : ServiceError → ClientError
  no_address dial_failed call_failed : ClientError

unfoldable pub new_service_manager : UpstreamServices → ServiceManager
new_service_manager services = record {
  services = services;
  connections = [];
  clients = [];
  cancelled = false;
}

first_address : List String → ClientError ⊎ String
first_address [] = inl no_address
first_address (endpoint ∷ endpoints) = inr endpoint

-- The first address of a service, if it is enabled and has one.
pub endpoint_in : ServiceError ⊎ ServiceInfo → ClientError ⊎ String
unfolding first_address
endpoint_in (inl e) = inl (service_refused e)
endpoint_in (inr service) = first_address service.addresses

unfoldable pub endpoint_of : String → ServiceManager → ClientError ⊎ String
unfolding endpoint_in
endpoint_of service_type sm = endpoint_in (get_service service_type sm.services)

unfoldable pub create_client :
    (String → Bool) → String → ServiceManager → ServiceManager × (ClientError ⊎ String)
create_client dials endpoint sm =
    if is_some (lookup endpoint sm.clients)
    then (sm, inr endpoint)
    else if dials endpoint
    then (
      record sm {
        connections = store endpoint endpoint sm.connections;
        clients = store endpoint endpoint sm.clients;
      },
      inr endpoint,
    )
    else (sm, inl dial_failed)

client_at :
    (String → Bool)
    → ClientError ⊎ String
    → ServiceManager
    → ServiceManager × (ClientError ⊎ String)
client_at dials (inl e) sm = (sm, inl e)
client_at dials (inr endpoint) sm =
    if is_some (lookup endpoint sm.clients)
    then (sm, inr endpoint)
    else create_client dials endpoint sm

unfoldable pub get_client :
    (String → Bool) → String → ServiceManager → ServiceManager × (ClientError ⊎ String)
unfolding client_at
get_client dials service_type sm = client_at dials (endpoint_of service_type sm) sm

answer_of : Option UpstreamResponse → ClientError ⊎ UpstreamResponse
answer_of none = inl call_failed
answer_of (some resp) = inr resp

process_by :
    (String → UpstreamRequest → Option UpstreamResponse)
    → UpstreamRequest
    → ServiceManager × (ClientError ⊎ String)
    → ServiceManager × (ClientError ⊎ UpstreamResponse)
unfolding answer_of
process_by process_request req (sm, inl e) = (sm, inl e)
process_by process_request req (sm, inr client) = (sm, answer_of (process_request client req))

unfoldable pub call_service :
    (String → Bool)
    → (String → UpstreamRequest → Option UpstreamResponse)
    → String
    → UpstreamRequest
    → ServiceManager
    → ServiceManager × (ClientError ⊎ UpstreamResponse)
unfolding process_by
call_service dials process_request service_type req sm =
    process_by process_request req (get_client dials service_type sm)

connected_at : ClientError ⊎ String → ServiceManager → Bool
connected_at (inl e) sm = false
connected_at (inr endpoint) sm = is_some (lookup endpoint sm.clients)

unfoldable pub is_service_connected : String → ServiceManager → Bool
unfolding connected_at
is_service_connected service_type sm = connected_at (endpoint_of service_type sm) sm

-- GetClient under the read lock of GetAllClients: a client that is not there yet is made under the
-- write lock, which waits for the reader, and the reader is the caller.
get_locked : ClientError ⊎ String → ServiceManager → Option (ClientError ⊎ String)
get_locked (inl e) sm = some (inl e)
get_locked (inr endpoint) sm =
    if is_some (lookup endpoint sm.clients) then some (inr endpoint) else none

collect :
    String
    → Option (ClientError ⊎ String)
    → Option (Dict String String)
    → Option (Dict String String)
collect service_type none result = none
collect service_type (some (inl e)) result = result
collect service_type (some (inr client)) none = none
collect service_type (some (inr client)) (some result) = some (store service_type client result)

pub all_clients : List (String × ServiceInfo) → ServiceManager → Option (Dict String String)
unfolding collect get_locked
all_clients [] sm = some []
all_clients ((service_type, _) ∷ services) sm =
    let rest = all_clients services sm in
    collect service_type (get_locked (endpoint_of service_type sm) sm) rest

unfoldable pub get_all_clients : ServiceManager → Option (Dict String String)
unfolding all_clients
get_all_clients sm = all_clients (get_all_services sm.services) sm

-- The context that it cancels is read nowhere.
unfoldable pub close : ServiceManager → ServiceManager
close sm = record sm { connections = []; clients = []; cancelled = true }
