-- ===== src/Upstream/Clients/Tests.antt =====
-- Runs of the client manager, and instances of its theorems.
use gateway_test.Prelude.{
  ◌≡◌, refl, ◌↔◌, inl, true, false, none, some, List, [], ◌∷◌, ◌==◌, nat_eq, string_eq, All,
  is_some,
}
use gateway_test.Prelude.Dict.{lookup, store, delete}
use gateway_test.Proto.{UpstreamRequest}
use gateway_test.Upstream.Services.{
  UpstreamServices, new_upstream_services, get_service, get_all_services, add_service,
  disable_service, service_disabled,
}
use gateway_test.Upstream.Services.Registry.{apply, adds, disables, apply_all}
use gateway_test.Upstream.Clients.{
  get_client, is_service_connected, get_all_clients, new_service_manager, call_service,
  ServiceManager, service_refused, dial_failed, call_failed, create_client, close, endpoint_of,
}
use gateway_test.Upstream.Clients.Pool.{
  ClientEvent, asks, closes, changes, client_run, client_step, get_all_clients_iff, IsReady,
  registry_after,
}

abbrev us : UpstreamServices
us =
    apply_all (adds "zone" ("z1" ∷ "z2" ∷ []) ∷ adds "hello" ("h1" ∷ []) ∷ []) new_upstream_services

-- Both are called, then one moves to another address that cannot be dialled.
abbrev history : List ClientEvent
history =
    asks (λ _. true) "zone"
    ∷ asks (λ _. true) "hello"
    ∷ changes (adds "hello" ("h2" ∷ []))
    ∷ asks (λ e. e == "h1") "hello"
    ∷ []

abbrev manager : ServiceManager
manager = client_run history (new_service_manager us)

get_all_clients_iff_example :
    (is_some (get_all_clients manager) ≡ true)
    ↔ All (IsReady history us) (get_all_services (registry_after history us))
get_all_clients_iff_example = get_all_clients_iff history us

states :
    (is_service_connected "zone" manager ≡ true)
    × (is_service_connected "hello" manager ≡ false)
    × (get_all_clients manager ≡ none)
    × (get_all_clients (client_step (changes (disables "hello")) manager)
        ≡ some (("zone", "z1") ∷ []))
    × (is_service_connected "zone" (client_step closes manager) ≡ false)
unfolding client_run client_step get_client is_service_connected get_all_clients new_service_manager
    call_service create_client close endpoint_of get_service get_all_services add_service
    disable_service new_upstream_services apply apply_all lookup store delete
states = (refl, refl, refl, refl, refl)

abbrev request : UpstreamRequest
request = record {
  session_id = "s";
  openid = "u";
  action = "enter";
  params = [];
  message_data = [];
  headers = [];
  client_seq_id = 1;
}

answers :
    ((call_service (λ _. false) (λ _ _. none) "hello" request manager).1 ≡ inl dial_failed)
    × ((call_service (λ _. false) (λ _ _. none) "zone" request manager).1 ≡ inl call_failed)
    × ((call_service
          (λ _. true)
          (λ _ _. none)
          "hello"
          request
          (client_step (changes (disables "hello")) manager)).1
        ≡ inl (service_refused service_disabled))
unfolding client_run client_step get_client is_service_connected get_all_clients new_service_manager
    call_service create_client close endpoint_of get_service get_all_services add_service
    disable_service new_upstream_services apply apply_all lookup store delete
answers = (refl, refl, refl)
