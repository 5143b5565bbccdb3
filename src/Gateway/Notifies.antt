-- ===== src/Gateway/Notifies.antt =====
-- internal/gateway/handlers.go: the notifies that are bound before and after a response.
pub mod Runs
use gateway_test.Prelude.{
  ℕ, refl, Option, none, some, List, [], ◌∷◌, arith, if◌then◌else◌, nat_eq, string_eq, is_some,
}
use gateway_test.Session.Ordering.{
  NotifyBindMsgItem, MessageOrderingManager, get_and_remove_before_notifies,
  get_and_remove_after_notifies,
}
use gateway_test.Session.Queue.{Wire}
use gateway_test.Session.State.{Session}
use gateway_test.Gateway.Sender.{SenderEnv, Sent, push_business}

module _ (env : SenderEnv) where
  -- The loop over the notifies; the first failure ends it.
  pub push_items : List NotifyBindMsgItem → Session → Wire → Sent
  push_items [] s w = (s, w, none)
  push_items (item ∷ items) s w =
      let r = push_business env item.notify_data s w in
      let rest = push_items items r.0 r.1 in if is_some r.2 then r else rest

  pub before_of : Option MessageOrderingManager → ℕ → Session → Wire → Sent
  unfolding push_items
  before_of none grid s w = (s, w, none)
  before_of (some m) grid s w =
      let (items, m') = get_and_remove_before_notifies grid m in
      push_items items (record s { ordering_manager = some m' }) w

  pub after_of : Option MessageOrderingManager → ℕ → Session → Wire → Sent
  unfolding push_items
  after_of none grid s w = (s, w, none)
  after_of (some m) grid s w =
      let (items, m') = get_and_remove_after_notifies grid m in
      push_items items (record s { ordering_manager = some m' }) w

  unfoldable pub send_before_notifies : ℕ → Session → Wire → Sent
  unfolding before_of
  send_before_notifies grid s w = before_of s.ordering_manager grid s w

  unfoldable pub send_after_notifies : ℕ → Session → Wire → Sent
  unfolding after_of
  send_after_notifies grid s w = after_of s.ordering_manager grid s w

  -- An error of the first loop leaves the second out.
  unfoldable pub process_bound_notifies : ℕ → Session → Wire → Sent
  process_bound_notifies grid s w =
      let r = send_before_notifies grid s w in
      let rest = send_after_notifies grid r.0 r.1 in if is_some r.2 then r else rest
