-- ===== src/Session/Ordering/Tests.antt =====
-- Runs of the ordering manager, and instances of its theorems.
use gateway_test.Session.Ordering.{
  clear, count_bound, bound, get_pending_after_count, new_message_ordering_manager,
  get_pending_before_count, MessageOrderingManager, cleanup_expired_notifies,
  get_and_remove_before_notifies, NotifyBindMsgItem,
}
use gateway_test.Prelude.Dict.{lookup}
use gateway_test.Prelude.{
  ℕ, ◌≡◌, refl, Bool, true, false, List, [], ◌∷◌, arith, nat_eq, string_eq, pos,
}
use gateway_test.Proto.{before_response}
use gateway_test.Session.Ordering.Pending.{Bind, bind_all, get_and_remove-bind}
use gateway_test.Session.Ordering.Expiry.{bound-cleanup_expired_notifies}

abbrev item : ℕ → ℕ → NotifyBindMsgItem
item grid time = record {
  notify_data = time ∷ [];
  msg_type = "t";
  title = "";
  content = "";
  metadata = [];
  sync_hint = before_response;
  bind_grid = grid;
  create_time = pos time;
}

abbrev bind : Bool → ℕ → ℕ → Bind
bind before grid time = record { before = before; grid = grid; notify = item grid time }

abbrev binds : List Bind
binds = bind true 7 1 ∷ bind true 8 2 ∷ bind false 7 4 ∷ bind true 7 3 ∷ []

get_and_remove-bind_example :
    (get_and_remove_before_notifies 7 (bind_all binds new_message_ordering_manager)).0
    ≡ item 7 1 ∷ item 7 3 ∷ []
get_and_remove-bind_example = (get_and_remove-bind binds 7 8 (omega arith)).0

abbrev two_ages : MessageOrderingManager
two_ages = record {
  before_rsp_notifies = (7, item 7 1 ∷ item 7 90 ∷ []) ∷ (8, item 8 2 ∷ []) ∷ [];
  after_rsp_notifies = [];
}

clean_run : (cleanup_expired_notifies (pos 100) (pos 20) two_ages).1 ≡ 2
unfolding cleanup_expired_notifies
clean_run = refl

bound-cleanup_expired_notifies_example :
    bound 7 (cleanup_expired_notifies (pos 100) (pos 20) two_ages).0.before_rsp_notifies
    ≡ item 7 90 ∷ []
unfolding lookup
bound-cleanup_expired_notifies_example =
    (bound-cleanup_expired_notifies (pos 100) (pos 20) 7 two_ages
      (unfold lookup in (refl, (refl, tt))) tt).0

cleared :
    (get_pending_before_count (clear (bind_all binds new_message_ordering_manager)) ≡ 0)
    × (get_pending_after_count (clear (bind_all binds new_message_ordering_manager)) ≡ 0)
unfolding clear get_pending_before_count get_pending_after_count count_bound
cleared = (refl, refl)
