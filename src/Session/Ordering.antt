-- ===== src/Session/Ordering.antt =====
-- internal/session/notify_ordering.go: notifies bound to the response of a client request.
-- A nil pointer is `none`; the mutex makes each method one step.
pub mod Pending
pub mod Expiry
mod Tests
use gateway_test.Prelude.{
  ℕ, ◌+◌, String, refl, Bool, true, false, Option, none, some, List, [], ◌∷◌, ◌++◌, arith, eqb,
  if◌then◌else◌, nat_eq, string_eq, length, ℤ, sub64, leb_ℤ,
}
use gateway_test.Proto.{NotifySyncHint}
use gateway_test.Prelude.Dict.{Dict, lookup, store, delete}

pub record NotifyBindMsgItem : Type 0 where
  pub notify_data : List ℕ
  pub msg_type : String
  pub title : String
  pub content : String
  pub metadata : Dict String String
  pub sync_hint : NotifySyncHint
  pub bind_grid : ℕ
  pub create_time : ℤ

-- A map from a client sequence number to its notifies.
abbrev pub Bindings : Type 0
Bindings = Dict ℕ (List NotifyBindMsgItem)

pub record MessageOrderingManager : Type 0 where
  pub before_rsp_notifies : Bindings
  pub after_rsp_notifies : Bindings

unfoldable pub new_message_ordering_manager : MessageOrderingManager
new_message_ordering_manager = record { before_rsp_notifies = []; after_rsp_notifies = [] }

-- `m[grid]`, which is the nil slice at a missing key.
abbrev pub bound_list : Option (List NotifyBindMsgItem) → List NotifyBindMsgItem
bound_list none = []
bound_list (some ns) = ns

abbrev pub bound : ℕ → Bindings → List NotifyBindMsgItem
bound grid m = bound_list (lookup grid m)

unfoldable pub add_notify_bind_before_rsp :
    ℕ → Option NotifyBindMsgItem → MessageOrderingManager → MessageOrderingManager × Bool
add_notify_bind_before_rsp grid none m = (m, false)
add_notify_bind_before_rsp grid (some notify) m = (
  record m {
    before_rsp_notifies =
        store grid (bound grid m.before_rsp_notifies ++ notify ∷ []) m.before_rsp_notifies;
  },
  true,
)

unfoldable pub add_notify_bind_after_rsp :
    ℕ → Option NotifyBindMsgItem → MessageOrderingManager → MessageOrderingManager × Bool
add_notify_bind_after_rsp grid none m = (m, false)
add_notify_bind_after_rsp grid (some notify) m = (
  record m {
    after_rsp_notifies =
        store grid (bound grid m.after_rsp_notifies ++ notify ∷ []) m.after_rsp_notifies;
  },
  true,
)

unfoldable pub get_and_remove_before_notifies :
    ℕ → MessageOrderingManager → List NotifyBindMsgItem × MessageOrderingManager
get_and_remove_before_notifies grid m = (
  bound grid m.before_rsp_notifies,
  record m { before_rsp_notifies = delete grid m.before_rsp_notifies },
)

unfoldable pub get_and_remove_after_notifies :
    ℕ → MessageOrderingManager → List NotifyBindMsgItem × MessageOrderingManager
get_and_remove_after_notifies grid m = (
  bound grid m.after_rsp_notifies,
  record m { after_rsp_notifies = delete grid m.after_rsp_notifies },
)

-- The counting loop over one map.
count_bound : Bindings → ℕ
count_bound [] = 0
count_bound ((grid, notifies) ∷ m) = length notifies + count_bound m

pub get_pending_before_count : MessageOrderingManager → ℕ
get_pending_before_count m = count_bound m.before_rsp_notifies

pub get_pending_after_count : MessageOrderingManager → ℕ
get_pending_after_count m = count_bound m.after_rsp_notifies

-- `currentTime - notify.CreateTime <= maxAge`
abbrev is_young : ℤ → ℤ → NotifyBindMsgItem → Bool
is_young current_time max_age notify = leb_ℤ (sub64 current_time notify.create_time) max_age

-- The inner loop: what stays, and how many were cleaned.
filter_young : ℤ → ℤ → List NotifyBindMsgItem → List NotifyBindMsgItem × ℕ
filter_young current_time max_age [] = ([], 0)
filter_young current_time max_age (notify ∷ notifies) =
    let (filtered, cleaned) = filter_young current_time max_age notifies in
    if is_young current_time max_age notify
    then (notify ∷ filtered, cleaned)
    else (filtered, cleaned + 1)

-- The loop over one map, which drops a key with nothing left.
cleanup_map : ℤ → ℤ → Bindings → Bindings × ℕ
unfolding filter_young
cleanup_map current_time max_age [] = ([], 0)
cleanup_map current_time max_age ((grid, notifies) ∷ m) =
    let (rest, cleaned_rest) = cleanup_map current_time max_age m in
    let (filtered, cleaned) = filter_young current_time max_age notifies in
    if eqb (length filtered) 0
    then (rest, cleaned + cleaned_rest)
    else ((grid, filtered) ∷ rest, cleaned + cleaned_rest)

unfoldable pub cleanup_expired_notifies :
    ℤ → ℤ → MessageOrderingManager → MessageOrderingManager × ℕ
unfolding cleanup_map
cleanup_expired_notifies current_time max_age m =
    let (before, cleaned_before) = cleanup_map current_time max_age m.before_rsp_notifies in
    let (after, cleaned_after) = cleanup_map current_time max_age m.after_rsp_notifies in
    (
      record { before_rsp_notifies = before; after_rsp_notifies = after },
      cleaned_before + cleaned_after,
    )

unfoldable pub clear : MessageOrderingManager → MessageOrderingManager
clear m = record { before_rsp_notifies = []; after_rsp_notifies = [] }
