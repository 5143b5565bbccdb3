-- ===== src/Session/Ordering/Pending.antt =====
-- What is bound to a request is handed out once, first come first served.
use gateway_test.Session.Ordering.{
  get_and_remove_after_notifies, new_message_ordering_manager, get_and_remove_before_notifies,
  NotifyBindMsgItem, MessageOrderingManager, bound, add_notify_bind_before_rsp,
  add_notify_bind_after_rsp,
}
use gateway_test.Prelude.{
  ℕ, ◌≡◌, ap, ◌≢◌, Bool, not, ◌&&◌, some, List, [], ◌∷◌, ◌++◌, map, arith, eqb, if◌then◌else◌,
  nat_eq, string_eq, select,
}
use gateway_test.Prelude.Dict.{lookup, lookup-store, lookup-delete_self, lookup-delete_other}
use mathlib.Core.List.{append_assoc, append-nil}

-- A bind on one of the two sides.
pub record Bind : Type 0 where
  pub before : Bool
  pub grid : ℕ
  pub notify : NotifyBindMsgItem

abbrev pub bind_one : Bind → MessageOrderingManager → MessageOrderingManager
bind_one b m =
    if b.before
    then (add_notify_bind_before_rsp b.grid (some b.notify) m).0
    else (add_notify_bind_after_rsp b.grid (some b.notify) m).0

abbrev pub bind_all : List Bind → MessageOrderingManager → MessageOrderingManager
bind_all [] m = m
bind_all (b ∷ bs) m = bind_all bs (bind_one b m)

-- The notifies of a history for one side of one request, in the order in which they came.
abbrev pub befores_for : ℕ → List Bind → List NotifyBindMsgItem
befores_for grid bs = map (λ b. b.notify) (select (λ b. b.before && eqb b.grid grid) bs)

abbrev pub afters_for : ℕ → List Bind → List NotifyBindMsgItem
afters_for grid bs = map (λ b. b.notify) (select (λ b. not b.before && eqb b.grid grid) bs)

bind_before_step :
    (g : ℕ) (b : Bind) (m : MessageOrderingManager)
    → bound g (bind_one b m).before_rsp_notifies
      ≡ bound g m.before_rsp_notifies ++ befores_for g (b ∷ [])
unfolding add_notify_bind_before_rsp add_notify_bind_after_rsp
bind_before_step g b m = ground (
  arith,
  lookup-store b.grid g (bound b.grid m.before_rsp_notifies ++ b.notify ∷ []) m.before_rsp_notifies,
  append-nil (bound g m.before_rsp_notifies),
)

bind_after_step :
    (g : ℕ) (b : Bind) (m : MessageOrderingManager)
    → bound g (bind_one b m).after_rsp_notifies
      ≡ bound g m.after_rsp_notifies ++ afters_for g (b ∷ [])
unfolding add_notify_bind_before_rsp add_notify_bind_after_rsp
bind_after_step g b m = ground (
  arith,
  lookup-store b.grid g (bound b.grid m.after_rsp_notifies ++ b.notify ∷ []) m.after_rsp_notifies,
  append-nil (bound g m.after_rsp_notifies),
)

befores_for-cons :
    (g : ℕ) (b : Bind) (bs : List Bind)
    → befores_for g (b ∷ []) ++ befores_for g bs ≡ befores_for g (b ∷ bs)
befores_for-cons g b bs = ground arith

afters_for-cons :
    (g : ℕ) (b : Bind) (bs : List Bind)
    → afters_for g (b ∷ []) ++ afters_for g bs ≡ afters_for g (b ∷ bs)
afters_for-cons g b bs = ground arith

bind_all_before :
    (g : ℕ) (bs : List Bind) (m : MessageOrderingManager)
    → bound g (bind_all bs m).before_rsp_notifies
      ≡ bound g m.before_rsp_notifies ++ befores_for g bs
bind_all_before g [] m = rw append-nil
bind_all_before g (b ∷ bs) m =
    rw (bind_all_before g bs (bind_one b m), bind_before_step g b m, append_assoc)
      (ap (◌++◌ (bound g m.before_rsp_notifies)) (befores_for-cons g b bs))

bind_all_after :
    (g : ℕ) (bs : List Bind) (m : MessageOrderingManager)
    → bound g (bind_all bs m).after_rsp_notifies ≡ bound g m.after_rsp_notifies ++ afters_for g bs
bind_all_after g [] m = rw append-nil
bind_all_after g (b ∷ bs) m =
    rw (bind_all_after g bs (bind_one b m), bind_after_step g b m, append_assoc)
      (ap (◌++◌ (bound g m.after_rsp_notifies)) (afters_for-cons g b bs))

module _ (bs : List Bind) where
  abbrev history : MessageOrderingManager
  history = bind_all bs new_message_ordering_manager

  history-before : (g : ℕ) → bound g history.before_rsp_notifies ≡ befores_for g bs
  unfolding new_message_ordering_manager lookup
  history-before g = bind_all_before g bs new_message_ordering_manager

  history-after : (g : ℕ) → bound g history.after_rsp_notifies ≡ afters_for g bs
  unfolding new_message_ordering_manager lookup
  history-after g = bind_all_after g bs new_message_ordering_manager

-- After any history of binds on a new manager, on the two sides in any order, taking the notifies
-- of a request returns exactly those bound to it, on each side, in the order in which they came. A
-- second take returns none, and what is bound to another request stays.
pub get_and_remove-bind :
    (bs : List Bind) (g h : ℕ)
    → g ≢ h
    → let m = bind_all bs new_message_ordering_manager in
      let r = get_and_remove_before_notifies g m in
      let s = get_and_remove_after_notifies g r.1 in
      (r.0 ≡ befores_for g bs)
      × (s.0 ≡ afters_for g bs)
      × ((get_and_remove_before_notifies g s.1).0 ≡ [])
      × ((get_and_remove_after_notifies g s.1).0 ≡ [])
      × ((get_and_remove_before_notifies h s.1).0 ≡ befores_for h bs)
      × ((get_and_remove_after_notifies h s.1).0 ≡ afters_for h bs)
unfolding get_and_remove_before_notifies get_and_remove_after_notifies
get_and_remove-bind bs g h d =
    let m = bind_all bs new_message_ordering_manager in
    (
      history-before bs g,
      history-after bs g,
      rw (lookup-delete_self g m.before_rsp_notifies),
      rw (lookup-delete_self g m.after_rsp_notifies),
      rw (lookup-delete_other g h m.before_rsp_notifies d) (history-before bs h),
      rw (lookup-delete_other g h m.after_rsp_notifies d) (history-after bs h),
    )
