-- ===== src/Gateway/Notifies/Runs.antt =====
-- The notifies of one request, sent in a row.
use gateway_test.Session.Ordering.{
  get_and_remove_after_notifies, get_and_remove_before_notifies, bound, NotifyBindMsgItem,
  MessageOrderingManager,
}
use gateway_test.Gateway.Notifies.{
  push_items, before_of, after_of, send_before_notifies, send_after_notifies,
  process_bound_notifies,
}
use gateway_test.Prelude.{
  ℕ, subst, ◌+◌, ◌<◌, ◌≡◌, refl, sym, ap, ◌∙◌, Option, none, some, List, [], ◌∷◌, ◌++◌, map, arith,
  nat_eq, string_eq, length, u64_mod,
}
use gateway_test.Session.Queue.{Wire}
use gateway_test.Session.State.{Session}
use gateway_test.Gateway.Sender.{SenderEnv, Sent, push_business, business_data}
use gateway_test.Gateway.Sender.Bodies.{bodies, sent_onto, IsOpen, IsReady, send-Puts}

abbrev pub notify_bodies : List NotifyBindMsgItem → List (List ℕ)
notify_bodies items = map (λ item. item.notify_data) items

-- Sends that all succeed: the bodies, one after the other, and the next number.
pub record Runs (n : ℕ) (bs : List (List ℕ)) (s : Session) (w : Wire) (r : Sent) : Type 0 where
  pub ready : IsReady n r.0
  pub sent : bodies r.1.log ≡ sent_onto bs (bodies w.log)
  pub fine : r.2 ≡ none

IsReady-same :
    {n : ℕ} {s : Session} (m : Option MessageOrderingManager)
    → IsReady n s
    → IsReady n (record s { ordering_manager = m })
IsReady-same m v = record {
  queue = v.queue;
  holds = v.holds;
  empty = v.empty;
  live = v.live;
  room = v.room;
  due = v.due;
  number = v.number;
  unclosed = v.unclosed;
}

module _ (env : SenderEnv) (open_env : IsOpen env) where
  push_items-Runs :
      (items : List NotifyBindMsgItem) (n : ℕ) (s : Session) (w : Wire)
      → n + length items < u64_mod
      → IsReady n s
      → let r = push_items env items s w in
        Runs (n + length items) (notify_bodies items) s w r
        × (r.0.ordering_manager ≡ s.ordering_manager)
  unfolding push_items push_business
  push_items-Runs [] n s w small v =
      (record { ready = subst (λ k. IsReady k s) (omega arith) v; sent = refl; fine = refl }, refl)
  push_items-Runs (item ∷ items) n s w small v =
      let r = push_business env item.notify_data s w in
      let once =
        send-Puts env open_env n (business_data env item.notify_data) s w (omega arith) v in
      let (rest, same) = push_items-Runs items (n + 1) r.0 r.1 (omega arith) once.ready in
      rw once.fine (
        record {
          ready = subst (λ k. IsReady k (push_items env items r.0 r.1).0) (omega arith) rest.ready;
          sent = rest.sent ∙ ap (sent_onto (notify_bodies items)) once.sent;
          fine = rest.fine;
        },
        same ∙ once.notifies,
      )

pub sent_onto-append :
    (xs ys log : List (List ℕ)) → sent_onto (xs ++ ys) log ≡ sent_onto ys (sent_onto xs log)
sent_onto-append [] ys log = refl
sent_onto-append (x ∷ xs) ys log = sent_onto-append xs ys (x ∷ log)

-- The bodies of the notifies that a request has.
abbrev pub befores : ℕ → MessageOrderingManager → List NotifyBindMsgItem
befores grid m = bound grid m.before_rsp_notifies

abbrev pub afters : ℕ → MessageOrderingManager → List NotifyBindMsgItem
afters grid m = bound grid m.after_rsp_notifies

module _ (env : SenderEnv) (open_env : IsOpen env) (grid : ℕ) where
  pub before-Runs :
      (m : MessageOrderingManager) (n : ℕ) (s : Session) (w : Wire)
      → s.ordering_manager ≡ some m
      → n + length (befores grid m) < u64_mod
      → IsReady n s
      → let r = send_before_notifies env grid s w in
        Runs (n + length (befores grid m)) (notify_bodies (befores grid m)) s w r
        × ((m' : MessageOrderingManager) × (r.0.ordering_manager ≡ some m')
            × (m'.after_rsp_notifies ≡ m.after_rsp_notifies))
  unfolding send_before_notifies
  before-Runs m n s w has small v =
      let m' = (get_and_remove_before_notifies grid m).1 in
      let s' = record s { ordering_manager = some m' } in
      let run =
        push_items-Runs env open_env (befores grid m) n s' w small (IsReady-same (some m') v) in
      let Claim = λ (r : Sent).
        Runs (n + length (befores grid m)) (notify_bodies (befores grid m)) s w r
        × ((k : MessageOrderingManager) × (r.0.ordering_manager ≡ some k)
            × (k.after_rsp_notifies ≡ m.after_rsp_notifies)) in
      subst (λ o. Claim (before_of env o grid s w)) (sym has)
        (unfold get_and_remove_before_notifies in
          (record { ready = run.0.ready; sent = run.0.sent; fine = run.0.fine }, (m', run.1, refl)))

  pub after-Runs :
      (m : MessageOrderingManager) (n : ℕ) (s : Session) (w : Wire)
      → s.ordering_manager ≡ some m
      → n + length (afters grid m) < u64_mod
      → IsReady n s
      → Runs
          (n + length (afters grid m))
          (notify_bodies (afters grid m))
          s
          w
          (send_after_notifies env grid s w)
  unfolding send_after_notifies
  after-Runs m n s w has small v =
      let m' = (get_and_remove_after_notifies grid m).1 in
      let s' = record s { ordering_manager = some m' } in
      let run =
        push_items-Runs env open_env (afters grid m) n s' w small (IsReady-same (some m') v) in
      subst
        (λ o.
          Runs (n + length (afters grid m)) (notify_bodies (afters grid m)) s w
            (after_of env o grid s w))
        (sym has)
        (unfold get_and_remove_after_notifies in
          record { ready = run.0.ready; sent = run.0.sent; fine = run.0.fine })

  -- First the notifies bound before the response, then those bound after it.
  pub bound-Runs :
      (m : MessageOrderingManager) (n : ℕ) (s : Session) (w : Wire)
      → s.ordering_manager ≡ some m
      → n + length (befores grid m) + length (afters grid m) < u64_mod
      → IsReady n s
      → bodies (process_bound_notifies env grid s w).1.log
        ≡ sent_onto
            (notify_bodies (afters grid m))
            (sent_onto (notify_bodies (befores grid m)) (bodies w.log))
  unfolding process_bound_notifies
  bound-Runs m n s w has small v =
      let r = send_before_notifies env grid s w in
      let (first, (m', kept, same)) = before-Runs m n s w has (omega arith) v in
      let sizes : length (afters grid m') ≡ length (afters grid m) =
        ap (λ b. length (bound grid b)) same in
      let second =
        after-Runs m' (n + length (befores grid m)) r.0 r.1 kept (omega (arith, sizes))
          first.ready in
      rw first.fine (
        second.sent
        ∙ ap (λ b. sent_onto (notify_bodies (bound grid b)) (bodies r.1.log)) same
        ∙ ap (sent_onto (notify_bodies (afters grid m))) first.sent)
