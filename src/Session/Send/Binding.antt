-- ===== src/Session/Send/Binding.antt =====
-- What a notify that is bound to a request changes in what that request sends.
use gateway_test.Session.Send.Bodies.{Body, response_body, request_bodies, body_of}
use mathlib.Core.List.{append-nil, append_assoc, map-append}
use gateway_test.Session.Ordering.{
  Bindings, MessageOrderingManager, NotifyBindMsgItem, bound, add_notify_bind_before_rsp,
  add_notify_bind_after_rsp, get_and_remove_before_notifies, get_and_remove_after_notifies,
}
use gateway_test.Prelude.{
  ℕ, ◌≡◌, ap, ◌∙◌, ◌≢◌, Bool, Option, none, some, List, [], ◌∷◌, ◌++◌, map, arith, eqb,
  if◌then◌else◌, nat_eq, string_eq, u32, ℤ,
}
use gateway_test.Prelude.Dict.{store, lookup-store}
use gateway_test.Proto.{ServerPush, UnicastPushRequest, before_response, after_response}
use gateway_test.Session.State.{Session}
use gateway_test.Session.Send.{process_notify, World, Outcome, NotifyError}

abbrev pub notify_item : ℤ → List ℕ → UnicastPushRequest → NotifyBindMsgItem
notify_item unix_now bytes req = record {
  notify_data = bytes;
  msg_type = req.msg_type;
  title = req.title;
  content = req.content;
  metadata = req.metadata;
  sync_hint = req.sync_hint;
  bind_grid = u32 req.bind_client_seq_id;
  create_time = unix_now;
}

bound_store :
    (grid g : ℕ) (item : NotifyBindMsgItem) (b : Bindings)
    → bound g (store grid (bound grid b ++ item ∷ []) b)
      ≡ bound g b ++ (if eqb grid g then item ∷ [] else [])
bound_store grid g item b =
    ground (arith, lookup-store grid g (bound grid b ++ item ∷ []) b, append-nil (bound g b))

before_bodies :
    (grid g : ℕ) (item : NotifyBindMsgItem) (response : List ℕ) (m : MessageOrderingManager)
    → request_bodies g response (add_notify_bind_before_rsp grid (some item) m).0
      ≡ map body_of (bound g m.before_rsp_notifies ++ (if eqb grid g then item ∷ [] else []))
        ++ (response_body response ++ map body_of (bound g m.after_rsp_notifies))
unfolding add_notify_bind_before_rsp get_and_remove_before_notifies get_and_remove_after_notifies
before_bodies grid g item response m = rw (bound_store grid g item m.before_rsp_notifies)

regroup : (a b c d : List Body) → a ++ (b ++ (c ++ d)) ≡ (a ++ (b ++ c)) ++ d
regroup a b c d = rw (append_assoc, append_assoc)

if_body :
    (grid g : ℕ) (item : NotifyBindMsgItem)
    → map body_of (if eqb grid g then item ∷ [] else [])
      ≡ (if eqb grid g then body_of item ∷ [] else [])
if_body grid g item = ground arith

after_bodies :
    (grid g : ℕ) (item : NotifyBindMsgItem) (response : List ℕ) (m : MessageOrderingManager)
    → request_bodies g response (add_notify_bind_after_rsp grid (some item) m).0
      ≡ request_bodies g response m ++ (if eqb grid g then body_of item ∷ [] else [])
unfolding add_notify_bind_after_rsp get_and_remove_before_notifies get_and_remove_after_notifies
after_bodies grid g item response m =
    rw (bound_store grid g item m.after_rsp_notifies, map-append)
      (regroup (map body_of (bound g m.before_rsp_notifies)) (response_body response)
          (map body_of (bound g m.after_rsp_notifies)) _
        ∙ ap (λ z. request_bodies g response m ++ z) (if_body grid g item))

module _ (marshal_push : ServerPush → Option (List ℕ)) (write : ℕ → List ℕ → Bool) (now : ℕ)
    (marshal_request : UnicastPushRequest → Option (List ℕ)) (unix_now : ℤ)
    (req : UnicastPushRequest) (bytes : List ℕ) (m : MessageOrderingManager) (s : Session)
    (w : World) (marshalled : marshal_request req ≡ some bytes)
    (managed : s.ordering_manager ≡ some m) (bindable : u32 req.bind_client_seq_id ≢ 0) where
  abbrev grid : ℕ
  grid = u32 req.bind_client_seq_id

  abbrev result : Outcome NotifyError
  result = process_notify marshal_push write now marshal_request unix_now (some req) s w

  -- A notify that asks to be sent before the response is accepted without a write, where the bind
  -- number is not 0 modulo 2^32. A request then sends what it would have sent, with this notify as
  -- the last one before its response if it is the request of that number.
  pub process_notify-before_response :
      req.sync_hint ≡ before_response
      → let m' = (add_notify_bind_before_rsp grid (some (notify_item unix_now bytes req)) m).0 in
        (result ≡ (record s { ordering_manager = some m' }, w, none))
        × ((g : ℕ) (response : List ℕ)
            → request_bodies g response m'
              ≡ map body_of (
                  bound g m.before_rsp_notifies
                  ++ (if eqb grid g then notify_item unix_now bytes req ∷ [] else []))
                ++ (response_body response ++ map body_of (bound g m.after_rsp_notifies)))
  unfolding process_notify add_notify_bind_before_rsp
  process_notify-before_response hint =
      (ground arith, λ g response. before_bodies grid g (notify_item unix_now bytes req) response m)

  -- A notify that asks to be sent after the response is accepted without a write, where the bind
  -- number is not 0 modulo 2^32. A request then sends what it would have sent, and this notify at
  -- the end if it is the request of that number.
  process_notify-after_response :
      req.sync_hint ≡ after_response
      → let m' = (add_notify_bind_after_rsp grid (some (notify_item unix_now bytes req)) m).0 in
        (result ≡ (record s { ordering_manager = some m' }, w, none))
        × ((g : ℕ) (response : List ℕ)
            → request_bodies g response m'
              ≡ request_bodies g response m
                ++ (if eqb grid g then body_of (notify_item unix_now bytes req) ∷ [] else []))
  unfolding process_notify add_notify_bind_after_rsp
  process_notify-after_response hint =
      (ground arith, λ g response. after_bodies grid g (notify_item unix_now bytes req) response m)
