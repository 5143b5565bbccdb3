-- ===== src/Backup/Sync/Delivery.antt =====
-- What a batch does when a write fails, and what Stop leaves unsent.
use gateway_test.Backup.Sync.Batches.{send_loop-Handles}
use gateway_test.Backup.Sync.{
  send_batch, send_message, SyncService, SyncLog, SendError, Peer, settle, send_loop,
  close_connection, is_connection_error, unsent,
}
use gateway_test.Prelude.{
  ℕ, subst, ◌+◌, ◌≡◌, refl, sym, ap, ◌∙◌, Bool, true, false, none, some, List, [], ◌∷◌, ◌++◌, map,
  arith, nat_eq, string_eq, length, ℤ,
}
use mathlib.Core.List.{append_assoc, append-nil}
use gateway_test.Backup.Records.{SyncMessage}

abbrev pub delivered : List SyncMessage → List (SyncMessage × Bool)
delivered msgs = map (λ msg. (msg, true)) msgs

-- The peer takes these messages, from the n-th attempt on.
abbrev pub Takes : Peer → ℕ → List SyncMessage → Type 0
Takes peer n [] = Unit {0}
Takes peer n (msg ∷ msgs) = (peer n msg ≡ none) × Takes peer (n + 1) msgs

-- A message whose write fails with a connection error, and one that is written.
Breaks : SyncService × SyncLog → SyncMessage → (SyncService × SyncLog) × Bool → Type 0
Breaks r bad r' =
    (r'.1 ≡ false)
    × (r'.0.0.connected ≡ false)
    × (r'.0.0.reconnect ≡ true)
    × (r'.0.1.handled ≡ r.1.handled ++ (bad, false) ∷ [])
    × (r'.0.1.attempts ≡ r.1.attempts + 1)

settle-Breaks :
    (bad : SyncMessage) (e : SendError) (r : SyncService × SyncLog)
    → is_connection_error e ≡ true
    → Breaks r bad (settle bad (some e) r)
unfolding settle close_connection Breaks
settle-Breaks bad e r broken =
    (ground arith, ground arith, ground arith, ground arith, ground arith)

module _ (peer : Peer) where
  send_message_up :
      (msg : SyncMessage) (r : SyncService × SyncLog)
      → r.0.connected ≡ true
      → send_message peer msg r ≡ peer r.1.attempts msg
  unfolding send_message
  send_message_up msg r up = ground arith

  -- The loop, for the state that the first write leaves.
  loop_stops :
      (msg : SyncMessage) (msgs : List SyncMessage) (r : SyncService × SyncLog)
      → (settle msg (send_message peer msg r) r).1 ≡ false
      → let r' = (settle msg (send_message peer msg r) r).0 in
        send_loop peer (msg ∷ msgs) r
        ≡ (r'.0, record r'.1 { handled = r'.1.handled ++ unsent msgs })
  unfolding send_loop
  loop_stops msg msgs r e = rw e

  loop_goes_on :
      (msg : SyncMessage) (msgs : List SyncMessage) (r : SyncService × SyncLog)
      → (settle msg (send_message peer msg r) r).1 ≡ true
      → send_loop peer (msg ∷ msgs) r
        ≡ send_loop peer msgs (settle msg (send_message peer msg r) r).0
  unfolding send_loop
  loop_goes_on msg msgs r e = rw e

  loop_delivers :
      (taken : List SyncMessage) (r : SyncService × SyncLog)
      → r.0.connected ≡ true
      → Takes peer r.1.attempts taken
      → (send_loop peer taken r).1.handled ≡ r.1.handled ++ delivered taken
  unfolding settle send_loop
  loop_delivers [] r up takes = sym (append-nil r.1.handled)
  loop_delivers (msg ∷ taken) r up takes =
      let tried : send_message peer msg r ≡ none = send_message_up msg r up ∙ takes.0 in
      rw tried (
        loop_delivers taken (settle msg none r).0 up takes.1
        ∙ append_assoc r.1.handled ((msg, true) ∷ []) (delivered taken))

  abbrev IsCut :
      List SyncMessage → SyncMessage → List SyncMessage → SyncLog → SyncService × SyncLog → Type 0
  IsCut taken bad rest l r =
      (r.1.handled ≡ l.handled ++ (delivered taken ++ (bad, false) ∷ unsent rest))
      × (r.0.connected ≡ false)
      × (r.0.reconnect ≡ true)
      × (r.1.attempts ≡ l.attempts + length taken + 1)

  loop_breaks :
      (taken : List SyncMessage) (bad : SyncMessage) (rest : List SyncMessage) (e : SendError)
      (r : SyncService × SyncLog)
      → r.0.connected ≡ true
      → Takes peer r.1.attempts taken
      → peer (r.1.attempts + length taken) bad ≡ some e
      → is_connection_error e ≡ true
      → IsCut taken bad rest r.1 (send_loop peer (taken ++ bad ∷ rest) r)
  unfolding settle Breaks
  loop_breaks [] bad rest e r up takes fails broken =
      let tried : send_message peer bad r ≡ some e =
        send_message_up bad r up ∙ subst (λ n. peer n bad ≡ some e) (omega arith) fails in
      let cut : Breaks r bad (settle bad (send_message peer bad r) r) =
        rw tried (settle-Breaks bad e r broken) in
      (rw (loop_stops bad rest r cut.0) (
        ap (λ h. h ++ unsent rest) cut.3
            ∙ append_assoc r.1.handled ((bad, false) ∷ []) (unsent rest),
        cut.1,
        cut.2,
        omega (arith, cut.4),
      ))
  loop_breaks (msg ∷ taken) bad rest e r up takes fails broken =
      let tried : send_message peer msg r ≡ none = send_message_up msg r up ∙ takes.0 in
      let r' = (settle msg none r).0 in
      let goes : (settle msg (send_message peer msg r) r).1 ≡ true = rw tried refl in
      let later : IsCut taken bad rest r'.1 (send_loop peer (taken ++ bad ∷ rest) r') =
        loop_breaks taken bad rest e r' up takes.1
          (subst (λ n. peer n bad ≡ some e) (omega arith) fails) broken in
      rw (loop_goes_on msg (taken ++ bad ∷ rest) r goes) (
        rw tried (
          (
            later.0
                ∙ append_assoc r.1.handled ((msg, true) ∷ [])
                    (delivered taken ++ (bad, false) ∷ unsent rest),
            later.1,
            later.2,
            omega (arith, later.3),
          )))

-- The log and the connection after a batch that found a connection.
send_batch_up :
    (peer : Peer) (now latency : ℤ) (s : SyncService) (l : SyncLog)
    → s.connected ≡ true
    → let r = send_batch peer now latency (s, l) in
      let r' = send_loop peer s.batch (record s { batch = [] }, l) in
      (r.1 ≡ r'.1)
      × (r.0.connected ≡ r'.0.connected)
      × (r.0.reconnect ≡ r'.0.reconnect)
      × (r.0.batch ≡ r'.0.batch)
unfolding send_batch
send_batch_up peer now latency s l up = rw up (refl, refl, refl, refl)

-- A batch that a connected stream's peer takes is written.
pub send_batch-delivers :
    (peer : Peer) (now latency : ℤ) (s : SyncService) (l : SyncLog)
    → s.connected ≡ true
    → Takes peer l.attempts s.batch
    → (send_batch peer now latency (s, l)).1.handled ≡ l.handled ++ delivered s.batch
send_batch-delivers peer now latency s l up takes =
    ap (λ (m : SyncLog). m.handled) (send_batch_up peer now latency s l up).0
    ∙ loop_delivers peer s.batch (record s { batch = [] }, l) up takes

-- A batch of a connected stream whose peer takes the first messages and fails at the next: those
-- are written and no other, the connection is closed and to be built again, and the messages after
-- the failure are dropped without an attempt.
pub send_batch_breaks :
    (peer : Peer) (now latency : ℤ) (taken : List SyncMessage) (bad : SyncMessage)
    (rest : List SyncMessage) (e : SendError) (s : SyncService) (l : SyncLog)
    → s.connected ≡ true
    → s.batch ≡ taken ++ bad ∷ rest
    → Takes peer l.attempts taken
    → peer (l.attempts + length taken) bad ≡ some e
    → is_connection_error e ≡ true
    → let r = send_batch peer now latency (s, l) in
      (r.1.handled ≡ l.handled ++ (delivered taken ++ (bad, false) ∷ unsent rest))
      × (r.0.connected ≡ false)
      × (r.0.reconnect ≡ true)
      × (r.1.attempts ≡ l.attempts + length taken + 1)
      × (r.0.batch ≡ [])
send_batch_breaks peer now latency taken bad rest e s l up held takes fails broken =
    let r : SyncService × SyncLog = (record s { batch = [] }, l) in
    let cut : IsCut peer taken bad rest l (send_loop peer s.batch r) =
      subst (λ b. IsCut peer taken bad rest l (send_loop peer b r)) (sym held)
        (loop_breaks peer taken bad rest e r up takes fails broken) in
    let kept = (send_loop-Handles peer s.batch r).rest.held in
    let same = send_batch_up peer now latency s l up in
    (
      ap (λ (m : SyncLog). m.handled) same.0 ∙ cut.0,
      same.1 ∙ cut.1,
      same.2 ∙ cut.2,
      ap (λ (m : SyncLog). m.attempts) same.0 ∙ cut.3,
      same.3 ∙ kept,
    )
