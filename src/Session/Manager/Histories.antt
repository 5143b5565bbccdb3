-- ===== src/Session/Manager/Histories.antt =====
-- Histories of the manager keep its indexes well formed.
use gateway_test.Session.Manager.{
  same_object, Manager, find_session, find_by_uid, put, register, connect,
  create_or_reconnect_session, session_for, handle_old_session_on_reconnect,
  immediate_remove_session, remove_session_with_delay, remove_expired_sessions, candidate,
  confirmed, expired_ids,
}
use gateway_test.Prelude.{
  ℕ, zero, suc, ◌+◌, ◌*◌, String, ◌≡◌, refl, inl, inr, Bool, Option, none, some, List, [], ◌∷◌,
  ◌++◌, map, arith, ltb, if◌then◌else◌, Bool-cases, ◌==◌, nat_eq, string_eq, length, get_elem?,
}
use gateway_test.Prelude.Dict.{Dict, Entries, Entries-store}
use gateway_test.Session.State.{Session, set_closed}
use gateway_test.Session.Queue.{OrderedMessage}
use gateway_test.Session.Manager.Calls.{bind_session}
use gateway_test.Session.Manager.Binding.{
  start_session, MayTake, bind_session-WellFormed, start_session-WellFormed,
}
use gateway_test.Session.Manager.WellFormed.{
  WellFormed, Points, Named, Live, ids, users, put-WellFormed, forget-WellFormed, set_closed-names,
  immediate-WellFormed, delay_found-WellFormed, expire_all-WellFormed, find_session-Live,
  find_by_uid-Live,
}

-- The calls that change the indexes. `removes_now` is also a timer that fires; `starts` is what a
-- start request does to the session of a cell.
pub data ManagerCall : Type 0 where
  creates : ℕ → String → String → String → String → ManagerCall
  removes : String → Bool → ManagerCall
  removes_now : String → ManagerCall
  expires : ℕ → ManagerCall
  binds : ℕ → ManagerCall
  starts : ℕ → String → String → ManagerCall

-- A start request keeps the user of its session, where that has one.
abbrev pub KeepsUser : ManagerCall → Manager → Type 0
KeepsUser (starts p open_id client_id) m = MayTake open_id (get_elem? m.cells p)
KeepsUser _ m = Unit {0}

names-append :
    (f : Session → String) (xs : List Session) (s : Session) (k : String) (p : ℕ)
    → Points (map f xs) k p
    → Points (map f (xs ++ s ∷ [])) k p
names-append f [] s k p e = ground (arith, e)
names-append f (x ∷ xs) s k zero e = e
names-append f (x ∷ xs) s k (suc p) e = names-append f xs s k p e

names-last :
    (f : Session → String) (xs : List Session) (s : Session)
    → Points (map f (xs ++ s ∷ [])) (f s) (length xs)
names-last f [] s = refl
names-last f (x ∷ xs) s = names-last f xs s

Entries-append :
    (f : Session → String) (xs : List Session) (s : Session) (index : Dict String ℕ)
    → Entries (Points (map f xs)) index
    → Entries (Points (map f (xs ++ s ∷ []))) index
Entries-append f xs s [] h = tt
Entries-append f xs s ((k, p) ∷ index) h =
    (names-append f xs s k p h.0, Entries-append f xs s index h.1)

module _ (copy : Dict ℕ OrderedMessage → Dict ℕ OrderedMessage → Dict ℕ OrderedMessage) where
  register-WellFormed : (s : Session) (m : Manager) → WellFormed m → WellFormed (register copy s m)
  register-WellFormed s m v =
      let kept = Entries-append (λ s. s.open_id) m.cells s m.sessions_by_uid v.by_user in
      record {
        by_id =
            Entries-store (Points (ids (register copy s m))) s.id (length m.cells) m.sessions
              (names-last (λ s. s.id) m.cells s)
              (Entries-append (λ s. s.id) m.cells s m.sessions v.by_id);
        by_user = elim (Bool-cases (s.open_id == "")) [
          | inl none_given ↦ rw none_given kept
          | inr given ↦ rw given (
              Entries-store (Points (users (register copy s m))) s.open_id (length m.cells)
                m.sessions_by_uid (names-last (λ s. s.open_id) m.cells s) kept)
        ];
        named = elim (Bool-cases (s.open_id == "")) [
          | inl none_given ↦ rw none_given v.named
          | inr given ↦ rw given (
              Entries-store Named s.open_id (length m.cells) m.sessions_by_uid
                (λ e. ground (arith, given, (string_eq.beq_iff s.open_id "").1 e)) v.named)
        ];
      }

  handle_old-WellFormed :
      (p : ℕ) (old : Session) (m : Manager)
      → get_elem? m.cells p ≡ some old
      → WellFormed m
      → WellFormed (handle_old_session_on_reconnect p old m)
  handle_old-WellFormed p old m there v =
      let w = forget-WellFormed old.id (put p (set_closed old).0 m) (
        put-WellFormed p old (set_closed old).0 m there (set_closed-names old).0
          (set_closed-names old).1 v) in
      record { by_id = w.by_id; by_user = w.by_user; named = w.named }

  connect-WellFormed :
      (s : Session) (m : Manager) (o : Option (ℕ × Session))
      → Live m o
      → WellFormed m
      → WellFormed (connect copy s m o).0
  unfolding connect
  connect-WellFormed s m none live v = register-WellFormed s m v
  connect-WellFormed s m (some (p, old)) live v =
      register-WellFormed _ (handle_old_session_on_reconnect p old m)
        (handle_old-WellFormed p old m live v)

  candidate-Live :
      (now delay : ℕ) (m : Manager) (o : Option (ℕ × Session))
      → Live m o
      → Live m (candidate now delay o)
  candidate-Live now delay m none live = tt
  candidate-Live now delay m (some (p, s)) live =
      elim (Bool-cases (ltb now (s.last_activity + delay * 2))) [
        | inl recent ↦ rw recent live
        | inr old ↦ rw old tt
      ]

  confirmed-Live : (m : Manager) (o : Option (ℕ × Session)) → Live m o → Live m (confirmed m o)
  confirmed-Live m none live = tt
  confirmed-Live m (some (p, s)) live = elim (Bool-cases (same_object p (find_session s.id m))) [
    | inl same ↦ rw same live
    | inr other ↦ rw other tt
  ]

  known-Live : (u : String) (m : Manager) → Live m (if u == "" then none else find_by_uid u m)
  known-Live u m = elim (Bool-cases (u == "")) [
    | inl none_given ↦ rw none_given tt
    | inr given ↦ rw given (find_by_uid-Live u m)
  ]

  unfoldable pub on_call : ManagerCall → Manager → Manager
  on_call (creates now k client u ip) m = (create_or_reconnect_session copy now k client u ip m).0
  on_call (removes k delay) m = remove_session_with_delay k delay m
  on_call (removes_now k) m = immediate_remove_session k m
  on_call (expires now) m = remove_expired_sessions now m
  on_call (binds p) m = (bind_session p m).0
  on_call (starts p u client) m = start_session p u client m

  unfoldable pub on_calls : List ManagerCall → Manager → Manager
  on_calls [] m = m
  on_calls (c ∷ cs) m = on_calls cs (on_call c m)

  abbrev pub KeepUsers : List ManagerCall → Manager → Type 0
  KeepUsers [] m = Unit {0}
  KeepUsers (c ∷ cs) m = KeepsUser c m × KeepUsers cs (on_call c m)

  on_call-WellFormed :
      (c : ManagerCall) (m : Manager) → KeepsUser c m → WellFormed m → WellFormed (on_call c m)
  unfolding on_call create_or_reconnect_session remove_session_with_delay remove_expired_sessions
  on_call-WellFormed (creates now k client u ip) m keeps v =
      connect-WellFormed (session_for now k client u ip) m _
        (confirmed-Live m _ (candidate-Live now m.connection_down_delay m _ (known-Live u m))) v
  on_call-WellFormed (removes k delay) m keeps v =
      delay_found-WellFormed k delay m (find_session k m) (find_session-Live k m) v
  on_call-WellFormed (removes_now k) m keeps v = immediate-WellFormed k m v
  on_call-WellFormed (expires now) m keeps v =
      expire_all-WellFormed (expired_ids now m m.sessions) m v
  on_call-WellFormed (binds p) m keeps v = bind_session-WellFormed p m v
  on_call-WellFormed (starts p u client) m keeps v = start_session-WellFormed p u client m keeps v

  -- However sessions are created, taken over, bound, started, removed and expire, from a
  -- well-formed manager, as long as no start request changes the user of a session that has one,
  -- the index by id leads from an id to a session of this id, and the index by user from a user,
  -- who has a name, to a session of this user.
  pub on_calls-WellFormed :
      (cs : List ManagerCall) (m : Manager)
      → KeepUsers cs m
      → WellFormed m
      → WellFormed (on_calls cs m)
  unfolding on_calls
  on_calls-WellFormed [] m keep v = v
  on_calls-WellFormed (c ∷ cs) m keep v =
      on_calls-WellFormed cs (on_call c m) keep.1 (on_call-WellFormed c m keep.0 v)
