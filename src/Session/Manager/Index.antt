-- ===== src/Session/Manager/Index.antt =====
-- Sessions that are created and taken over, and the two indexes.
use gateway_test.Prelude.{
  ℕ, subst, zero, suc, ◌+◌, ◌*◌, ◌<◌, String, ◌≡◌, refl, sym, ◌≢◌, true, Option, none, some, List,
  [], ◌∷◌, ◌++◌, arith, if◌then◌else◌, ◌==◌, nat_eq, string_eq, length, get_elem?, set, length-set,
}
use gateway_test.Prelude.Dict.{
  Dict, lookup, delete, lookup-store_self, lookup-store_other, lookup-delete_self,
}
use gateway_test.Session.State.{Session, set_closed, inherit_from}
use gateway_test.Session.Queue.{OrderedMessage}
use gateway_test.Session.Manager.{
  Manager, find_session, find_by_uid, get_session, create_or_reconnect_session, session_for,
  connect, register, candidate, confirmed,
}
use gateway_test.Session.Manager.Removal.{get_elem?-set_self, pointed-some}

get_elem?-append_last :
    (xs : List Session) (x : Session) → get_elem? (xs ++ x ∷ []) (length xs) ≡ some x
get_elem?-append_last [] x = refl
get_elem?-append_last (y ∷ xs) x = get_elem?-append_last xs x

get_elem?-append :
    (xs ys : List Session) (i : ℕ) (x : Session)
    → get_elem? xs i ≡ some x
    → get_elem? (xs ++ ys) i ≡ some x
get_elem?-append [] ys i x e = ground (arith, e)
get_elem?-append (z ∷ xs) ys zero x e = e
get_elem?-append (z ∷ xs) ys (suc i) x e = get_elem?-append xs ys i x e

-- The new session `s` at `p` is found by its id, and by its user if it has one.
pub record IsFound (session_id open_id : String) (p : ℕ) (m : Manager) : Type 0 where
  pub session : Session
  pub named : session.id ≡ session_id
  pub owned : session.open_id ≡ open_id
  pub by_id : find_session session_id m ≡ some (p, session)
  pub by_user : open_id ≢ "" → find_by_uid open_id m ≡ some (p, session)

module _ (copy : Dict ℕ OrderedMessage → Dict ℕ OrderedMessage → Dict ℕ OrderedMessage) where
  register-IsFound :
      (s : Session) (m : Manager) → IsFound s.id s.open_id (length m.cells) (register copy s m)
  unfolding find_session find_by_uid
  register-IsFound s m = record {
    session = s;
    named = refl;
    owned = refl;
    by_id =
        rw (lookup-store_self s.id (length m.cells) m.sessions, get_elem?-append_last m.cells s)
          refl;
    by_user = λ d. ground (
      arith,
      string_eq.beq_iff s.open_id "",
      lookup-store_self s.open_id (length m.cells) m.sessions_by_uid,
      get_elem?-append_last m.cells s,
    );
  }

  connect-IsFound :
      (s : Session) (m : Manager) (o : Option (ℕ × Session))
      → IsFound s.id s.open_id (length m.cells) (connect copy s m o).0
  unfolding connect inherit_from
  connect-IsFound s m none = register-IsFound s m
  connect-IsFound s m (some (p, old)) =
      subst (λ n. IsFound s.id s.open_id n (connect copy s m (some (p, old))).0)
        (length-set m.cells p (set_closed old).0) (register-IsFound _ _)

  -- Whether it takes over an older session or not, a new session is a new object that carries the
  -- given id and user, and is found by its id and, unless the user is empty, by its user.
  pub create_or_reconnect_session-IsFound :
      (now : ℕ) (session_id client_id open_id user_ip : String) (m : Manager)
      → IsFound session_id open_id
          (length m.cells)
          (create_or_reconnect_session copy now session_id client_id open_id user_ip m).0
  unfolding create_or_reconnect_session
  create_or_reconnect_session-IsFound now session_id client_id open_id user_ip m =
      connect-IsFound (session_for now session_id client_id open_id user_ip) m _

  chosen :
      (now : ℕ) (open_id : String) (m : Manager) (p : ℕ) (old : Session)
      → open_id ≢ ""
      → find_by_uid open_id m ≡ some (p, old)
      → find_session old.id m ≡ some (p, old)
      → now < old.last_activity + m.connection_down_delay * 2
      → confirmed m (
          candidate now m.connection_down_delay
            (if open_id == "" then none else find_by_uid open_id m))
        ≡ some (p, old)
  chosen now open_id m p old user known live recent =
      ground (arith, string_eq.beq_iff open_id "", known, live, recent)

  -- A session of the same user that was active within twice the delay, and that both indexes know
  -- as the same object, is taken over: the creation reports a reconnection, the old session is no
  -- longer found by its id, and its object is marked as closed.
  pub create_or_reconnect_session-replaces :
      (now : ℕ) (session_id client_id open_id user_ip : String) (m : Manager) (p : ℕ)
      (old : Session)
      → open_id ≢ ""
      → find_by_uid open_id m ≡ some (p, old)
      → find_session old.id m ≡ some (p, old)
      → now < old.last_activity + m.connection_down_delay * 2
      → old.id ≢ session_id
      → let (m', reconnected) =
          create_or_reconnect_session copy now session_id client_id open_id user_ip m in
        (reconnected ≡ true)
        × (get_session old.id m' ≡ none)
        × (get_elem? m'.cells p ≡ some (set_closed old).0)
  unfolding create_or_reconnect_session connect get_session find_session inherit_from
  create_or_reconnect_session-replaces now session_id client_id open_id user_ip m p old user known
        live recent other =
      let (_, there) = pointed-some m.cells (lookup old.id m.sessions) p old live in
      rw (chosen now open_id m p old user known live recent) (
        refl,
        rw
            (
              lookup-store_other session_id old.id (length (set m.cells p (set_closed old).0))
                  (delete old.id m.sessions) (λ e. other (sym e)),
              lookup-delete_self old.id m.sessions,
            )
            refl,
        get_elem?-append (set m.cells p (set_closed old).0) _ p (set_closed old).0
            (get_elem?-set_self m.cells p old (set_closed old).0 there),
      )
