-- ===== src/Session/Manager/Removal.antt =====
-- Sessions that are removed: what stays behind.
use gateway_test.Prelude.{
  ℕ, zero, suc, String, ◌≡◌, refl, ap, ◌∙◌, ◌≢◌, inl, inr, true, false, Option, none, some, List,
  [], ◌∷◌, arith, Option-cases, nat_eq, string_eq, get_elem?, set,
}
use gateway_test.Prelude.Dict.{lookup, delete, lookup-delete_self, lookup-delete_other}
use gateway_test.Session.State.{Session, close, set_closed}
use gateway_test.Session.Manager.{
  Manager, find_session, find_by_uid, get_session, get_session_by_open_id, immediate_remove_session,
  remove_session, remove_session_with_delay, remove_found, delay_found, pointed, put, without_uid,
}

pub get_elem?-set_self :
    {A : Type 0} (xs : List A) (i : ℕ) (x y : A)
    → get_elem? xs i ≡ some x
    → get_elem? (set xs i y) i ≡ some y
get_elem?-set_self [] i x y e = ground (arith, e)
get_elem?-set_self (z ∷ xs) zero x y e = refl
get_elem?-set_self (z ∷ xs) (suc i) x y e = get_elem?-set_self xs i x y e

pub get_elem?-set_other :
    {A : Type 0} (xs : List A) (i j : ℕ) (y : A) → i ≢ j → get_elem? (set xs i y) j ≡ get_elem? xs j
get_elem?-set_other [] i j y d = refl
get_elem?-set_other (z ∷ xs) zero zero y d = absurd (d refl)
get_elem?-set_other (z ∷ xs) zero (suc j) y d = refl
get_elem?-set_other (z ∷ xs) (suc i) zero y d = refl
get_elem?-set_other (z ∷ xs) (suc i) (suc j) y d = get_elem?-set_other xs i j y (λ e. d (ap suc e))

-- What an index entry that is found says.
pub pointed-some :
    (cells : List Session) (o : Option ℕ) (p : ℕ) (s : Session)
    → pointed cells o ≡ some (p, s)
    → (o ≡ some p) × (get_elem? cells p ≡ some s)
pointed-some cells none p s e = ground (arith, e)
pointed-some cells (some q) p s e = elim (Option-cases (get_elem? cells q)) [
  | inl missing ↦ ground (arith, e, missing)
  | inr (t, there) ↦ ground (arith, e, there)
]

find_session-put :
    (session_id : String) (m : Manager) (p : ℕ) (s t : Session)
    → find_session session_id m ≡ some (p, s)
    → find_session session_id (put p t m) ≡ some (p, t)
unfolding find_session
find_session-put session_id m p s t e =
    let (listed, there) = pointed-some m.cells (lookup session_id m.sessions) p s e in
    rw (listed, get_elem?-set_self m.cells p s t there) refl

immediate_remove-found :
    (session_id : String) (m : Manager) (p : ℕ) (s : Session)
    → find_session session_id m ≡ some (p, s)
    → immediate_remove_session session_id m ≡ record m {
      sessions = delete session_id m.sessions;
      sessions_by_uid = without_uid s.open_id m.sessions_by_uid;
      cells = set m.cells p (close s);
    }
unfolding immediate_remove_session remove_found
immediate_remove-found session_id m p s e = ap (remove_found session_id m) e

set_closed-open :
    (s : Session) → s.closed ≡ false → set_closed s ≡ (record s { closed = true }, false)
unfolding set_closed
set_closed-open s running = ground (arith, running)

close-marked : (s : Session) → close (record s { closed = true }) ≡ record s { closed = true }
unfolding close
close-marked s = refl

delay_found-open :
    (session_id : String) (m : Manager) (p : ℕ) (s : Session)
    → s.closed ≡ false
    → delay_found session_id false m (some (p, s))
      ≡ immediate_remove_session session_id (put p (record s { closed = true }) m)
unfolding delay_found
delay_found-open session_id m p s running = rw (set_closed-open s running) refl

remove_session-found :
    (session_id : String) (m : Manager) (p : ℕ) (s : Session)
    → find_session session_id m ≡ some (p, s)
    → s.closed ≡ false
    → let marked = record s { closed = true } in
      remove_session session_id m ≡ record m {
        sessions = delete session_id m.sessions;
        sessions_by_uid = without_uid s.open_id m.sessions_by_uid;
        cells = set (set m.cells p marked) p marked;
      }
unfolding remove_session remove_session_with_delay
remove_session-found session_id m p s e running =
    let marked = record s { closed = true } in
    ap (delay_found session_id false m) e
    ∙ delay_found-open session_id m p s running
    ∙ immediate_remove-found session_id (put p marked m) p marked
        (find_session-put session_id m p s marked e)
    ∙ rw (close-marked s) refl

-- A defect of RemoveSession: it marks the session as closed before it closes it, and Close does
-- nothing on a session that is marked. The session is no longer found, and its queue is as it was:
-- not stopped.
pub remove_session-leaks :
    (session_id : String) (m : Manager) (p : ℕ) (s : Session)
    → find_session session_id m ≡ some (p, s)
    → s.closed ≡ false
    → let m' = remove_session session_id m in
      (get_session session_id m' ≡ none)
      × (get_elem? m'.cells p ≡ some (record s { closed = true }))
unfolding get_session find_session
remove_session-leaks session_id m p s e running =
    let marked = record s { closed = true } in
    let (_, there) = pointed-some m.cells (lookup session_id m.sessions) p s e in
    rw (remove_session-found session_id m p s e running) (
      rw (lookup-delete_self session_id m.sessions) refl,
      get_elem?-set_self (set m.cells p marked) p marked marked
          (get_elem?-set_self m.cells p s marked there),
    )

-- A defect of the removal of a session: it drops the user from the index, though another session,
-- which stays, may stand there. That session is then found by its id and not by its user.
pub immediate_remove_session-orphans :
    (session_id : String) (m : Manager) (p q : ℕ) (s t : Session)
    → find_session session_id m ≡ some (p, s)
    → find_by_uid s.open_id m ≡ some (q, t)
    → find_session t.id m ≡ some (q, t)
    → s.open_id ≢ ""
    → p ≢ q
    → session_id ≢ t.id
    → let m' = immediate_remove_session session_id m in
      (get_session t.id m' ≡ some t) × (get_session_by_open_id s.open_id m' ≡ none)
unfolding get_session get_session_by_open_id find_session find_by_uid
immediate_remove_session-orphans session_id m p q s t e user live named d other =
    let (listed, there) = pointed-some m.cells (lookup t.id m.sessions) q t live in
    rw (immediate_remove-found session_id m p s e) (
      rw
          (
            lookup-delete_other session_id t.id m.sessions other,
            listed,
            get_elem?-set_other m.cells p q (close s) d,
            there,
          )
          refl,
      ground (
        arith,
        named,
        string_eq.beq_iff s.open_id "",
        lookup-delete_self s.open_id m.sessions_by_uid,
      ),
    )
