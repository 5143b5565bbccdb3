-- ===== src/Session/Manager/WellFormed.antt =====
-- The indexes of sessions agree with the sessions that they point to.
use gateway_test.Session.Manager.{
  at_cell, pointed, Manager, find_session, find_by_uid, put, immediate_remove_session, remove_found,
  delay_found, expire_all, expire_found, without_uid,
}
use gateway_test.Prelude.{
  ℕ, subst, zero, suc, String, ◌≡◌, refl, sym, ap, ◌∙◌, ◌≢◌, inl, inr, Bool, not, ◌&&◌, Option,
  none, some, List, [], ◌∷◌, map, arith, Bool-cases, Option-cases, ◌==◌, nat_eq, string_eq,
  get_elem?, set, some_inj,
}
use gateway_test.Prelude.Dict.{lookup, delete, Entries, Entries-delete}
use gateway_test.Session.State.{Session, close, set_closed}

abbrev pub ids : Manager → List String
ids m = map (λ s. s.id) m.cells

abbrev pub users : Manager → List String
users m = map (λ s. s.open_id) m.cells

abbrev pub Points : List String → String → ℕ → Type 0
Points names k p = get_elem? names p ≡ some k

abbrev pub Named : String → ℕ → Type 0
Named user p = user ≢ ""

-- An id points to a session of this id, and a user, who has a name, to a session of this user.
pub record WellFormed (m : Manager) : Type 0 where
  pub by_id : Entries (Points (ids m)) m.sessions
  pub by_user : Entries (Points (users m)) m.sessions_by_uid
  pub named : Entries Named m.sessions_by_uid

pub map-set :
    (f : Session → String) (xs : List Session) (p : ℕ) (x y : Session)
    → get_elem? xs p ≡ some x
    → f y ≡ f x
    → map f (set xs p y) ≡ map f xs
map-set f [] p x y e same = refl
map-set f (z ∷ xs) zero x y e same = ap (λ n. n ∷ map f xs) (same ∙ ap f (sym (some_inj e)))
map-set f (z ∷ xs) (suc p) x y e same = ap (λ ns. f z ∷ ns) (map-set f xs p x y e same)

pub put-WellFormed :
    (p : ℕ) (s t : Session) (m : Manager)
    → get_elem? m.cells p ≡ some s
    → t.id ≡ s.id
    → t.open_id ≡ s.open_id
    → WellFormed m
    → WellFormed (put p t m)
put-WellFormed p s t m there same_id same_user v = record {
  by_id =
      subst (λ ns. Entries (Points ns) m.sessions)
        (sym (map-set (λ s. s.id) m.cells p s t there same_id)) v.by_id;
  by_user =
      subst (λ ns. Entries (Points ns) m.sessions_by_uid)
        (sym (map-set (λ s. s.open_id) m.cells p s t there same_user)) v.by_user;
  named = v.named;
}

pub forget-WellFormed :
    (k : String) (m : Manager)
    → WellFormed m
    → WellFormed (record m { sessions = delete k m.sessions })
forget-WellFormed k m v = record {
  by_id = Entries-delete (Points (ids m)) k m.sessions v.by_id;
  by_user = v.by_user;
  named = v.named;
}

close-names : (s : Session) → ((close s).id ≡ s.id) × ((close s).open_id ≡ s.open_id)
unfolding close
close-names s = (ground arith, ground arith)

pub set_closed-names :
    (s : Session) → ((set_closed s).0.id ≡ s.id) × ((set_closed s).0.open_id ≡ s.open_id)
unfolding set_closed
set_closed-names s = (ground arith, ground arith)

without_uid-WellFormed :
    (u : String) (m : Manager)
    → WellFormed m
    → WellFormed (record m { sessions_by_uid = without_uid u m.sessions_by_uid })
without_uid-WellFormed u m v = elim (Bool-cases (u == "")) [
  | inl none_given ↦ rw none_given v
  | inr given ↦ rw given (record {
    by_id = v.by_id;
    by_user = Entries-delete (Points (users m)) u m.sessions_by_uid v.by_user;
    named = Entries-delete Named u m.sessions_by_uid v.named;
  })
]

-- What a lookup returns stands in the store.
abbrev pub Live : Manager → Option (ℕ × Session) → Type 0
Live m none = Unit {0}
Live m (some (p, s)) = get_elem? m.cells p ≡ some s

pointed-Live : (m : Manager) (o : Option ℕ) → Live m (pointed m.cells o)
pointed-Live m none = tt
pointed-Live m (some p) = elim (Option-cases (get_elem? m.cells p)) [
  | inl missing ↦ rw missing tt
  | inr (s, there) ↦ subst (λ x. Live m (at_cell p x)) (sym there) there
]

pub find_session-Live : (k : String) (m : Manager) → Live m (find_session k m)
unfolding find_session
find_session-Live k m = pointed-Live m (lookup k m.sessions)

pub find_by_uid-Live : (u : String) (m : Manager) → Live m (find_by_uid u m)
unfolding find_by_uid
find_by_uid-Live u m = pointed-Live m (lookup u m.sessions_by_uid)

remove_found-WellFormed :
    (k : String) (m : Manager) (o : Option (ℕ × Session))
    → Live m o
    → WellFormed m
    → WellFormed (remove_found k m o)
unfolding remove_found
remove_found-WellFormed k m none live v = v
remove_found-WellFormed k m (some (p, s)) live v =
    let (same_id, same_user) = close-names s in
    without_uid-WellFormed s.open_id
      (record m { cells = set m.cells p (close s); sessions = delete k m.sessions })
      (forget-WellFormed k (put p (close s) m)
        (put-WellFormed p s (close s) m live same_id same_user v))

pub immediate-WellFormed :
    (k : String) (m : Manager) → WellFormed m → WellFormed (immediate_remove_session k m)
unfolding immediate_remove_session
immediate-WellFormed k m v =
    remove_found-WellFormed k m (find_session k m) (find_session-Live k m) v

pub delay_found-WellFormed :
    (k : String) (delay : Bool) (m : Manager) (o : Option (ℕ × Session))
    → Live m o
    → WellFormed m
    → WellFormed (delay_found k delay m o)
unfolding delay_found
delay_found-WellFormed k delay m none live v = v
delay_found-WellFormed k delay m (some (p, s)) live v =
    let m' = put p (set_closed s).0 m in
    let marked : WellFormed m' =
      put-WellFormed p s (set_closed s).0 m live (set_closed-names s).0 (set_closed-names s).1 v in
    let gone = immediate-WellFormed k m' marked in
    elim (Bool-cases ((set_closed s).1 && not delay)) [
      | inl now ↦ rw now gone
      | inr later ↦ elim (Bool-cases (delay && not (s.open_id == ""))) [
        | inl waits ↦
            rw (later, waits)
              (record { by_id = marked.by_id; by_user = marked.by_user; named = marked.named })
        | inr at_once ↦ rw (later, at_once) gone
      ]
    ]

expire_found-WellFormed :
    (k : String) (m : Manager) (o : Option (ℕ × Session))
    → Live m o
    → WellFormed m
    → WellFormed (expire_found k m o)
unfolding expire_found
expire_found-WellFormed k m none live v = v
expire_found-WellFormed k m (some (p, s)) live v =
    forget-WellFormed k (put p (close s) m)
      (put-WellFormed p s (close s) m live (close-names s).0 (close-names s).1 v)

pub expire_all-WellFormed :
    (ks : List String) (m : Manager) → WellFormed m → WellFormed (expire_all ks m)
unfolding expire_all
expire_all-WellFormed [] m v = v
expire_all-WellFormed (k ∷ ks) m v =
    expire_all-WellFormed ks (expire_found k m (find_session k m))
      (expire_found-WellFormed k m (find_session k m) (find_session-Live k m) v)
