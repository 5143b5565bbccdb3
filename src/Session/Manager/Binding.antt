-- ===== src/Session/Manager/Binding.antt =====
-- A start request names the user of its session and binds it: internal/gateway/handlers.go,
-- handleStartSync. What this leaves of the indexes.
use gateway_test.Prelude.{
  ℕ, subst, zero, suc, String, ◌≡◌, refl, sym, ap, ◌∙◌, ◌≢◌, ◌⊎◌, inl, inr, Option, none, some,
  List, [], ◌∷◌, map, arith, if◌then◌else◌, Bool-cases, ◌==◌, nat_eq, string_eq, get_elem?, set,
  some_inj, if_both,
}
use gateway_test.Prelude.Dict.{Dict, Entries, Entries-store}
use gateway_test.Session.State.{Session}
use gateway_test.Session.Manager.{Manager, put}
use gateway_test.Session.Manager.Calls.{bind_session, bind_cell, ManagerError}
use gateway_test.Session.Manager.WellFormed.{WellFormed, Points, Named, users, map-set}

-- The assignments to the session of a cell, and the bind that follows. An empty user is refused
-- before.
name_cell : ℕ → String → String → Option Session → Manager → Manager
name_cell p open_id client_id none m = m
name_cell p open_id client_id (some s) m =
    if open_id == ""
    then m
    else (bind_session p (put p (record s { open_id = open_id; client_id = client_id }) m)).0

unfoldable pub start_session : ℕ → String → String → Manager → Manager
unfolding name_cell
start_session p open_id client_id m = name_cell p open_id client_id (get_elem? m.cells p) m

-- The session has no user yet, or this one.
abbrev pub MayTake : String → Option Session → Type 0
MayTake open_id none = Unit
MayTake open_id (some s) = (s.open_id ≡ "") ⊎ (s.open_id ≡ open_id)

map-get :
    (f : Session → String) (xs : List Session) (p : ℕ) (s : Session)
    → get_elem? xs p ≡ some s
    → Points (map f xs) (f s) p
map-get f [] p s e = cc
map-get f (x ∷ xs) zero s e = ap some (ap f (some_inj e))
map-get f (x ∷ xs) (suc p) s e = map-get f xs p s e

Points-set :
    (f : Session → String) (xs : List Session) (p q : ℕ) (s t : Session) (k : String)
    → get_elem? xs p ≡ some s
    → (k ≡ f s → f t ≡ k)
    → Points (map f xs) k q
    → Points (map f (set xs p t)) k q
Points-set f [] p q s t k there moves e = e
Points-set f (x ∷ xs) zero zero s t k there moves e =
    ap some (moves (sym (some_inj e) ∙ ap f (some_inj there)))
Points-set f (x ∷ xs) zero (suc q) s t k there moves e = e
Points-set f (x ∷ xs) (suc p) zero s t k there moves e = e
Points-set f (x ∷ xs) (suc p) (suc q) s t k there moves e = Points-set f xs p q s t k there moves e

Entries-set :
    (xs : List Session) (p : ℕ) (s t : Session) (index : Dict String ℕ)
    → get_elem? xs p ≡ some s
    → ((k : String) → k ≢ "" → k ≡ s.open_id → t.open_id ≡ k)
    → Entries (Points (map (λ s. s.open_id) xs)) index
    → Entries Named index
    → Entries (Points (map (λ s. s.open_id) (set xs p t))) index
Entries-set xs p s t [] there moves h named = tt
Entries-set xs p s t ((k, q) ∷ index) there moves h named = (
  Points-set (λ s. s.open_id) xs p q s t k there (moves k named.0) h.0,
  Entries-set xs p s t index there moves h.1 named.1,
)

cell-WellFormed :
    (p : ℕ) (m : Manager) (o : Option Session)
    → get_elem? m.cells p ≡ o
    → WellFormed m
    → WellFormed (bind_cell p m o).0
cell-WellFormed p m none there v = v
cell-WellFormed p m (some s) there v = elim (Bool-cases (s.open_id == "")) [
  | inl none_given ↦ rw none_given v
  | inr given ↦
      let points : Points (users m) s.open_id p = map-get (λ s. s.open_id) m.cells p s there in
      let name : s.open_id ≢ "" =
        λ e. ground (arith, given, (string_eq.beq_iff s.open_id "").1 e) in
      rw given (
        if_both (λ (r : Manager × Option ManagerError). WellFormed r.0) _ v
          (record {
            by_id = v.by_id;
            by_user =
                Entries-store (Points (users m)) s.open_id p m.sessions_by_uid points v.by_user;
            named = Entries-store Named s.open_id p m.sessions_by_uid name v.named;
          }))
]

pub bind_session-WellFormed : (p : ℕ) (m : Manager) → WellFormed m → WellFormed (bind_session p m).0
unfolding bind_session
bind_session-WellFormed p m v = cell-WellFormed p m (get_elem? m.cells p) refl v

name-WellFormed :
    (p : ℕ) (open_id client_id : String) (o : Option Session) (m : Manager)
    → get_elem? m.cells p ≡ o
    → MayTake open_id o
    → WellFormed m
    → WellFormed (name_cell p open_id client_id o m)
unfolding name_cell
name-WellFormed p open_id client_id none m there may v = v
name-WellFormed p open_id client_id (some s) m there may v =
    let t = record s { open_id = open_id; client_id = client_id } in
    let moves : (k : String) → k ≢ "" → k ≡ s.open_id → open_id ≡ k = λ k name same. elim may [
      | inl nobody ↦ absurd (name (same ∙ nobody))
      | inr same_user ↦ sym (same ∙ same_user)
    ] in
    if_both WellFormed (open_id == "") v (
      bind_session-WellFormed p (put p t m) (record {
        by_id =
            subst (λ ns. Entries (Points ns) m.sessions)
              (sym (map-set (λ s. s.id) m.cells p s t there refl)) v.by_id;
        by_user = Entries-set m.cells p s t m.sessions_by_uid there moves v.by_user v.named;
        named = v.named;
      }))

pub start_session-WellFormed :
    (p : ℕ) (open_id client_id : String) (m : Manager)
    → MayTake open_id (get_elem? m.cells p)
    → WellFormed m
    → WellFormed (start_session p open_id client_id m)
unfolding start_session
start_session-WellFormed p open_id client_id m may v =
    name-WellFormed p open_id client_id (get_elem? m.cells p) m refl may v
