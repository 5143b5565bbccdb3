-- ===== src/Session/Manager/Expiry.antt =====
-- The sessions that expire, and the users that point to them still.
use gateway_test.Prelude.{
  ℕ, subst, zero, suc, String, ◌≡◌, refl, sym, ap, ◌∙◌, ◌≢◌, ◌⊎◌, inl, inr, Bool, true, false, ◌||◌,
  Option, none, some, List, [], ◌∷◌, arith, Bool-cases, Option-cases, ◌==◌, nat_eq, string_eq,
  get_elem?, set, is_some, some_inj,
}
use gateway_test.Prelude.Dict.{Dict, lookup, lookup-delete_self, lookup-delete_other, lookup-delete}
use gateway_test.Session.State.{Session, is_expired, close}
use gateway_test.Session.Manager.{
  Manager, find_session, remove_expired_sessions, expire_all, expire_found, expired_ids,
}

abbrev has : String → List String → Bool
has k [] = false
has k (j ∷ js) = (j == k) || has k js

is_some-set :
    (xs : List Session) (i j : ℕ) (y : Session)
    → is_some (get_elem? (set xs i y) j) ≡ is_some (get_elem? xs j)
is_some-set [] i j y = refl
is_some-set (z ∷ xs) zero zero y = refl
is_some-set (z ∷ xs) zero (suc j) y = refl
is_some-set (z ∷ xs) (suc i) zero y = refl
is_some-set (z ∷ xs) (suc i) (suc j) y = is_some-set xs i j y

expire_found-uids :
    (k : String) (m : Manager) (o : Option (ℕ × Session))
    → (expire_found k m o).sessions_by_uid ≡ m.sessions_by_uid
unfolding expire_found
expire_found-uids k m none = refl
expire_found-uids k m (some (p, s)) = refl

expire_all-uids :
    (ids : List String) (m : Manager) → (expire_all ids m).sessions_by_uid ≡ m.sessions_by_uid
unfolding expire_all
expire_all-uids [] m = refl
expire_all-uids (k ∷ ids) m =
    expire_all-uids ids (expire_found k m (find_session k m))
    ∙ expire_found-uids k m (find_session k m)

module _ (k : String) (p : ℕ) where
  -- The id is gone, or still points to an object.
  abbrev Tracked : Manager → Type 0
  Tracked m =
      (lookup k m.sessions ≡ none)
      ⊎ ((lookup k m.sessions ≡ some p) × (is_some (get_elem? m.cells p) ≡ true))

  expire_found-gone :
      (j : String) (m : Manager) (o : Option (ℕ × Session))
      → lookup k m.sessions ≡ none
      → lookup k (expire_found j m o).sessions ≡ none
  unfolding expire_found
  expire_found-gone j m none e = e
  expire_found-gone j m (some (q, s)) e = ground (arith, e, lookup-delete j k m.sessions)

  expire_found-other :
      (j : String) (m : Manager) (o : Option (ℕ × Session))
      → j ≢ k
      → Tracked m
      → Tracked (expire_found j m o)
  unfolding expire_found
  expire_found-other j m none d t = t
  expire_found-other j m (some (q, s)) d (inl e) = inl (lookup-delete_other j k m.sessions d ∙ e)
  expire_found-other j m (some (q, s)) d (inr (e, there)) =
      inr (lookup-delete_other j k m.sessions d ∙ e, is_some-set m.cells q p (close s) ∙ there)

  find_session-tracked :
      (m : Manager)
      → lookup k m.sessions ≡ some p
      → is_some (get_elem? m.cells p) ≡ true
      → (s : Session) × (find_session k m ≡ some (p, s))
  unfolding find_session
  find_session-tracked m e there = elim (Option-cases (get_elem? m.cells p)) [
    | inl missing ↦ absurd (ground (arith, missing, there))
    | inr (s, found) ↦ (s, rw (e, found) refl)
  ]

  expire_found_self :
      (m : Manager) → Tracked m → lookup k (expire_found k m (find_session k m)).sessions ≡ none
  unfolding expire_found
  expire_found_self m (inl e) = expire_found-gone k m (find_session k m) e
  expire_found_self m (inr (e, there)) =
      let (s, found) = find_session-tracked m e there in rw found (lookup-delete_self k m.sessions)

  expire_all-stays_gone :
      (ids : List String) (m : Manager)
      → lookup k m.sessions ≡ none
      → lookup k (expire_all ids m).sessions ≡ none
  unfolding expire_all
  expire_all-stays_gone [] m e = e
  expire_all-stays_gone (j ∷ ids) m e =
      expire_all-stays_gone ids (expire_found j m (find_session j m))
        (expire_found-gone j m (find_session j m) e)

  expire_all-gone :
      (ids : List String) (m : Manager)
      → has k ids ≡ true
      → Tracked m
      → lookup k (expire_all ids m).sessions ≡ none
  unfolding expire_all
  expire_all-gone [] m h t = ground (arith, h)
  expire_all-gone (j ∷ ids) m h t = elim (Bool-cases (j == k)) [
    | inl here ↦
        let same : j ≡ k = (string_eq.beq_iff j k).0 here in
        expire_all-stays_gone ids (expire_found j m (find_session j m)) (
          subst (λ i. lookup k (expire_found i m (find_session i m)).sessions ≡ none) (sym same)
            (expire_found_self m t))
    | inr there ↦
        expire_all-gone ids (expire_found j m (find_session j m)) (ground (arith, h, there)) (
          expire_found-other j m (find_session j m)
            (λ e. ground (arith, there, string_eq.beq_iff j k, e)) t)
  ]

  expired_ids-has :
      (now : ℕ) (m : Manager) (index : Dict String ℕ) (s : Session)
      → lookup k index ≡ some p
      → get_elem? m.cells p ≡ some s
      → is_expired now m.session_timeout s ≡ true
      → has k (expired_ids now m index) ≡ true
  unfolding expired_ids lookup
  expired_ids-has now m [] s e there late = ground (arith, e)
  expired_ids-has now m ((j, q) ∷ index) s e there late = elim (Bool-cases (j == k)) [
    | inl here ↦
        let same : some q ≡ some p = ground (arith, e, here) in
        rw (some_inj same, there, late, here) refl
    | inr other ↦
        ground (arith, expired_ids-has now m index s (ground (arith, e, other)) there late)
  ]

-- A defect of the removal of expired sessions: it leaves the index by user alone. An expired
-- session is no longer found by its id, and the user still leads to its object.
pub remove_expired_sessions-stale :
    (now : ℕ) (session_id open_id : String) (m : Manager) (p : ℕ) (s : Session)
    → lookup session_id m.sessions ≡ some p
    → lookup open_id m.sessions_by_uid ≡ some p
    → get_elem? m.cells p ≡ some s
    → is_expired now m.session_timeout s ≡ true
    → let m' = remove_expired_sessions now m in
      (lookup session_id m'.sessions ≡ none) × (lookup open_id m'.sessions_by_uid ≡ some p)
unfolding remove_expired_sessions
remove_expired_sessions-stale now session_id open_id m p s listed user there late =
    let ids = expired_ids now m m.sessions in
    (
      expire_all-gone session_id p ids m
          (expired_ids-has session_id p now m m.sessions s listed there late)
          (inr (listed, ap is_some there)),
      ap (lookup open_id) (expire_all-uids ids m) ∙ user,
    )
