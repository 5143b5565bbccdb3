-- ===== src/Session/State/Login.antt =====
-- The client's numbers, and the activation of a session.
use gateway_test.Session.State.{
  closed_state, is_inited, SessionState, normal, inited, activate_session, Session,
  validate_client_seq,
}
use gateway_test.Prelude.{
  ℕ, zero, suc, ◌+◌, ◌-◌, ◌<◌, ◌≡◌, refl, ap, ◌∙◌, ◌≢◌, Bool, true, false, List, [], ◌∷◌, ◌++◌,
  arith, eqb, if◌then◌else◌, nat_eq, string_eq, length, set, replicate, u64_mod, ℤ,
}

-- The numbers start, start + 1, …, `count` of them.
abbrev pub up_from : ℕ → ℕ → List ℕ
up_from start zero = []
up_from start (suc count) = start ∷ up_from (start + 1) count

-- Of the numbers that a client sends, those a counter takes: the next one whenever it comes.
abbrev pub chain : ℕ → List ℕ → List ℕ
chain next [] = []
chain next (n ∷ ns) =
    let later = chain (next + 1) ns in
    let skipped = chain next ns in if eqb n next then n ∷ later else skipped

-- The requests of a client, and the numbers that were accepted, in their order.
unfoldable pub feed : List ℕ → Session → Session × List ℕ
feed [] s = (s, [])
feed (n ∷ ns) s =
    let (s', accepted) = validate_client_seq n s in
    let (s'', taken) = feed ns s' in (s'', if accepted then n ∷ taken else taken)

abbrev ConsecutiveFrom : ℕ → List ℕ → Session × List ℕ → Type 0
ConsecutiveFrom start ns (s, taken) =
    (taken ≡ chain start ns)
    × (taken ≡ up_from start (length taken))
    × (s.max_client_seq + 1 ≡ start + length taken)

feed-consecutive :
    (ns : List ℕ) (s : Session)
    → s.max_client_seq ≢ 0
    → s.max_client_seq + length ns + 1 < u64_mod
    → ConsecutiveFrom (s.max_client_seq + 1) ns (feed ns s)
unfolding feed validate_client_seq
feed-consecutive [] s set small = (refl, refl, omega arith)
feed-consecutive (n ∷ ns) s set small =
    ground (arith, feed-consecutive ns s set, feed-consecutive ns (record s { max_client_seq = n }))

-- A session that has taken a number other than 0 takes exactly the numbers that follow it, each
-- when it is the next one, whatever a client sends in between. What it takes is consecutive, and
-- it remembers the last. The numbers do not wrap.
pub feed-client_seqs :
    (ns : List ℕ) (s : Session)
    → s.max_client_seq ≢ 0
    → s.max_client_seq + length ns + 1 < u64_mod
    → let (s', taken) = feed ns s in
      (taken ≡ chain (s.max_client_seq + 1) ns)
      × (taken ≡ up_from (s.max_client_seq + 1) (length taken))
      × (s'.max_client_seq ≡ s.max_client_seq + length taken)
feed-client_seqs ns s set small =
    let (exact, listed, last) = feed-consecutive ns s set small in
    (exact, listed, omega (arith, last))

feed-first :
    (n : ℕ) (ns : List ℕ) (s : Session)
    → s.max_client_seq ≡ 0
    → n ≢ 0
    → n + length ns + 1 < u64_mod
    → let taken = (feed (n ∷ ns) s).1 in
      (taken ≡ n ∷ chain (n + 1) ns) × (taken ≡ up_from n (length taken))
unfolding feed validate_client_seq
feed-first n ns s fresh set small =
    ground (arith, feed-consecutive ns (record s { max_client_seq = n }) set small)

feed-zero :
    (ns : List ℕ) (s : Session)
    → s.max_client_seq ≡ 0
    → (feed (0 ∷ ns) s).1 ≡ 0 ∷ (feed ns (record s { max_client_seq = 0 })).1
unfolding feed validate_client_seq
feed-zero ns s fresh = ground arith

-- A session that has taken no number, or only the number 0, takes 0 as often as it comes, and then
-- any number n other than 0; from there on it takes n + 1, n + 2 and so on, each when it is the
-- next one, and no other number. The numbers do not wrap.
pub feed-fresh :
    (reps n : ℕ) (ns : List ℕ) (s : Session)
    → s.max_client_seq ≡ 0
    → n ≢ 0
    → n + length ns + 1 < u64_mod
    → let taken = (feed (replicate reps 0 ++ (n ∷ ns)) s).1 in
      (taken ≡ replicate reps 0 ++ n ∷ chain (n + 1) ns)
      × (taken ≡ replicate reps 0 ++ up_from n (length taken - reps))
feed-fresh zero n ns s fresh set small =
    let (exact, listed) = feed-first n ns s fresh set small in
    (exact, listed ∙ ap (up_from n) (omega arith))
feed-fresh (suc reps) n ns s fresh set small =
    let (exact, listed) = feed-fresh reps n ns (record s { max_client_seq = 0 }) refl set small in
    rw (feed-zero (replicate reps 0 ++ (n ∷ ns)) s fresh) (
      ap (λ rest. 0 ∷ rest) exact,
      ap (λ rest. 0 ∷ rest) (listed ∙ ap (λ k. replicate reps 0 ++ up_from n k) (omega arith)),
    )

-- The answers of `activate_session` to a list of zones, in their order.
unfoldable pub activations : List ℤ → Session → Session × List Bool
activations [] s = (s, [])
activations (zone ∷ zones) s =
    let (s', ok) = activate_session zone s in
    let (s'', oks) = activations zones s' in (s'', ok ∷ oks)

not_inited : (state : SessionState) → state ≢ inited → is_inited state ≡ false
not_inited inited h = absurd (h refl)
not_inited normal h = refl
not_inited closed_state h = refl

activations-normal :
    (zones : List ℤ) (s : Session)
    → s.state ≢ inited
    → activations zones s ≡ (s, replicate (length zones) false)
unfolding activations activate_session
activations-normal [] s h = refl
activations-normal (zone ∷ zones) s h =
    ground (arith, not_inited s.state h, activations-normal zones s h)

-- Of any number of activations of a new session, the first succeeds and sets the zone, and the
-- others fail and change nothing.
activations-once :
    (zone : ℤ) (zones : List ℤ) (s : Session)
    → s.state ≡ inited
    → activations (zone ∷ zones) s
      ≡ (record s { state = normal; zone = zone }, true ∷ replicate (length zones) false)
unfolding activations activate_session
activations-once zone zones s e = ground (
  arith,
  activations-normal zones (record s { state = normal; zone = zone }) λ e. ground (arith, e),
)
