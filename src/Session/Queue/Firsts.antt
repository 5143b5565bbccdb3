-- ===== src/Session/Queue/Firsts.antt =====
-- The first transmissions of a log.
use gateway_test.Session.Queue.{
  SendCallback, retry_message, retry_loop, OrderedMessage, OrderedMessageQueue, Wire, QueueCall,
  enqueues, resyncs, seq_of,
}
use gateway_test.Session.Queue.Shape.{IsPending}
use gateway_test.Prelude.Dict.{Dict, Entries}
use gateway_test.Prelude.{
  ℕ, zero, suc, ◌+◌, ◌≤◌, ◌<◌, ◌≡◌, refl, Bool, true, false, not, some, List, [], ◌∷◌, map, arith,
  nat_eq, string_eq, select, All, u64_mod,
}
use native.Mathlib.Bridge.{le_prop}
use mathlib.Core.HLevel.{×_prop}

-- The messages of a log that were sent for the first time: a retried message is marked sent.
abbrev pub firsts : List OrderedMessage → List OrderedMessage
firsts log = select (λ m. not m.sent) log

-- Newest first, the numbers fall, and stay below the bound.
abbrev pub Falling : ℕ → List OrderedMessage → Type 0
Falling n [] = Unit {0}
Falling n (m ∷ ms) = (m.server_seq < n) × Falling m.server_seq ms

-- n, n - 1, …, 1.
abbrev pub countdown : ℕ → List ℕ
countdown zero = []
countdown (suc n) = suc n ∷ countdown n

-- A message that was never sent, and whose number has a successor.
abbrev pub IsFresh : OrderedMessage → Type 0
IsFresh m = (m.sent ≡ false) × (m.server_seq + 1 < u64_mod)

pub IsFresh-prop : (m : OrderedMessage) → IsProp (IsFresh m)
IsFresh-prop m = ×_prop (hlevel) le_prop

-- Calls whose numbers have a successor; without `jumps` none resynchronises.
abbrev pub IsSane : Bool → QueueCall → Type 0
IsSane jumps (enqueues seq p bytes now) = seq + 1 < u64_mod
IsSane jumps (resyncs ack) = (ack + 1 < u64_mod) × (jumps ≡ true)
IsSane jumps _ = Unit {0}

pub record OrderInv (jumps : Bool) (q : OrderedMessageQueue) (w : Wire) : Type 0 where
  pub fresh : All IsFresh q.waiting_queue
  pub falling : Falling q.next_expected_seq (firsts w.log)
  pub exact :
      jumps ≡ false
      → (q.next_expected_seq ≡ q.last_sent_seq + 1)
        × (map seq_of (firsts w.log) ≡ countdown q.last_sent_seq)

pub Falling-mono : {m n : ℕ} (ms : List OrderedMessage) → m ≤ n → Falling m ms → Falling n ms
Falling-mono [] h f = tt
Falling-mono (x ∷ ms) h f = (omega arith, f.1)

pub countdown-next : (a n : ℕ) → a ≡ n + 1 → countdown a ≡ a ∷ countdown n
countdown-next zero n e = absurd (omega arith)
countdown-next (suc a) n e = let same : a ≡ n = omega arith in rw same

-- A retry logs only messages that were sent before.
pub retry_firsts :
    (now : ℕ) (callback : SendCallback) (m : Dict ℕ OrderedMessage) (w : Wire)
    → Entries IsPending m
    → firsts (retry_loop now (some callback) m w).1.log ≡ firsts w.log
unfolding retry_loop retry_message
retry_firsts now callback [] w h = refl
retry_firsts now callback ((j, msg) ∷ m) w h =
    ground (arith, h.0, retry_firsts now callback m (retry_message now callback msg w).1 h.1)
