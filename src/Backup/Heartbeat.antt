-- ===== src/Backup/Heartbeat.antt =====
-- internal/backup/heartbeat.go: the heartbeats between the two servers. Each method is one step.
-- The connections and the encoding to JSON are outside the program: a step takes their outcome.
-- Clocks give int64 nanoseconds.
use gateway_test.Prelude.{
  ℕ, ◌+◌, ◌*◌, ◌/◌, ◌%◌, String, Bool, true, false, not, ◌&&◌, ◌||◌, Option, none, some, List, [],
  ◌∷◌, if◌then◌else◌, ◌==◌, nat_eq, string_eq, get_elem?, select, ℤ, pos, pos_part, sub64, add64,
  ltb_ℤ, is_some, signed64, eqb_ℤ, bits64,
}
use gateway_test.Backup.Records.{
  ServerMode, SyncConfig, HeartbeatData, SyncMessage, SyncPayload, heartbeat_type,
}
use gateway_test.Session.Manager.{Manager, get_session_count}
use gateway_test.Session.State.{Session}

pub record HeartbeatStats : Type 0 where
  pub sent_count : ℤ
  pub received_count : ℤ
  pub failed_count : ℤ
  pub last_sent_time : ℤ
  pub last_recv_time : ℤ
  pub average_latency : ℤ
  pub consecutive_fails : ℤ

pub record HeartbeatService : Type 0 where
  pub config : SyncConfig
  pub mode : ServerMode
  pub server_id : String
  pub heartbeat_addr : String
  -- The connection to the peer, and a request to build it again.
  pub connected : Bool
  pub reconnect : Bool
  pub listening : Bool
  pub connections : List String
  pub session_mgr : Option Manager
  pub last_peer_time : ℤ
  pub last_self_time : ℤ
  pub stopped : Bool
  pub peer_alive : Bool
  pub stats : HeartbeatStats

abbrev fresh_stats : HeartbeatStats
fresh_stats = record {
  sent_count = pos 0;
  received_count = pos 0;
  failed_count = pos 0;
  last_sent_time = pos 0;
  last_recv_time = pos 0;
  average_latency = pos 0;
  consecutive_fails = pos 0;
}

unfoldable pub new_heartbeat_service_with_addr :
    SyncConfig → ServerMode → String → Option Manager → String → HeartbeatService
new_heartbeat_service_with_addr config mode server_id session_mgr heartbeat_addr = record {
  config = config;
  mode = mode;
  server_id = server_id;
  heartbeat_addr = heartbeat_addr;
  connected = false;
  reconnect = false;
  listening = false;
  connections = [];
  session_mgr = session_mgr;
  last_peer_time = pos 0;
  last_self_time = pos 0;
  stopped = false;
  peer_alive = false;
  stats = fresh_stats;
}

unfoldable pub new_heartbeat_service :
    SyncConfig → ServerMode → String → Option Manager → HeartbeatService
unfolding new_heartbeat_service_with_addr
new_heartbeat_service config mode server_id session_mgr =
    new_heartbeat_service_with_addr config mode server_id session_mgr config.peer_addr

abbrev pub increment : ℤ → ℤ
increment a = add64 a (pos 1)

get_session_count_of : Option Manager → ℕ
get_session_count_of none = 0
get_session_count_of (some m) = get_session_count m

pub has_queue : Session → Bool
has_queue s = is_some s.ordered_queue

-- The loop over the sessions that the index by id reaches.
pub queues_at : List Session → List (String × ℕ) → ℕ
queues_at cells [] = 0
queues_at cells ((_, p) ∷ index) =
    let n = queues_at cells index in
    elim (get_elem? cells p) [ none ↦ n | some s ↦ if has_queue s then n + 1 else n ]

get_queue_count : Option Manager → ℕ
get_queue_count none = 0
get_queue_count (some m) = queues_at m.cells m.sessions

-- What a server says of itself, as a heartbeat and as the answer to one.
unfoldable pub own_heartbeat : ℤ → HeartbeatService → HeartbeatData
unfolding get_session_count_of get_queue_count
own_heartbeat now h = record {
  server_id = h.server_id;
  mode = h.mode;
  timestamp = now;
  session_count = pos (get_session_count_of h.session_mgr);
  queue_count = pos (get_queue_count h.session_mgr);
  is_healthy = is_some h.session_mgr;
  last_sync_time = now;
}

unfoldable pub heartbeat_message : HeartbeatData → SyncMessage
heartbeat_message d = record {
  type = heartbeat_type;
  session_id = "";
  timestamp = d.timestamp;
  payload = SyncPayload.of_heartbeat d;
  checksum = 0;
}

unfoldable pub close_connection : HeartbeatService → HeartbeatService
close_connection h = if h.connected then record h { connected = false; peer_alive = false } else h

-- `(average * 9 + latency) / 10`, for latencies that are not negative and do not overflow.
abbrev pub moving_average : ℤ → ℤ → ℤ
moving_average average latency =
    if eqb_ℤ average (pos 0) then latency else pos ((pos_part average * 9 + pos_part latency) / 10)

count_sent : ℤ → ℤ → HeartbeatStats → HeartbeatStats
count_sent now latency st = record st {
  sent_count = increment st.sent_count;
  last_sent_time = now;
  consecutive_fails = pos 0;
  average_latency = moving_average st.average_latency latency;
}

count_failed : HeartbeatStats → HeartbeatStats
count_failed st = record st {
  failed_count = increment st.failed_count;
  consecutive_fails = increment st.consecutive_fails;
}

-- The beat that went out, if one did. `written` is the outcome of the writes.
unfoldable pub send_heartbeat :
    ℤ → ℤ → Bool → HeartbeatService → HeartbeatService × Option SyncMessage
unfolding count_sent count_failed
send_heartbeat now latency written h =
    if not h.connected
    then (h, none)
    else if written
    then (
      record h { last_self_time = now; stats = count_sent now latency h.stats },
      some (heartbeat_message (own_heartbeat now h)),
    )
    else (
      record (close_connection (record h { stats = count_failed h.stats })) { reconnect = true },
      none,
    )

unfoldable pub on_heartbeat_received : ℤ → HeartbeatData → HeartbeatService → HeartbeatService
on_heartbeat_received now d h = record h {
  last_peer_time = d.timestamp;
  peer_alive = true;
  stats = record h.stats {
    received_count = increment h.stats.received_count;
    last_recv_time = now;
  };
}

unfoldable pub try_connect : Bool → HeartbeatService → HeartbeatService
try_connect dialled h =
    if h.stopped || h.connected
    then h
    else if dialled
    then record h { connected = true; peer_alive = true }
    else h

-- One turn of the connection manager: a request to reconnect, or the ticker.
unfoldable pub manage_connection : Bool → HeartbeatService → HeartbeatService
manage_connection dialled h =
    if h.reconnect
    then try_connect dialled (record h { reconnect = false })
    else if h.connected
    then h
    else try_connect dialled h

-- `time.Duration(now - last) > limit`, in int64.
abbrev pub is_overdue : ℤ → ℤ → ℤ → Bool
is_overdue now last limit = ltb_ℤ limit (sub64 now last)

-- `config.HeartbeatInterval * 3`, in int64.
abbrev pub failure_timeout : SyncConfig → ℤ
failure_timeout config = signed64 (bits64 config.heartbeat_interval * 3 % 18446744073709551616)

-- One tick of the checker.
unfoldable pub check_peer : ℤ → HeartbeatService → HeartbeatService
check_peer now h =
    if eqb_ℤ h.last_peer_time (pos 0)
    then h
    else if is_overdue now h.last_peer_time (failure_timeout h.config) && h.peer_alive
    then record h { peer_alive = false }
    else h

-- What one read brings: an error, or a message.
pub data ReadResult : Type 0 where
  read_failed : ReadResult
  read_beat : HeartbeatData → ReadResult
  read_other : ReadResult

-- The receiving loop of the primary: the second component says whether it goes on.
unfoldable pub receive_heartbeat : ℤ → ReadResult → HeartbeatService → HeartbeatService × Bool
receive_heartbeat now read_failed h = (record h { peer_alive = false }, false)
receive_heartbeat now (read_beat d) h = (on_heartbeat_received now d h, true)
receive_heartbeat now read_other h = (h, true)

abbrev without : String → List String → List String
without addr addrs = select (λ other. not (other == addr)) addrs

unfoldable pub start_listener : Bool → HeartbeatService → HeartbeatService
start_listener bound h = if bound then record h { listening = true } else h

unfoldable pub accept_connection : String → HeartbeatService → HeartbeatService
accept_connection addr h =
    if h.listening then record h { connections = addr ∷ without addr h.connections } else h

-- One round of the backup's loop over a connection: the answer it writes, and whether it goes on.
unfoldable pub handle_heartbeat :
    ℤ → String → ReadResult → HeartbeatService → HeartbeatService × Option SyncMessage × Bool
handle_heartbeat now addr read_failed h =
    (record h { connections = without addr h.connections }, none, false)
handle_heartbeat now addr (read_beat d) h =
    let h' = on_heartbeat_received now d h in
    (h', some (heartbeat_message (own_heartbeat now h')), true)
handle_heartbeat now addr read_other h = (h, none, true)

unfoldable pub close_listener : HeartbeatService → HeartbeatService
close_listener h = record h { listening = false; connections = [] }

unfoldable pub stop : HeartbeatService → HeartbeatService
stop h = if h.stopped then h else close_listener (close_connection (record h { stopped = true }))
