-- ===== src/Gateway/Server.antt =====
-- internal/gateway: the state that the handlers share. A handler runs as one step, with the calls to
-- other services in it; the upstream service, the clocks and the streams are given by `ServerEnv`.
pub mod Facts
use gateway_test.Prelude.{
  ℕ, String, refl, ◌⊎◌, Bool, Option, none, some, List, [], arith, eqb, if◌then◌else◌, nat_eq,
  string_eq, get_elem?, ℤ,
}
use gateway_test.Proto.{ClientRequest, BusinessRequest, UpstreamRequest, UpstreamResponse}
use gateway_test.Session.Queue.{Wire}
use gateway_test.Session.State.{Session}
use gateway_test.Session.Manager.{Manager, put}
use gateway_test.Gateway.Overload.{OverloadProtector}
use gateway_test.Gateway.Router.{Text}
use gateway_test.Gateway.Sender.{
  Formats, SenderEnv, SenderError, Sent, no_queue, send_error_response,
}

pub record AsyncTask : Type 0 where
  pub session : ℕ
  pub request : ClientRequest
  pub business_req : BusinessRequest
  pub service_type : String
  pub upstream_req : UpstreamRequest
  pub is_login : Bool

pub record AsyncProcessor : Type 0 where
  pub max_workers : ℕ
  pub max_queue_size : ℕ
  pub task_queue : List AsyncTask
  pub started : Bool
  pub stopping : Bool

-- Sessions are known by their cell in the manager, and each has a wire. `upstream_calls` logs the
-- calls of upstream services, newest first.
pub record Server : Type 0 where
  pub manager : Manager
  pub protector : OverloadProtector
  pub wires : ℕ → Wire
  pub async_processor : Option AsyncProcessor
  pub upstream_calls : List (String × UpstreamRequest)

-- `call` is the outcome of an upstream call, an error with its text or a response; `parse_int` is
-- strconv.ParseInt in base 10; `error_text` is the text of an error of a library or of the manager,
-- and the other texts are those that fmt.Sprintf makes.
pub record ServerEnv : Type 0 where
  pub formats : Formats
  pub text : Text
  pub write : ℕ → ℕ → List ℕ → Bool
  pub now : ℕ
  pub millis : ℤ
  pub unix_now : ℤ
  pub call : String → UpstreamRequest → String ⊎ UpstreamResponse
  pub parse_int : String → Option ℤ
  pub error_text : String
  pub sequence_detail : ℕ → ℕ → String
  pub titled : String → String → String

abbrev pub sender_env : ServerEnv → ℕ → SenderEnv
sender_env env p = record {
  formats = env.formats;
  write = env.write p;
  now = env.now;
  millis = env.millis;
}

abbrev pub session_at : ℕ → Server → Option Session
session_at p srv = get_elem? srv.manager.cells p

abbrev pub put_session : ℕ → Session → Server → Server
put_session p s srv = record srv { manager = put p s srv.manager }

abbrev pub with_wire : ℕ → Wire → (ℕ → Wire) → ℕ → Wire
with_wire p w wires k = if eqb p k then w else wires k

-- A send through the session of a cell.
pub send_to : ℕ → Option Session → (Session → Wire → Sent) → Server → Server × Option SenderError
send_to p none send srv = (srv, some no_queue)
send_to p (some s) send srv =
    let (s', w', e) = send s (srv.wires p) in
    (record srv { manager = put p s' srv.manager; wires = with_wire p w' srv.wires }, e)

unfoldable pub send_by : ℕ → (Session → Wire → Sent) → Server → Server × Option SenderError
unfolding send_to
send_by p send srv = send_to p (session_at p srv) send srv

module _ (env : ServerEnv) where
  -- sendErrorResponse: a failure is only logged.
  unfoldable pub respond_error : ℕ → ℕ → ℤ → String → String → Server → Server
  respond_error p msg_id code message detail srv =
      (send_by p (send_error_response (sender_env env p) msg_id code message detail) srv).0
