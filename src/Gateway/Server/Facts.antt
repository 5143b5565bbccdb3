-- ===== src/Gateway/Server/Facts.antt =====
-- What a send through a session changes.
use gateway_test.Prelude.{
  ℕ, subst, String, ◌≡◌, refl, sym, Option, none, some, arith, nat_eq, string_eq, ℤ,
}
use gateway_test.Session.Manager.Removal.{get_elem?-set_self}
use gateway_test.Session.Queue.{Wire}
use gateway_test.Session.State.{Session}
use gateway_test.Gateway.Sender.{Sent, SenderError}
use gateway_test.Gateway.Server.{Server, ServerEnv, session_at, send_to, send_by, respond_error}

-- A server that differs in its sessions and wires only.
pub record KeepsRest (srv srv' : Server) : Type 0 where
  pub protector : srv'.protector ≡ srv.protector
  pub processor : srv'.async_processor ≡ srv.async_processor
  pub calls : srv'.upstream_calls ≡ srv.upstream_calls

send_to-KeepsRest :
    (p : ℕ) (o : Option Session) (send : Session → Wire → Sent) (srv : Server)
    → KeepsRest srv (send_to p o send srv).0
unfolding send_to
send_to-KeepsRest p none send srv = record { protector = refl; processor = refl; calls = refl }
send_to-KeepsRest p (some s) send srv = record { protector = refl; processor = refl; calls = refl }

pub send_by-KeepsRest :
    (p : ℕ) (send : Session → Wire → Sent) (srv : Server) → KeepsRest srv (send_by p send srv).0
unfolding send_by
send_by-KeepsRest p send srv = send_to-KeepsRest p (session_at p srv) send srv

pub respond_error-KeepsRest :
    (env : ServerEnv) (p msg_id : ℕ) (code : ℤ) (message detail : String) (srv : Server)
    → KeepsRest srv (respond_error env p msg_id code message detail srv)
unfolding respond_error
respond_error-KeepsRest env p msg_id code message detail srv = send_by-KeepsRest p _ srv

pub record Through (p : ℕ) (r : Sent) (r' : Server × Option SenderError) : Type 0 where
  pub wire : r'.0.wires p ≡ r.1
  pub session : session_at p r'.0 ≡ some r.0
  pub error : r'.1 ≡ r.2

kept_rest :
    (p : ℕ) (s : Session) (send : Session → Wire → Sent) (srv : Server)
    → session_at p srv ≡ some s
    → Through p (send s (srv.wires p)) (send_to p (some s) send srv)
unfolding send_to
kept_rest p s send srv e = record {
  wire = ground arith;
  session = get_elem?-set_self srv.manager.cells p s (send s (srv.wires p)).0 e;
  error = refl;
}

pub send_by-Through :
    (p : ℕ) (s : Session) (send : Session → Wire → Sent) (srv : Server)
    → session_at p srv ≡ some s
    → Through p (send s (srv.wires p)) (send_by p send srv)
unfolding send_by
send_by-Through p s send srv e =
    subst (λ o. Through p (send s (srv.wires p)) (send_to p o send srv)) (sym e)
      (kept_rest p s send srv e)
