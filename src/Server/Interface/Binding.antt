-- ===== src/Server/Interface/Binding.antt =====
-- TunnelSession::init of Src/server/src/tunel_session.cpp: what the functions that it binds do to
-- the tunnel, and that the tunnel's handlers in Server are those of its interface behind them.
use rtcvpn.Common.{
  ℕ, ◌≡◌, refl, arith, List, [], ◌∷◌, ◌++◌, Bool, Option, some, if◌then◌else◌, ◌>>=◌, ◌==◌,
}
use rtcvpn.Protocol.Types.{WriteQueueStatus}
use rtcvpn.Server
use rtcvpn.Server.{
  TunnelSession, Effect, send_data, send_fin, send_synack, close_tunnel, on_connected, on_data,
  on_write_queue,
}
use rtcvpn.Server.Interface.{
  SessionInterface, Call, call_close, call_data, call_finish, call_synack, new_interface, init,
  close_session, received, connected, write_queue, tunnel_close, tunnel_send_data, tunnel_send_fin,
  tunnel_send_synack,
}

-- A call of a function that init has bound; it binds no other.
unfoldable pub call_bound : Call → TunnelSession → TunnelSession × List Effect
unfolding close_tunnel
call_bound (call_close f) t = if f == tunnel_close then close_tunnel t else (t, [])
call_bound (call_data f bytes) t =
    (t, if f == tunnel_send_data then send_data t.stream_id bytes t.protocol ∷ [] else [])
call_bound (call_finish f) t =
    (t, if f == tunnel_send_fin then send_fin t.stream_id t.protocol ∷ [] else [])
call_bound (call_synack f ok) t =
    (t, if f == tunnel_send_synack then send_synack t.stream_id ok t.protocol ∷ [] else [])
call_bound _ t = (t, [])

unfoldable pub call_all : List Call → TunnelSession → TunnelSession × List Effect
unfolding call_bound
call_all [] t = (t, [])
call_all (c ∷ cs) t = let (u, es) = call_bound c t in let (v, fs) = call_all cs u in (v, es ++ fs)

-- The interface of a tunnel after init.
abbrev pub interface_of : TunnelSession → SessionInterface
interface_of t = record (init new_interface) {
  is_p2p_closed = t.is_p2p_closed;
  is_closed = t.interface_closed;
}

-- closeSession of that interface, with what its calls lead to.
abbrev pub close_through : TunnelSession → Option (TunnelSession × List Effect)
close_through t = do
  r ← close_session (interface_of t)
  some (call_all r.1 (record t { interface_closed = r.0.is_closed }))

-- A list of calls that leave the interface as it is.
abbrev pub through : Option (List Call) → TunnelSession → Option (TunnelSession × List Effect)
through calls t = do cs ← calls; some (call_all cs t)

-- After init, whatever the state of the tunnel: closeSession, the data callback and the connect
-- callback of its interface end and lead to what the tunnel's handlers say, and the write queue
-- callback throws.
pub handlers_agree :
    (t : TunnelSession) (bytes : List ℕ) (ok : Bool) (status : WriteQueueStatus)
    → (close_through t ≡ some (Server.close_session t))
      × (through (received bytes (interface_of t)) t ≡ some (t, on_data bytes t))
      × (through (connected ok (interface_of t)) t ≡ some (t, on_connected ok t))
      × (through (write_queue status (interface_of t)) t ≡ on_write_queue status t)
unfolding init new_interface close_session call_all received connected write_queue
    Server.close_session on_data on_connected on_write_queue
handlers_agree t bytes ok status = (ground arith, refl, refl, refl)
