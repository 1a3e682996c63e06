-- ===== src/Server/Closing.antt =====
-- How the server's half of a connection ends.
use rtcvpn.Common.{◌≡◌, arith, [], ◌∷◌, ◌++◌, Bool, true, false, none, some}
use rtcvpn.Server.{
  TunnelSession, Kind, Result, send_fin, remove_session, call_close, target_close, close,
  close_session, on_target_closed,
}

-- A connection that start has made and nothing has closed.
pub record IsOpen (t : TunnelSession) (k : Kind) : Type 0 where
  pub has_kind : t.kind ≡ some k
  pub has_socket : t.socket ≡ true
  pub not_closed : t.is_closed ≡ false
  pub interface_open : t.interface_closed ≡ false
  pub peer_open : t.is_p2p_closed ≡ false
  pub bound : t.close_func ≡ true

abbrev pub ended : TunnelSession → Bool → TunnelSession
ended t peer = record t {
  kind = none;
  socket = false;
  interface_closed = true;
  is_p2p_closed = peer;
  is_closed = true;
  session = false;
}

-- When the target closes an open tunnel, one FIN is sent, the stream is removed from the
-- multiplexer and the owner's close function is called once; a second close event has no effect.
pub target_closes_first :
    (t : TunnelSession) (k : Kind)
    → IsOpen t k
    → (on_target_closed t ≡ (
      ended t false,
      send_fin t.stream_id t.protocol ∷ remove_session t.stream_id ∷ call_close t.stream_id ∷ [],
    ))
      × (on_target_closed (on_target_closed t).0 ≡ (ended t false, []))
unfolding on_target_closed close_session
target_closes_first t k o = (ground arith, ground arith)

-- The close callback of the socket behind an operation.
abbrev pub then_closed : Result → Result
then_closed none = none
then_closed (some (t, es)) = some ((on_target_closed t).0, es ++ (on_target_closed t).1)

-- When the client's FIN closes an open tunnel, the target socket is closed; its close event then
-- sends no FIN, removes the stream and calls the owner's close function once.
pub client_closes_first :
    (t : TunnelSession) (k : Kind)
    → IsOpen t k
    → then_closed (close t)
      ≡ some (ended t true, target_close ∷ remove_session t.stream_id ∷ call_close t.stream_id ∷ [])
unfolding close on_target_closed close_session
client_closes_first t k o = ground arith
