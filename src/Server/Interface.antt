-- ===== src/Server/Interface.antt =====
-- Src/server/include/session_interface.h: the functions that a SessionInterface is given, its two
-- flags, and what it calls; with the functions that TunnelSession::init of
-- Src/server/src/tunel_session.cpp gives it. A function is a number, and a method gives none where
-- it calls an empty std::function, which throws.
pub mod Counts
pub mod Life
pub mod Binding
mod Tests
use rtcvpn.Common.{
  ℕ, List, [], ◌∷◌, ◌++◌, Bool, true, false, Option, none, some, if◌then◌else◌, ◌>>=◌,
}
use rtcvpn.Protocol.Types.{CtrlType, receive, pause, WriteQueueStatus, danger}

pub record SessionInterface : Type 0 where
  pub close_func : Option ℕ
  pub send_data : Option ℕ
  pub send_finish : Option ℕ
  pub send_synack : Option ℕ
  pub send_data_ctrl : Option ℕ
  pub is_p2p_closed : Bool
  pub is_closed : Bool

-- A call of one of the functions with its arguments, or of the virtual close.
pub data Call : Type 0 where
  call_close : ℕ → Call
  call_data : ℕ → List ℕ → Call
  call_finish : ℕ → Call
  call_synack : ℕ → Bool → Call
  call_data_ctrl : ℕ → CtrlType → Call
  virtual_close : Call

unfoldable pub new_interface : SessionInterface
new_interface = record {
  close_func = none;
  send_data = none;
  send_finish = none;
  send_synack = none;
  send_data_ctrl = none;
  is_p2p_closed = false;
  is_closed = false;
}

unfoldable pub bind_close_func : ℕ → SessionInterface → SessionInterface
bind_close_func f i = record i { close_func = some f }

unfoldable pub bind_send_data : ℕ → SessionInterface → SessionInterface
bind_send_data f i = record i { send_data = some f }

unfoldable pub bind_send_finish : ℕ → SessionInterface → SessionInterface
bind_send_finish f i = record i { send_finish = some f }

unfoldable pub bind_send_sync : ℕ → SessionInterface → SessionInterface
bind_send_sync f i = record i { send_synack = some f }

unfoldable pub bind_send_data_ctrl : ℕ → SessionInterface → SessionInterface
bind_send_data_ctrl f i = record i { send_data_ctrl = some f }

-- SessionInterface::stop.
unfoldable pub stop : SessionInterface → SessionInterface × List Call
stop i = (record i { is_p2p_closed = true }, virtual_close ∷ [])

-- SessionInterface::send_data_ctrl.
unfoldable pub ctrl_of : WriteQueueStatus → CtrlType
ctrl_of danger = pause
ctrl_of _ = receive

unfoldable pub write_queue : WriteQueueStatus → SessionInterface → Option (List Call)
unfolding ctrl_of
write_queue status i = do f ← i.send_data_ctrl; some (call_data_ctrl f (ctrl_of status) ∷ [])

-- The data and the connect callback of a socket.
unfoldable pub received : List ℕ → SessionInterface → Option (List Call)
received bytes i = do f ← i.send_data; some (call_data f bytes ∷ [])

unfoldable pub connected : Bool → SessionInterface → Option (List Call)
connected ok i = do f ← i.send_synack; some (call_synack f ok ∷ [])

-- The call of send_finish_ in closeSession.
abbrev pub finish : SessionInterface → Option (List Call)
finish i = if i.is_p2p_closed then some [] else do f ← i.send_finish; some (call_finish f ∷ [])

-- The call of close_func_ in closeSession, which is left out if it is empty.
abbrev pub tell : SessionInterface → List Call
tell i = elim i.close_func [ none ↦ [] | some f ↦ call_close f ∷ [] ]

-- SessionInterface::closeSession.
unfoldable pub close_session : SessionInterface → Option (SessionInterface × List Call)
close_session i =
    if i.is_closed
    then some (i, [])
    else do cs ← finish i; some (record i { is_closed = true }, cs ++ tell i)

-- The functions of TunnelSession::init.
abbrev pub tunnel_close : ℕ
tunnel_close = 0

abbrev pub tunnel_send_data : ℕ
tunnel_send_data = 1

abbrev pub tunnel_send_fin : ℕ
tunnel_send_fin = 2

abbrev pub tunnel_send_synack : ℕ
tunnel_send_synack = 3

-- What TunnelSession::init binds.
unfoldable pub init : SessionInterface → SessionInterface
unfolding bind_close_func bind_send_data bind_send_finish bind_send_sync
init i = bind_send_sync tunnel_send_synack (
    bind_send_finish tunnel_send_fin
      (bind_send_data tunnel_send_data (bind_close_func tunnel_close i)))
