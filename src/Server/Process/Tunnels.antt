-- ===== src/Server/Process/Tunnels.antt =====
-- The tunnels in a client's table.
use rtcvpn.Common.{
  ℕ, ◌≡◌, refl, List, [], ◌∷◌, true, false, some, ◌==◌, lookup, put, remove, is_some, arith, All,
  Bool-cases, inl, inr,
}
use rtcvpn.Protocol.Types.{Protocol}
use rtcvpn.Server
use rtcvpn.Server.{TunnelSession, target_close}
use rtcvpn.Server.Process.{Effect, of_tunnel, close_tunnels, erase_closed}

-- A tunnel of the table under its own stream id that has not been closed from the target's side.
pub record IsOpen (e : ℕ × TunnelSession) : Type 0 where
  pub own : e.1.stream_id ≡ e.0
  pub has_interface : is_some e.1.kind ≡ true
  pub has_socket : e.1.socket ≡ true
  pub live : e.1.interface_closed ≡ false
  pub not_closed : e.1.is_closed ≡ false
  pub bound : e.1.close_func ≡ true

pub put-IsOpen :
    (k : ℕ) (t : TunnelSession) (table : List (ℕ × TunnelSession))
    → IsOpen (k, t)
    → All IsOpen table
    → All IsOpen (put k t table)
put-IsOpen k t [] o h = (o, tt)
put-IsOpen k t ((j, u) ∷ table) o h = elim (Bool-cases (j == k)) [
  | inl y ↦ rw y (o, h.1)
  | inr n ↦ rw n (h.0, put-IsOpen k t table o h.1)
]

pub remove-IsOpen :
    (k : ℕ) (table : List (ℕ × TunnelSession)) → All IsOpen table → All IsOpen (remove k table)
remove-IsOpen k [] h = h
remove-IsOpen k ((j, u) ∷ table) h = elim (Bool-cases (j == k)) [
  | inl y ↦ rw y (remove-IsOpen k table h.1)
  | inr n ↦ rw n (h.0, remove-IsOpen k table h.1)
]

pub lookup-IsOpen :
    (k : ℕ) (table : List (ℕ × TunnelSession)) (t : TunnelSession)
    → All IsOpen table
    → lookup k table ≡ some t
    → IsOpen (k, t)
lookup-IsOpen k [] t h e = cc
lookup-IsOpen k ((j, u) ∷ table) t h e = ground (arith, lookup-IsOpen k table t h.1, h.0)

-- The tunnel behind a call of close.
abbrev pub stopped : TunnelSession → TunnelSession
stopped t = record t { is_p2p_closed = true }

pub stopped-IsOpen : (k : ℕ) (t : TunnelSession) → IsOpen (k, t) → IsOpen (k, stopped t)
stopped-IsOpen k t o = ground arith

pub close-IsOpen :
    (k : ℕ) (t : TunnelSession)
    → IsOpen (k, t)
    → Server.close t ≡ some (stopped t, target_close ∷ [])
unfolding Server.close
close-IsOpen k t o = ground arith

pub on_syn-IsOpen :
    (sid : ℕ) (host : List ℕ) (port : ℕ) (p : Protocol) (t : TunnelSession)
    (es : List Server.Effect)
    → Server.on_syn sid host port p ≡ some (t, es)
    → IsOpen (sid, t)
unfolding Server.on_syn Server.start Server.new_tunnel
on_syn-IsOpen sid host port p t es e = ground arith

-- The owner's close function is called, for its own stream id, and nothing else erases.
pub erase_closed-on_target_closed :
    (k : ℕ) (t : TunnelSession) (table : List (ℕ × TunnelSession))
    → IsOpen (k, t)
    → erase_closed (Server.on_target_closed t).1 table ≡ remove k table
unfolding Server.on_target_closed Server.close_session Server.close_tunnel
erase_closed-on_target_closed k t table o = ground (arith, o)

pub remove-put :
    (k : ℕ) (t : TunnelSession) (table : List (ℕ × TunnelSession))
    → remove k (put k t table) ≡ remove k table
remove-put k t [] = ground arith
remove-put k t ((j, u) ∷ table) = ground (arith, remove-put k t table)

abbrev pub stop_all : List (ℕ × TunnelSession) → List (ℕ × TunnelSession)
stop_all [] = []
stop_all ((sid, t) ∷ rest) = (sid, stopped t) ∷ stop_all rest

abbrev pub stop_effects : List (ℕ × TunnelSession) → List Effect
stop_effects [] = []
stop_effects (_ ∷ rest) = of_tunnel target_close ∷ stop_effects rest

-- Open tunnels are all closed, and none faults.
pub close_tunnels-stop_all :
    (table : List (ℕ × TunnelSession))
    → All IsOpen table
    → close_tunnels table ≡ some (stop_all table, stop_effects table)
unfolding close_tunnels
close_tunnels-stop_all [] h = refl
close_tunnels-stop_all ((sid, t) ∷ rest) h =
    rw (close-IsOpen sid t h.0, close_tunnels-stop_all rest h.1)

pub stop_all-IsOpen :
    (table : List (ℕ × TunnelSession)) → All IsOpen table → All IsOpen (stop_all table)
stop_all-IsOpen [] h = h
stop_all-IsOpen ((sid, t) ∷ rest) h = (stopped-IsOpen sid t h.0, stop_all-IsOpen rest h.1)
