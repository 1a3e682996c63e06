-- ===== src/Client/Wiring.antt =====
-- What a Socks5Session asks of the multiplexer, carried out by the model of SessionMux. The
-- callbacks that the session installs are the numbers `on_data`, `on_synack` and `on_close`.
use mathlib.Core.Option
use rtcvpn.Common.{
  ℕ, ◌+◌, ◌*◌, ◌^◌, ◌<◌, ◌≡◌, ◌%◌, refl, ap, ◌∙◌, arith, List, [], ◌∷◌, ◌++◌, Option, none, some,
  eq→==, Option-cases, inl, inr, append-nil,
}
use rtcvpn.Protocol.Types.{
  Protocol, syn, data_frame, data_ctrl, IsNamedProtocol, socks5_connect, wait_socks_methods,
  connecting,
}
use rtcvpn.Protocol.Frame.{make_frame}
use rtcvpn.Protocol.Syn.{encode_syn_payload}
use rtcvpn.Mux.Manager.{Session, session_of, find_session, update_session, new_session}
use rtcvpn.Mux.Manager
use rtcvpn.Mux.Manager.Sessions.{
  IsWellFormed, session_of-create_session, session_of-update_here, session_of-absent,
}
use rtcvpn.Mux.{SessionMux, Call, data_call, send_call, syn_call, dispatch, on_p2p_data}
use rtcvpn.Mux
use rtcvpn.Mux.Delivery.{on_p2p_data-make_frame, send_syn-on_p2p_data}
use rtcvpn.Http.Parser.{Notice}
use rtcvpn.Client.{
  Socks5Session, Effect, create_session, set_on_data, set_on_synack, set_on_close, send_syn,
  send_data, send_fin, send_data_ctrl, remove_session,
}
use rtcvpn.Client.Text.Bounds.{length-dotted}
use rtcvpn.Client.Text.{dotted}
use rtcvpn.Client.Handlers.{process_data}
use rtcvpn.Client.Request.{process_data-connect_ipv4, connecting_to, connect_effects}

-- The numbers of the callbacks that a session installs.
pub record Installed : Type 0 where
  pub on_data : ℕ
  pub on_synack : ℕ
  pub on_close : ℕ

-- `p->set_on_…`, where p is find_session(sid).
abbrev pub install : ℕ → (Session → Session) → SessionMux → SessionMux
install sid f m = elim (find_session m.session_manager sid) [
  | none ↦ m
  | some p ↦ record m { session_manager = update_session m.session_manager p f }
]

abbrev pub calls : Option Call → List Call
calls none = []
calls (some c) = c ∷ []

abbrev pub carry_out : Installed → Effect → SessionMux → SessionMux × List Call
carry_out cbs (create_session sid) m = ((Mux.create_session m sid).0, [])
carry_out cbs (set_on_data sid) m = (install sid (Manager.set_on_data cbs.on_data) m, [])
carry_out cbs (set_on_synack sid) m = (install sid (Manager.set_on_synack cbs.on_synack) m, [])
carry_out cbs (set_on_close sid) m = (install sid (Manager.set_on_close cbs.on_close) m, [])
carry_out cbs (send_syn sid host port p) m = (m, calls (Mux.send_syn m sid host port p))
carry_out cbs (send_data sid bytes p) m = (m, calls (Mux.send_data m sid bytes p))
carry_out cbs (send_fin sid p) m = (m, calls (Mux.send_fin m sid p))
carry_out cbs (send_data_ctrl sid c p) m = (m, calls (Mux.send_data_ctrl m sid c p))
carry_out cbs (remove_session sid) m = (Mux.remove_session m sid, [])
carry_out cbs _ m = (m, [])

abbrev pub carry_out_all : Installed → List Effect → SessionMux → SessionMux × List Call
carry_out_all cbs [] m = (m, [])
carry_out_all cbs (e ∷ es) m =
    let (n, made) = carry_out cbs e m in
    let (last, more) = carry_out_all cbs es n in (last, made ++ more)

-- The session that request_remote_connect leaves behind.
abbrev pub wired : ℕ → Installed → Session
wired sid cbs = record {
  stream_id = sid;
  on_data = some cbs.on_data;
  on_synack = some cbs.on_synack;
  on_close = some cbs.on_close;
  on_data_ctrl = none;
}

session_of-install :
    (sid : ℕ) (f : Session → Session) (m : SessionMux)
    → session_of (install sid f m).session_manager sid
      ≡ Option.map f (session_of m.session_manager sid)
session_of-install sid f m = elim (Option-cases (find_session m.session_manager sid)) [
  | inl absent ↦ rw (install, absent, session_of-absent m.session_manager sid absent) refl
  | inr (p, here) ↦ rw (install, here) (session_of-update_here m.session_manager f sid p here)
]

send_syn-install :
    (sid : ℕ) (f : Session → Session) (m : SessionMux) (j : ℕ) (host : List ℕ) (port : ℕ)
    (p : Protocol)
    → Mux.send_syn (install sid f m) j host port p ≡ Mux.send_syn m j host port p
unfolding Mux.send_syn
send_syn-install sid f m j host port p = elim (Option-cases (find_session m.session_manager sid)) [
  | inl absent ↦ rw (install, absent) refl
  | inr (q, here) ↦ rw (install, here) refl
]

module _ (m : SessionMux) (cbs : Installed) (sid : ℕ) (host : List ℕ) (port : ℕ)
    (p : Protocol) where
  pub session_of-connect :
      IsWellFormed m.session_manager
      → session_of (carry_out_all cbs (connect_effects sid host port p) m).0.session_manager sid
        ≡ some (wired sid cbs)
  session_of-connect w =
      session_of-install sid (Manager.set_on_close cbs.on_close) _
      ∙ ap (Option.map (Manager.set_on_close cbs.on_close)) (
          session_of-install sid (Manager.set_on_synack cbs.on_synack) _
          ∙ ap (Option.map (Manager.set_on_synack cbs.on_synack)) (
              session_of-install sid (Manager.set_on_data cbs.on_data) (Mux.create_session m sid).0
              ∙ ap (Option.map (Manager.set_on_data cbs.on_data))
                  (session_of-create_session m.session_manager sid sid w)))
      ∙ rw (eq→== sid sid refl) refl

  pub calls-connect :
      (carry_out_all cbs (connect_effects sid host port p) m).1
      ≡ calls (Mux.send_syn m sid host port p)
  unfolding Mux.send_syn
  calls-connect =
      ap (λ o. calls o ++ [])
        (send_syn-install sid (Manager.set_on_close cbs.on_close) _ sid host port p
          ∙ send_syn-install sid (Manager.set_on_synack cbs.on_synack) _ sid host port p
          ∙ send_syn-install sid (Manager.set_on_data cbs.on_data) (Mux.create_session m sid).0 sid
              host port p)
      ∙ append-nil _

-- In a well-formed multiplexer that carried out the effects of a request for a remote connection, a
-- DATA_CTRL frame of that stream id, a 32-bit word, with a named protocol calls nothing.
pub no_flow_control :
    (m : SessionMux) (cbs : Installed) (sid : ℕ) (host : List ℕ) (port : ℕ) (p q : Protocol)
    (payload : List ℕ)
    → IsWellFormed m.session_manager
    → sid < 2 ^ 32
    → IsNamedProtocol q
    → on_p2p_data
        (carry_out_all cbs (connect_effects sid host port p) m).0
        (make_frame sid data_ctrl q payload)
      ≡ none
unfolding dispatch
no_flow_control m cbs sid host port p q payload w small named =
    on_p2p_data-make_frame (carry_out_all cbs (connect_effects sid host port p) m).0 sid data_ctrl q
      payload small tt named
    ∙ rw (session_of-connect m cbs sid host port p w) refl

-- In a well-formed multiplexer that carried out the effects of a request for a remote connection, a
-- DATA frame of that stream id, a 32-bit word, with a named protocol calls the data callback that
-- the session installed, with the frame's payload.
pub data_reaches_session :
    (m : SessionMux) (cbs : Installed) (sid : ℕ) (host : List ℕ) (port : ℕ) (p q : Protocol)
    (payload : List ℕ)
    → IsWellFormed m.session_manager
    → sid < 2 ^ 32
    → IsNamedProtocol q
    → on_p2p_data
        (carry_out_all cbs (connect_effects sid host port p) m).0
        (make_frame sid data_frame q payload)
      ≡ some (data_call cbs.on_data payload q)
unfolding dispatch
data_reaches_session m cbs sid host port p q payload w small named =
    on_p2p_data-make_frame (carry_out_all cbs (connect_effects sid host port p) m).0 sid data_frame
      q payload small tt named
    ∙ rw (session_of-connect m cbs sid host port p w) refl

pub send_syn_up :
    (a : SessionMux) (sid : ℕ) (host : List ℕ) (port : ℕ) (p : Protocol) (f : ℕ)
    → a.send_func ≡ some f
    → Mux.send_syn a sid host port p
      ≡ some (send_call f a.peer_conn_id (make_frame sid syn p (encode_syn_payload host port)))
unfolding Mux.send_syn
send_syn_up a sid host port p f up = rw up refl

-- A SOCKS5 request for an IPv4 address with the connect command, read in phase WaitSocksMethods
-- with more than four bytes received, leaves the session connecting, and its effects, carried out
-- by a multiplexer with a send function, send one frame; handed that frame, the peer's multiplexer
-- calls its SYN handler with the address in dotted form and the port, or nothing if no handler is
-- installed. The stream id is below 2^32.
pub request_reaches_server :
    (a b : SessionMux) (cbs : Installed) (f : ℕ) (s : Socks5Session) (fresh len : ℕ)
    (notices : List (Notice × ℕ)) (ver rsv b0 b1 b2 b3 hi lo : ℕ) (rest : List ℕ)
    → a.send_func ≡ some f
    → s.phase ≡ wait_socks_methods
    → 4 < len
    → fresh < 2 ^ 32
    → (es : List Effect) × (t : Socks5Session) × (frame : List ℕ) × (process_data fresh notices
          (ver ∷ 1 ∷ rsv ∷ 1 ∷ b0 ∷ b1 ∷ b2 ∷ b3 ∷ hi ∷ lo ∷ rest)
          len
          s
        ≡ some (tt, t, es))
      × (t.phase ≡ connecting)
      × ((carry_out_all cbs es a).1 ≡ send_call f a.peer_conn_id frame ∷ [])
      × (on_p2p_data b frame
          ≡ Option.map
              (λ h.
                syn_call h fresh (dotted b0 b1 b2 b3) ((hi * 2 ^ 8 + lo) % 2 ^ 16) socks5_connect)
              b.on_syn)
request_reaches_server a b cbs f s fresh len notices ver rsv b0 b1 b2 b3 hi lo rest up ph h small =
    let host = dotted b0 b1 b2 b3 in
    let port = (hi * 2 ^ 8 + lo) % 2 ^ 16 in
    (
      connect_effects fresh host port socks5_connect,
      connecting_to s fresh host port socks5_connect,
      make_frame fresh syn socks5_connect (encode_syn_payload host port),
      process_data-connect_ipv4 s fresh len notices ver rsv b0 b1 b2 b3 hi lo rest ph h,
      refl,
      calls-connect a cbs fresh host port socks5_connect
          ∙ ap calls (send_syn_up a fresh host port socks5_connect f up),
      send_syn-on_p2p_data a b fresh host port socks5_connect small tt (length-dotted b0 b1 b2 b3)
          (omega arith) (send_syn_up a fresh host port socks5_connect f up),
    )
