-- ===== src/Mux/Tests.antt =====
-- Frames between two multiplexers that each have a session 7.
use mathlib.Core.Quot
use rtcvpn.Common.{ℕ, List, ◌≡◌, refl, [], ◌∷◌, none, some, arith}
use rtcvpn.Protocol.Types.{data_frame, socks5_connect}
use rtcvpn.Protocol.Frame.{decode, make_frame}
use rtcvpn.Protocol.Frame.RoundTrip.{decode-make_frame}
use rtcvpn.Mux.Manager.{Session, session_of, empty_manager}
use rtcvpn.Mux.Manager.Sessions.{empty-IsWellFormed}
use rtcvpn.Mux.{SessionMux, data_call, send_call, on_p2p_data, send_data}
use rtcvpn.Mux.Interleaving.{
  Event, creates, removes, installs, receives, data_setter, calls_of, only, run, about, step,
  answer,
}
use rtcvpn.Mux.Interleaving.Apart.{streams_apart}
use rtcvpn.Mux.Abstract.{Sessions, create, remove, calls}
use rtcvpn.Mux.Abstract.Laws.{sessions_laws}

abbrev seven : Session
seven = record {
  stream_id = 7;
  on_data = some 100;
  on_synack = some 101;
  on_close = some 102;
  on_data_ctrl = some 103;
}

abbrev mux : SessionMux
mux = record {
  session_manager = record { sessions = (7, 0) ∷ []; objects = seven ∷ [] };
  send_func = some 1;
  peer_conn_id = 2;
  on_syn = some 5;
}

seven_found : session_of mux.session_manager 7 ≡ some seven
unfolding session_of
seven_found = refl

data_sent :
    send_data mux 7 (1 ∷ []) socks5_connect
    ≡ some (send_call 1 2 (make_frame 7 data_frame socks5_connect (1 ∷ [])))
unfolding send_data
data_sent = refl

abbrev seven_bytes : List ℕ
seven_bytes = make_frame 7 data_frame socks5_connect (1 ∷ [])

seven_frame :
    decode (make_frame 7 data_frame socks5_connect (1 ∷ []))
    ≡ some (record { stream_id = 7; type = data_frame; protocol = socks5_connect })
seven_frame =
    (decode-make_frame (record { stream_id = 7; type = data_frame; protocol = socks5_connect })
      (1 ∷ []) (record { sid = omega arith; named_type = tt; named_protocol = tt })).0

abbrev fresh_mux : SessionMux
fresh_mux = record mux { session_manager = empty_manager }

abbrev two_and_nine : Sessions
two_and_nine = create 9 (create 2 (Quot.mk (empty_manager, empty-IsWellFormed)))

sessions_laws_example :
    (create 9 (create 7 two_and_nine) ≡ create 7 (create 9 two_and_nine))
    × (remove 9 (remove 7 two_and_nine) ≡ remove 7 (remove 9 two_and_nine))
    × (remove 9 (create 7 two_and_nine) ≡ create 7 (remove 9 two_and_nine))
    × (create 7 (create 7 two_and_nine) ≡ create 7 two_and_nine)
    × (create 7 (remove 7 two_and_nine) ≡ create 7 two_and_nine)
    × (calls mux seven_bytes (create 7 two_and_nine) ≡ none)
    × (calls mux seven_bytes (remove 7 two_and_nine) ≡ none)
sessions_laws_example =
    sessions_laws mux seven_bytes
      (record { stream_id = 7; type = data_frame; protocol = socks5_connect }) 9 7 two_and_nine
      seven_frame

-- Streams 7 and 9 get sessions, 9 is removed again, and frames of both arrive.
abbrev nine_bytes : List ℕ
nine_bytes = make_frame 9 data_frame socks5_connect (2 ∷ [])

abbrev both_streams : List Event
both_streams =
    creates 7
    ∷ creates 9
    ∷ installs 7 (data_setter 100)
    ∷ receives nine_bytes
    ∷ removes 9
    ∷ receives seven_bytes
    ∷ receives nine_bytes
    ∷ []

seven_called : calls_of 7 both_streams fresh_mux ≡ some (data_call 100 (1 ∷ []) socks5_connect) ∷ []
unfolding calls_of about step answer on_p2p_data decode make_frame rtcvpn.Protocol.Word.hton32
    rtcvpn.Protocol.Types.frame_type_of rtcvpn.Protocol.Types.frame_type_byte session_of
    rtcvpn.Mux.Manager.remove_session rtcvpn.Mux.Manager.create_session
    rtcvpn.Mux.Manager.update_session rtcvpn.Protocol.Types.protocol_of
    rtcvpn.Protocol.Types.protocol_byte
seven_called = refl

streams_apart_example :
    (calls_of 7 both_streams fresh_mux ≡ calls_of 7 (only 7 both_streams) fresh_mux)
    × (session_of (run both_streams fresh_mux).session_manager 7
        ≡ session_of (run (only 7 both_streams) fresh_mux).session_manager 7)
streams_apart_example = streams_apart 7 both_streams fresh_mux empty-IsWellFormed
