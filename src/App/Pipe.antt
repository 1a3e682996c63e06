-- ===== src/App/Pipe.antt =====
-- The pipe from one multiplexer to the other.
use rtcvpn.Common.{
  ℕ, ◌^◌, ◌<◌, ◌≤◌, ◌≡◌, ◌∙◌, refl, List, [], ◌∷◌, ◌++◌, true, false, ◌&&◌, none, some, length,
  append-nil, arith, ap, sym,
}
use rtcvpn.Protocol.Word.{big_endian32}
use rtcvpn.Protocol.Message.RoundTrip.{
  pack_message_fits, pack_message_too_long, unpack-pack_message,
}
use rtcvpn.Mux.{SessionMux, on_p2p_data}
use rtcvpn.P2p.{Controller, dc_send, send}
use rtcvpn.Protocol.Message.{UnpackedMessage, pack_message, unpack_message}
use rtcvpn.P2p.Library.{Answers}
use rtcvpn.App.{send_out, receive}

send_out-packed :
    (a : Answers) (c : Controller) (frame buf : List ℕ)
    → pack_message frame ≡ some buf
    → send_out a frame c ≡ send a buf c
unfolding send_out
send_out-packed a c frame buf e = ground (arith, e)

receive-unpacked :
    (mux : SessionMux) (message : List ℕ) (m : UnpackedMessage)
    → unpack_message message ≡ some m
    → receive mux message ≡ on_p2p_data mux m.payload
unfolding receive
receive-unpacked mux message m e = ground (arith, e)

send_out_closed :
    (a : Answers) (c : Controller) (frame : List ℕ)
    → c.dc && a.dc_is_open ≡ false
    → send_out a frame c ≡ []
unfolding send_out
send_out_closed a c frame off = ground (arith, off)

send_out_long :
    (a : Answers) (c : Controller) (frame : List ℕ)
    → pack_message frame ≡ none
    → send_out a frame c ≡ []
unfolding send_out
send_out_long a c frame e = ground (arith, e)

-- A frame of less than 2^32 bytes that the multiplexer sends while the data channel is there and
-- open is one message on it, and a multiplexer whose pipe receives that message calls what it
-- calls when it is handed the frame itself. A longer frame is not sent, nor is any while the
-- channel is missing or not open.
pub pipe_transparent :
    (a : Answers) (c : Controller) (frame : List ℕ)
    → (length frame < 2 ^ 32
        → c.dc && a.dc_is_open ≡ true
        → (message : List ℕ) × (send_out a frame c ≡ dc_send message ∷ [])
          × ((mux : SessionMux) → receive mux message ≡ on_p2p_data mux frame))
      × (2 ^ 32 ≤ length frame → send_out a frame c ≡ [])
      × (c.dc && a.dc_is_open ≡ false → send_out a frame c ≡ [])
pipe_transparent a c frame = (
  λ small on.
      let fits = pack_message_fits frame small in
      let message = big_endian32 (length frame) ++ frame in
      let read =
        ap unpack_message (sym (append-nil message)) ∙ unpack-pack_message frame message [] fits in
      (
        message,
        send_out-packed a c frame message fits ∙ rw on refl,
        λ mux. receive-unpacked mux message _ read,
      ),
  λ long. send_out_long a c frame (pack_message_too_long frame long),
  send_out_closed a c frame,
)
