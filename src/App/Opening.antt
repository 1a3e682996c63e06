-- ===== src/App/Opening.antt =====
-- The way of a browser's request to the target, over the data channel.
use rtcvpn.Common.{ℕ, true}
use rtcvpn.Protocol.Types.{Protocol, socks5_connect}
use rtcvpn.Server
use rtcvpn.Server.{new_tunnel}
use rtcvpn.Server.Process

-- The server's entry for a stream that was opened.
abbrev pub opened : ℕ → Server.TunnelSession
opened sid = record (new_tunnel sid socks5_connect) { session = true }
