-- ===== src/Server/Process/Tracking.antt =====
-- The table of tunnels against the streams that were opened and not closed.
use rtcvpn.Common.{ℕ, List, [], ◌∷◌, Bool, true, false, if◌then◌else◌, ◌==◌, lookup, is_some}
use rtcvpn.Protocol.Types.{Protocol}
use rtcvpn.P2p
use rtcvpn.P2p.{State}
use rtcvpn.Server
use rtcvpn.Server.Process.{Socks5Session}
use rtcvpn.Server.Process.Life.{Event, syn, target_closed}

-- Whether a stream is open after an event, if `before` says whether it was.
abbrev pub open_after : ℕ → Event → Bool → Bool
open_after sid (syn j _ _ _) before = if j == sid then true else before
open_after sid (target_closed j) before = if j == sid then false else before
open_after sid _ before = before

-- A SYN opens a stream, and the close of its target closes it; nothing else does.
abbrev pub is_open : ℕ → List Event → Bool → Bool
is_open sid [] before = before
is_open sid (e ∷ es) before = is_open sid es (open_after sid e before)

abbrev known : ℕ → Socks5Session → Bool
known sid s = is_some (lookup sid s.tunnel_sessions)
