-- ===== src/Server/Process/Tests.antt =====
-- Runs of a client at the server.
use rtcvpn.Common.{List, [], ◌∷◌, ◌++◌, none, some, ◌≡◌, refl, true, false, codes}
use rtcvpn.Protocol.Types.{socks5_connect, https_connect}
use rtcvpn.P2p
use rtcvpn.Server
use rtcvpn.Server.{new_tunnel}
use rtcvpn.Server.Process
use rtcvpn.Server.Process.{Socks5Session, new_session}
use rtcvpn.Server.Process.Life
use rtcvpn.Server.Process.Life.{run, step}
use rtcvpn.Server.Process.Removal.{keys}
use rtcvpn.Server.Process.Reaping.{
  count_close, targets_close, closed_client_is_removed, late_report_faults,
}

-- A client with two tunnels, whose controller then reports the close.
abbrev two_tunnels : List Life.Event
two_tunnels =
    Life.syn 3 (codes "h") 80 socks5_connect ∷ Life.syn 4 (codes "g") 443 https_connect ∷ []

abbrev two_tunnels_client : Socks5Session
two_tunnels_client = record (new_session 7 (codes "pw")) {
  tunnel_sessions =
      (3, record (new_tunnel 3 socks5_connect) { session = true })
      ∷ (4, record (new_tunnel 4 https_connect) { session = true })
      ∷ [];
}

abbrev two_tunnels_effects : List Process.Effect
two_tunnels_effects = elim (run two_tunnels (new_session 7 (codes "pw"))) [
  | none ↦ []
  | some (_, es) ↦ es
]

two_tunnels_reached :
    run two_tunnels (new_session 7 (codes "pw")) ≡ some (two_tunnels_client, two_tunnels_effects)
unfolding run step Process.on_syn Server.on_syn Server.start Server.new_tunnel Server.kind_of
two_tunnels_reached = refl

closed_client_is_removed_example :
    (t : Socks5Session) × (effects : List Process.Effect) × (run
        (Life.state P2p.closed ∷ targets_close (keys two_tunnels_client.tunnel_sessions)
          ++ Life.tick ∷ [])
        two_tunnels_client
      ≡ some (t, effects))
    × (t.tunnel_sessions ≡ [])
    × (t.timer ≡ false)
    × (count_close effects ≡ 1)
closed_client_is_removed_example =
    closed_client_is_removed 7 (codes "pw") two_tunnels two_tunnels_client two_tunnels_effects
      two_tunnels_reached refl refl

late_report_faults_example :
    (run
        (Life.state P2p.closed ∷ Life.state P2p.closed ∷ Life.tick ∷ [])
        (new_session 7 (codes "pw"))
      ≡ some (
        record (new_session 7 (codes "pw")) {
          tunnel_sessions = [];
          timer = false;
          waiting = false;
        },
        Process.start_timer 1000
            ∷ Process.start_timer 1000
            ∷ Process.call_close (new_session 7 (codes "pw")).session_id
            ∷ [],
      ))
    × (run
          (Life.state P2p.closed ∷ Life.tick ∷ Life.state P2p.closed ∷ [])
          (new_session 7 (codes "pw"))
        ≡ none)
late_report_faults_example = late_report_faults (new_session 7 (codes "pw")) refl refl refl
