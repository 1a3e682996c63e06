-- ===== src/Startup/Tests.antt =====
-- Runs of both programs.
use rtcvpn.Common.{codes, ◌≡◌, refl, List, [], ◌∷◌, false, Option, none, some}
use rtcvpn.P2p
use rtcvpn.App
use rtcvpn.App.{new_app, on_close}
use rtcvpn.App.SocksServer
use rtcvpn.Config.Client.{default_client_config}
use rtcvpn.Startup.Keyboard.{sleeps}
use rtcvpn.Startup.CrashDump.{dump_dir_of}
use rtcvpn.Startup.ClientMain
use rtcvpn.Startup.ClientMain.{ClientMain, reports, accepts}
use rtcvpn.Startup.ClientMain.Ends as Client

-- The connection is made, a browser comes, and the connection is lost.
abbrev connection : List ClientMain.Event
connection =
    reports false P2p.connected
    ∷ ClientMain.at_keyboard sleeps
    ∷ accepts SocksServer.accepted
    ∷ reports false P2p.closed
    ∷ ClientMain.at_keyboard sleeps
    ∷ []

abbrev client_start : ClientMain
client_start = (ClientMain.begin 0 default_client_config).0

abbrev or_start : Option ClientMain → ClientMain
or_start none = client_start
or_start (some m) = m

abbrev client_last : ClientMain
client_last = or_start (ClientMain.run connection client_start)

slashes_cut : dump_dir_of (codes "dumps//") ≡ codes "dumps"
unfolding dump_dir_of
slashes_cut = refl

slash_alone : dump_dir_of (codes "/") ≡ []
unfolding dump_dir_of
slash_alone = refl
