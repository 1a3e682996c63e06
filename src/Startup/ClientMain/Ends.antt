-- ===== src/Startup/ClientMain/Ends.antt =====
-- How the client's program ends.
use rtcvpn.Common.{List, [], ◌∷◌, false}
use rtcvpn.App
use rtcvpn.App.SocksServer
use rtcvpn.P2p
use rtcvpn.Startup.Keyboard.{Keyboard}
use rtcvpn.Startup.Keyboard.Leaving.{Move, passes, clears}
use rtcvpn.Startup.ClientMain.{ClientMain, Event, at_keyboard, signal, reports}

-- What the events do to the keyboard's state: a signal and a reported close clear running.
abbrev pub moves_of : List Event → List Move
moves_of [] = []
moves_of (at_keyboard p ∷ es) = passes p ∷ moves_of es
moves_of (signal ∷ es) = clears ∷ moves_of es
moves_of (reports _ P2p.closed ∷ es) = clears ∷ moves_of es
moves_of (_ ∷ es) = moves_of es

-- What a close of the connection leads to.
after_closed : ClientMain → ClientMain
unfolding SocksServer.stop
after_closed m = record {
  app = record m.app { server = (SocksServer.stop m.app.server).0 };
  keyboard = record m.keyboard { running = false };
}
