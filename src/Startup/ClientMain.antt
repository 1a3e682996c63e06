-- ===== src/Startup/ClientMain.antt =====
-- main of Src/client/src/main.cpp. What the library's threads do to the application meanwhile are
-- events between the passes of input_keyboard.
pub mod Ends
use rtcvpn.Common.{
  ℕ, ◌^◌, List, [], ◌∷◌, ◌++◌, Bool, true, false, not, ◌&&◌, ◌||◌, Option, none, some,
  if◌then◌else◌, ◌>>=◌, ltb, replicate,
}
use mathlib.Core.List.{map}
use rtcvpn.App
use rtcvpn.App.{NetworkRtcApp, new_app, on_close}
use rtcvpn.App.Start
use rtcvpn.App.SocksServer.{Accepted, on_accept, on_session_close}
use rtcvpn.P2p.{State}
use rtcvpn.Config.Client.{ClientConfig}
use rtcvpn.Startup.Keyboard.{Keyboard, Pass, pass, enter, signal_handler}

pub data Effect : Type 0 where
  install_crash_handler init_logger handle_signals init_rtc_logger : Effect
  start_thread : Effect
  of_app : App.Effect → Effect
  release_work : Effect
  join_thread : Effect
  shutdown_logger : Effect

pub record ClientMain : Type 0 where
  pub app : NetworkRtcApp
  pub keyboard : Keyboard

-- A pass of input_keyboard, a signal, a state that the controller reports, where opening the
-- acceptor may throw, a completion of async_accept, or the close of a browser session by its id.
pub data Event : Type 0 where
  at_keyboard : Pass → Event
  signal : Event
  reports : Bool → State → Event
  accepts : Accepted → Event
  session_closed : ℕ → Event

abbrev pub calls_close : List App.Effect → Bool
calls_close [] = false
calls_close (App.call_close ∷ es) = true
calls_close (_ ∷ es) = calls_close es

-- The function given to onClose, which sets running to false in both branches.
abbrev pub closed_app : List App.Effect → Keyboard → Keyboard
closed_app es k = record k { running = k.running && not (calls_close es) }

unfoldable pub step : Event → ClientMain → Option ClientMain
unfolding pass signal_handler App.on_state on_accept on_session_close
step (at_keyboard p) m = some (record m { keyboard = pass p m.keyboard })
step signal m = some (record m { keyboard = signal_handler m.keyboard })
step (reports fails state) m = do
  r ← App.on_state fails state m.app
  some (record { app = r.0; keyboard = closed_app r.1 m.keyboard })
step (accepts a) m =
    some (record m { app = record m.app { server = (on_accept a m.app.server).0 } })
step (session_closed id) m =
    some (record m { app = record m.app { server = on_session_close id m.app.server } })

unfoldable pub run : List Event → ClientMain → Option ClientMain
run [] m = some m
run (e ∷ es) m = do n ← step e m; run es n

-- The loop that starts the threads: asio_thread_count is a 16-bit signed integer.
abbrev pub thread_count : ClientConfig → ℕ
thread_count c = if ltb c.asio_thread_count (2 ^ 15) then c.asio_thread_count else 0

-- The application behind start, and its effects.
abbrev pub started : ClientConfig → NetworkRtcApp × List App.Effect
started config = App.Start.start config (on_close (new_app 1))

-- main up to input_keyboard; `garbage` is what its variable holds.
unfoldable pub begin : ℕ → ClientConfig → ClientMain × List Effect
unfolding enter App.Start.start new_app on_close
begin garbage config = (
  record {
    app = (started config).0;
    keyboard = enter garbage (record { running = true; inside = false; c = 0 });
  },
  install_crash_handler
      ∷ init_logger
      ∷ handle_signals
      ∷ init_rtc_logger
      ∷ (replicate (thread_count config) start_thread ++ map of_app (started config).1),
)

-- main behind input_keyboard.
unfoldable pub finish : ClientConfig → ClientMain → List Effect
unfolding App.stop
finish config m =
    map of_app (App.stop m.app).1
    ++ release_work ∷ (replicate (thread_count config) join_thread ++ shutdown_logger ∷ [])

-- main with what happens while it waits; none where an exception is thrown, and where
-- input_keyboard has not returned.
unfoldable pub main : ℕ → ClientConfig → List Event → Option (List Effect)
unfolding begin run finish
main garbage config es = do
  m ← run es (begin garbage config).0
  if m.keyboard.inside then none else some ((begin garbage config).1 ++ finish config m)
