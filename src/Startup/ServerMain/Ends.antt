-- ===== src/Startup/ServerMain/Ends.antt =====
-- How the server's program ends.
use rtcvpn.Common.{
  ℕ, ◌≡◌, ◌∙◌, refl, ap, arith, List, [], ◌∷◌, ◌++◌, Bool, false, not, none, some, if◌then◌else◌,
}
use rtcvpn.Config.Server.{ServerConfig}
use rtcvpn.Startup.Keyboard.{Keyboard, is_quit}
use rtcvpn.Startup.Keyboard.Leaving.{Move, passes, clears, move, moves, leaves, inside-moves}
use rtcvpn.Startup.ServerMain.{
  ServerMain, Event, at_keyboard, signal, connects, client_changes, client_removed, step, run,
  begin, finish, main, prepare, log_exception, shutdown_logger,
}

-- What the events do to the keyboard's state: only a signal clears running.
abbrev pub moves_of : List Event → List Move
moves_of [] = []
moves_of (at_keyboard p ∷ es) = passes p ∷ moves_of es
moves_of (signal ∷ es) = clears ∷ moves_of es
moves_of (_ ∷ es) = moves_of es

run-moves :
    (es : List Event) (m : ServerMain) → (run es m).keyboard ≡ moves (moves_of es) m.keyboard
unfolding run step moves move
run-moves [] m = refl
run-moves (at_keyboard p ∷ es) m = run-moves es (step (at_keyboard p) m)
run-moves (signal ∷ es) m = run-moves es (step signal m)
run-moves (connects ∷ es) m = run-moves es (step connects m)
run-moves (client_changes id s ∷ es) m = run-moves es (step (client_changes id s) m)
run-moves (client_removed id ∷ es) m = run-moves es (step (client_removed id) m)

-- On the server, where its variable does not hold a q by chance: if the WebSocket server can be
-- made, main ends exactly if a pass of input_keyboard reads q or Q, or one ends after a signal; it
-- then stops listening, disconnects every client that is in the table, joins as many threads as it
-- started and shuts the logger down. If not, it only logs that and shuts the logger down.
pub server_ends :
    (fails : Bool) (garbage : ℕ) (config : ServerConfig) (es : List Event)
    → is_quit garbage ≡ false
    → main fails garbage config es ≡ (
        if fails
        then some (prepare ++ log_exception ∷ shutdown_logger ∷ [])
        else if leaves false (moves_of es)
        then some (
            prepare
            ++ ((begin garbage config).1
                ++ (finish config (run es (begin garbage config).0) ++ shutdown_logger ∷ [])))
        else none)
unfolding main begin
server_ends fails garbage config es other =
    let m = run es (begin garbage config).0 in
    let stay : m.keyboard.inside ≡ not (leaves false (moves_of es)) =
      ap (λ (k : Keyboard). k.inside) (run-moves es (begin garbage config).0)
      ∙ inside-moves (moves_of es) (begin garbage config).0.keyboard refl refl other in
    rw stay (ground arith)
