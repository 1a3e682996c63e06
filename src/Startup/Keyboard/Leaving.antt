-- ===== src/Startup/Keyboard/Leaving.antt =====
-- When input_keyboard returns.
use rtcvpn.Common.{◌≡◌, ◌∙◌, refl, arith, List, [], ◌∷◌, Bool, true, false, not, ◌&&◌, ◌||◌}
use rtcvpn.Startup.Keyboard.{Keyboard, Pass, sleeps, reads, at_end, is_quit, pass, signal_handler}

-- A pass of the loop, or an assignment that clears running.
pub data Move : Type 0 where
  passes : Pass → Move
  clears : Move

unfoldable pub move : Move → Keyboard → Keyboard
unfolding pass signal_handler
move (passes p) k = pass p k
move clears k = signal_handler k

unfoldable pub moves : List Move → Keyboard → Keyboard
moves [] k = k
moves (m ∷ ms) k = moves ms (move m k)

-- Whether input_keyboard returns: with the first pass that reads q or Q, or that ends after running
-- was cleared; `cleared` says that it was before.
abbrev pub leaves : Bool → List Move → Bool
leaves cleared [] = false
leaves cleared (passes sleeps ∷ ms) = cleared || leaves cleared ms
leaves cleared (passes (reads c) ∷ ms) = is_quit c || (cleared || leaves cleared ms)
leaves cleared (passes at_end ∷ ms) = cleared || leaves cleared ms
leaves cleared (clears ∷ ms) = leaves true ms

-- The variable holds no q while the loop runs.
abbrev IsQuiet : Keyboard → Type 0
IsQuiet k = (k.inside && is_quit k.c) ≡ false

move-IsQuiet : (m : Move) (k : Keyboard) → IsQuiet k → IsQuiet (move m k)
unfolding move
move-IsQuiet (passes sleeps) k q = ground arith
move-IsQuiet (passes (reads c)) k q = ground arith
move-IsQuiet (passes at_end) k q = ground arith
move-IsQuiet clears k q = q

abbrev stays : List Move → Keyboard → Bool
stays ms k = k.inside && not (leaves (not k.running) ms)

move-stays :
    (m : Move) (k : Keyboard) (ms : List Move) → IsQuiet k → stays ms (move m k) ≡ stays (m ∷ ms) k
unfolding move
move-stays (passes sleeps) k ms q = ground arith
move-stays (passes (reads c)) k ms q = ground arith
move-stays (passes at_end) k ms q = ground arith
move-stays clears k ms q = refl

moves-stays : (ms : List Move) (k : Keyboard) → IsQuiet k → (moves ms k).inside ≡ stays ms k
unfolding moves
moves-stays [] k q = ground arith
moves-stays (m ∷ ms) k q = moves-stays ms (move m k) (move-IsQuiet m k q) ∙ move-stays m k ms q

-- A loop that begins while running is set, with another character in its variable.
pub inside-moves :
    (ms : List Move) (k : Keyboard)
    → k.running ≡ true
    → k.inside ≡ true
    → is_quit k.c ≡ false
    → (moves ms k).inside ≡ not (leaves false ms)
inside-moves ms k on inside other = ground (arith, moves-stays ms k)
