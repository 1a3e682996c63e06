-- ===== src/Startup/Keyboard.antt =====
-- input_keyboard and signal_handler, which both main.cpp have.
pub mod Leaving
use rtcvpn.Common.{ℕ, Bool, true, false, ◌||◌, ◌==◌, if◌then◌else◌}

-- `running` is the global; `inside` says that input_keyboard has not returned, and `c` is its
-- variable.
pub record Keyboard : Type 0 where
  pub running : Bool
  pub inside : Bool
  pub c : ℕ

-- What a pass of the loop meets: no terminal, so that it sleeps; a character; or the end of the
-- input, where get leaves the variable as it is.
pub data Pass : Type 0 where
  sleeps : Pass
  reads : ℕ → Pass
  at_end : Pass

abbrev pub is_quit : ℕ → Bool
is_quit c = c == b'q' || c == b'Q'

-- The test of the loop.
abbrev check : Keyboard → Keyboard
check k = record k { inside = k.running }

-- input_keyboard begins; `c` is not initialised.
unfoldable pub enter : ℕ → Keyboard → Keyboard
enter c k = check (record k { c = c })

-- The comparison behind get.
abbrev compare_key : Keyboard → Keyboard
compare_key k = if is_quit k.c then record k { running = false; inside = false } else check k

abbrev pass_inside : Pass → Keyboard → Keyboard
pass_inside sleeps k = check k
pass_inside (reads c) k = compare_key (record k { c = c })
pass_inside at_end k = compare_key k

unfoldable pub pass : Pass → Keyboard → Keyboard
pass p k = if k.inside then pass_inside p k else k

unfoldable pub signal_handler : Keyboard → Keyboard
signal_handler k = record k { running = false }
