-- ===== src/Startup/CrashDump.antt =====
-- Src/common/src/crash_dump.cpp, in its form for Windows: the name of a dump, who writes one and
-- when. The text that strftime makes of the time, the process id, and whether a file can be made
-- and written are arguments. On other systems nothing is installed or written.
pub mod Names
use rtcvpn.Common.{
  ℕ, List, [], ◌∷◌, ◌++◌, Bool, true, false, ◌||◌, if◌then◌else◌, ◌==◌, codes, take,
}
use mathlib.Core.List.{reverse}
use rtcvpn.Http.Digits.{to_string}

-- `dump_dir` is g_dump_dir, and `installed` the state of g_install_once.
pub record CrashDump : Type 0 where
  pub dump_dir : List ℕ
  pub installed : Bool

pub data Effect : Type 0 where
  set_exception_filter : Effect
  set_signal : ℕ → Effect
  set_terminate : Effect
  create_file : List ℕ → Effect
  write_dump close_handle : Effect
  default_signal raise_signal : ℕ → Effect
  abort : Effect

-- The signals, by their numbers in the C library of Windows.
abbrev pub sig_ill : ℕ
sig_ill = 4

abbrev pub sig_fpe : ℕ
sig_fpe = 8

abbrev pub sig_abrt : ℕ
sig_abrt = 22

abbrev is_slash : ℕ → Bool
is_slash c = c == 92 || c == b'/'

-- The loop that takes slashes off the end, on the text from its end.
unfoldable pub drop_slashes : List ℕ → List ℕ
drop_slashes [] = []
drop_slashes (c ∷ cs) = let rest = drop_slashes cs in if is_slash c then rest else c ∷ cs

unfoldable pub dump_dir_of : List ℕ → List ℕ
unfolding drop_slashes
dump_dir_of [] = codes "."
dump_dir_of (c ∷ cs) = reverse (drop_slashes (reverse (c ∷ cs)))

-- InstallCrashHandler, whose result is true in all cases.
unfoldable pub install_crash_handler : List ℕ → CrashDump → CrashDump × List Effect
unfolding dump_dir_of
install_crash_handler dir s = if s.installed then (s, []) else (
  record { dump_dir = dump_dir_of dir; installed = true },
  set_exception_filter
      ∷ set_signal sig_abrt
      ∷ set_signal sig_fpe
      ∷ set_signal sig_ill
      ∷ set_terminate
      ∷ [],
)

-- What "%s" prints: the text before a character 0.
abbrev c_str : List ℕ → List ℕ
c_str [] = []
c_str (c ∷ cs) = if c == 0 then [] else c ∷ c_str cs

-- The parts of a name before and behind the time.
abbrev pub before_time : CrashDump → List ℕ
before_time s = c_str s.dump_dir ++ 92 ∷ codes "crash_"

abbrev pub after_time : ℕ → List ℕ → List ℕ
after_time pid reason =
    codes "_" ++ (c_str reason ++ (codes "_pid" ++ (to_string pid ++ codes ".dmp")))

abbrev pub full_name : ℕ → List ℕ → List ℕ → CrashDump → List ℕ
full_name pid time_part reason s = before_time s ++ (time_part ++ after_time pid reason)

-- MakeDumpFileName; snprintf cuts the name to 255 characters.
unfoldable pub make_dump_file_name : ℕ → List ℕ → List ℕ → CrashDump → List ℕ
make_dump_file_name pid time_part reason s = take 255 (full_name pid time_part reason s)

-- What the operating system answers: whether CreateFileA and MiniDumpWriteDump succeed.
pub record Answers : Type 0 where
  pub creates : Bool
  pub writes : Bool

-- WriteMiniDump, whose exception pointers change only what is in the file.
unfoldable pub write_mini_dump : Answers → ℕ → List ℕ → List ℕ → CrashDump → Bool × List Effect
unfolding make_dump_file_name
write_mini_dump a pid time_part reason s =
    let file = create_file (make_dump_file_name pid time_part reason s) in
    if a.creates then (a.writes, file ∷ write_dump ∷ close_handle ∷ []) else (false, file ∷ [])

-- SignalHandler.
unfoldable pub on_signal : Answers → ℕ → List ℕ → ℕ → CrashDump → List Effect
unfolding write_mini_dump
on_signal a pid time_part sig s =
    let reason = if sig == sig_abrt then codes "abort" else codes "signal" ++ to_string sig in
    (write_mini_dump a pid time_part reason s).1 ++ default_signal sig ∷ raise_signal sig ∷ []

-- UnhandledExceptionHandler and TerminateHandler.
unfoldable pub on_exception : Answers → ℕ → List ℕ → CrashDump → List Effect
unfolding write_mini_dump
on_exception a pid time_part s = (write_mini_dump a pid time_part (codes "unhandled") s).1

unfoldable pub on_terminate : Answers → ℕ → List ℕ → CrashDump → List Effect
unfolding write_mini_dump
on_terminate a pid time_part s =
    (write_mini_dump a pid time_part (codes "terminate") s).1 ++ abort ∷ []

-- WriteDumpNow without an installation.
abbrev pub use_dir : List ℕ → CrashDump → CrashDump
use_dir [] s = record s { dump_dir = codes "." }
use_dir (_ ∷ _) s = s

abbrev pub used_by_hand : CrashDump → CrashDump
used_by_hand s = use_dir s.dump_dir s

-- WriteDumpNow: the name is made twice, at two times.
unfoldable pub write_dump_now :
    Answers → ℕ → List ℕ → List ℕ → List ℕ → CrashDump → List ℕ × CrashDump × List Effect
unfolding write_mini_dump
write_dump_now a pid now later reason s =
    let used = used_by_hand s in
    let path = make_dump_file_name pid now reason used in
    let (done, es) = write_mini_dump a pid later reason used in
    (if done then path else [], used, es)
