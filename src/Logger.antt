-- ===== src/Logger.antt =====
-- Src/common/include/rtc_logger.h: the lines that RtcLogger writes, and its life from init to
-- shutdown. The queue of Src/common/include/concurrentqueue.h is an argument, and so is the text
-- that put_time makes of a time in seconds. Finding the folder of the program is left out.
pub mod World
pub mod Steps
pub mod Order
mod Tests
use Prim.Native.String.{String}
use rtcvpn.Common.{
  ℕ, zero, suc, ◌+◌, ◌-◌, ◌/◌, ◌%◌, List, [], ◌∷◌, ◌++◌, Bool, true, false, Option, none, some,
  if◌then◌else◌, ◌==◌, codes, length, replicate,
}
use mathlib.Core.Option
use rtcvpn.Http.Digits.{to_string}

-- rtc::LogLevel, whose None is `silent`, and any other value.
pub data LogLevel : Type 0 where
  silent fatal error warning info debug verbose : LogLevel
  raw : ℕ → LogLevel

unfoldable pub log_level_to_string : LogLevel → List ℕ
log_level_to_string silent = codes "NONE "
log_level_to_string fatal = codes "FATAL"
log_level_to_string error = codes "ERROR"
log_level_to_string warning = codes "WARN "
log_level_to_string info = codes "INFO "
log_level_to_string debug = codes "DEBUG"
log_level_to_string verbose = codes "VERB "
log_level_to_string (raw _) = codes "?????"

-- `time` is in milliseconds, and `thread` is the one that calls log.
pub record Entry : Type 0 where
  pub thread : ℕ
  pub time : ℕ
  pub level : LogLevel
  pub message : List ℕ

-- moodycamel::ConcurrentQueue<Entry>: enqueue gives none where it finds no memory, and
-- try_dequeue where it finds nothing. `size` is how many elements there are.
pub record Queue : Type 1 where
  pub Elements : Type 0
  pub empty : Elements
  pub enqueue : Entry → Elements → Option Elements
  pub try_dequeue : Elements → Option (Entry × Elements)
  pub size : Elements → ℕ

pub record RtcLogger (q : Queue) : Type 0 where
  pub queue : q.Elements
  pub file_open : Bool
  pub file : List (List ℕ)
  pub console : List (List ℕ)
  pub worker : Bool
  pub running : Bool
  pub dropped : ℕ

abbrev pub new_logger : (q : Queue) → RtcLogger q
new_logger q = record {
  queue = q.empty;
  file_open = false;
  file = [];
  console = [];
  worker = false;
  running = false;
  dropped = 0;
}

-- setfill('0') and setw(3).
abbrev pub set_width : List ℕ → List ℕ
set_width s = replicate (3 - length s) b'0' ++ s

-- The text that writeEntry puts together.
unfoldable pub line : (ℕ → List ℕ) → Entry → List ℕ
unfolding log_level_to_string to_string
line put_time e =
    put_time (e.time / 1000)
    ++ (codes "."
        ++ (set_width (to_string (e.time % 1000))
            ++ (codes " [" ++ (log_level_to_string e.level ++ (codes "] " ++ e.message)))))

module _ (q : Queue) where
  -- RtcLogger::init; `opens` is whether the file can be opened, which empties it. A thread that is
  -- assigned to a worker_ that still runs ends the program.
  unfoldable pub init : Bool → RtcLogger q → Option (RtcLogger q)
  init opens l =
      if l.worker
      then none
      else some (record l {
        file_open = opens;
        file = if opens then [] else l.file;
        worker = true;
        running = true;
      })

  -- RtcLogger::log.
  unfoldable pub log : Entry → RtcLogger q → RtcLogger q
  log e l = elim (q.enqueue e l.queue) [
    | none ↦ record l { dropped = l.dropped + 1 }
    | some queue ↦ record l { queue = queue }
  ]

  module _ (put_time : ℕ → List ℕ) where
    -- RtcLogger::writeEntry.
    unfoldable pub write_entry : Entry → RtcLogger q → RtcLogger q
    write_entry e l = record l {
      file = if l.file_open then l.file ++ line put_time e ∷ [] else l.file;
      console = l.console ++ line put_time e ∷ [];
    }

    -- One round of RtcLogger::workerLoop, which waits where the queue is empty.
    unfoldable pub work : RtcLogger q → RtcLogger q
    unfolding write_entry
    work l =
        if l.running
        then elim (q.try_dequeue l.queue) [
          | none ↦ l
          | some (e, rest) ↦ write_entry e (record l { queue = rest })
        ]
        else l

    -- RtcLogger::drain; none is for want of fuel.
    unfoldable pub drain : ℕ → RtcLogger q → Option (RtcLogger q)
    unfolding write_entry
    drain zero l = none
    drain (suc fuel) l = elim (q.try_dequeue l.queue) [
      | none ↦ some l
      | some (e, rest) ↦ drain fuel (write_entry e (record l { queue = rest }))
    ]

    -- The end of RtcLogger::shutdown.
    abbrev pub close_file : RtcLogger q → RtcLogger q
    close_file l = record l { file_open = false }

    -- RtcLogger::shutdown, with one round more than there are elements.
    unfoldable pub shutdown : RtcLogger q → Option (RtcLogger q)
    unfolding drain
    shutdown l =
        let drained = drain (q.size l.queue + 1) (record l { running = false; worker = false }) in
        if l.running then Option.map close_file drained else some l
