-- ===== src/Logger/Tests.antt =====
-- Runs of the logger, on a queue that is a list and takes at most three elements.
use Prim.Native.String.{String}
use rtcvpn.Common.{
  ℕ, ◌+◌, ◌≡◌, refl, arith, List, [], ◌∷◌, ◌++◌, Option, none, some, Bool-cases, if◌then◌else◌, ltb,
  codes, length, length-append, inl, inr,
}
use mathlib.Core.List.{map, Sublist}
use rtcvpn.Logger.{Entry, info, Queue, line}
use rtcvpn.Logger.World.{
  QueueLaws, Activity, logs, works, World, run, program, of_thread, of_thread-append, logged,
}
use rtcvpn.Logger.Order.{log_complete}

abbrev take_one : List Entry → Option (Entry × List Entry)
take_one [] = none
take_one (e ∷ es) = some (e, es)

abbrev list_queue : Queue
list_queue = record {
  Elements = List Entry;
  empty = [];
  enqueue = λ e s. if ltb (length s) 3 then some (s ++ e ∷ []) else none;
  try_dequeue = take_one;
  size = length;
}

takes :
    (e : Entry) (s t : List Entry)
    → list_queue.enqueue e s ≡ some t
    → (length t ≡ length s + 1) × ((p : ℕ) → of_thread p t ≡ of_thread p s ++ of_thread p (e ∷ []))
takes e s t took = elim (Bool-cases (ltb (length s) 3)) [
  | inl small ↦
      let same : s ++ e ∷ [] ≡ t = ground arith in
      rw (← same) (omega (arith, length-append s (e ∷ [])), λ p. of_thread-append p s (e ∷ []))
  | inr full ↦ absurd (ground arith)
]

gives :
    (e : Entry) (s t : List Entry)
    → take_one s ≡ some (e, t)
    → (length s ≡ length t + 1) × ((p : ℕ) → of_thread p s ≡ of_thread p (e ∷ []) ++ of_thread p t)
gives e [] t found = cc
gives e (x ∷ s) t found =
    let same_head : x ≡ e = cc in
    let same_tail : s ≡ t = cc in
    rw (same_head, same_tail) (omega arith, λ p. of_thread-append p (e ∷ []) t)

finds : (s : List Entry) → take_one s ≡ none → s ≡ []
finds [] e = refl
finds (x ∷ s) e = cc

abbrev list_queue_laws : QueueLaws list_queue
list_queue_laws = record {
  contents = λ s. s;
  contents-empty = refl;
  enqueue_adds = takes;
  dequeue_takes = gives;
  dequeue_finds = finds;
}

abbrev info_entry : ℕ → ℕ → String → Entry
info_entry thread time text = record {
  thread = thread;
  time = time;
  level = info;
  message = codes text;
}

abbrev clock : ℕ → List ℕ
clock t = codes "noon"

abbrev early : List Activity
early = logs (info_entry 1 1 "a") ∷ works ∷ []

abbrev middle : List Activity
middle =
    logs (info_entry 2 2 "b")
    ∷ works
    ∷ logs (info_entry 1 3 "c")
    ∷ logs (info_entry 2 4 "d")
    ∷ logs (info_entry 2 5 "e")
    ∷ []

abbrev late : List Activity
late = logs (info_entry 1 6 "f") ∷ works ∷ []

log_complete_example :
    (v : World list_queue) × (written : List Entry) × (program list_queue clock early middle
      ≡ some v)
    × (v.logger.file ≡ map (line clock) written)
    × (v.logger.console ≡ map (line clock) written)
    × ((p : ℕ) → of_thread p written ≡ of_thread p v.accepted)
    × Sublist v.accepted (logged early ++ logged middle)
    × (length v.accepted + v.logger.dropped ≡ length (logged early) + length (logged middle))
    × ((run list_queue clock late v).logger.file ≡ v.logger.file)
    × ((run list_queue clock late v).logger.console ≡ v.logger.console)
log_complete_example = log_complete list_queue list_queue_laws clock early middle late

line_of_entry : line clock (info_entry 1 5007 "up") ≡ codes "noon.007 [INFO ] up"
unfolding line
line_of_entry = refl
