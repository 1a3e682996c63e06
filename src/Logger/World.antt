-- ===== src/Logger/World.antt =====
-- The logger and all calls of log and rounds of the worker, in any order.
use rtcvpn.Common.{
  ℕ, ◌+◌, ◌≡◌, refl, ap, List, [], ◌∷◌, ◌++◌, true, Option, none, some, if◌then◌else◌, ◌==◌, ◌>>=◌,
  Bool-cases, inl, inr,
}
use mathlib.Core.Option
use rtcvpn.Logger.{Entry, Queue, RtcLogger, new_logger, init, log, work, shutdown}

-- What one thread has logged.
abbrev pub of_thread : ℕ → List Entry → List Entry
of_thread p [] = []
of_thread p (e ∷ es) = if e.thread == p then e ∷ of_thread p es else of_thread p es

-- What is documented of the queue: the elements of one thread come out in the order in which they
-- went in, none is lost and none comes out twice, and try_dequeue finds one where there is one.
pub record QueueLaws (q : Queue) : Type 0 where
  pub contents : q.Elements → List Entry
  pub contents-empty : contents q.empty ≡ []
  pub enqueue_adds :
      (e : Entry) (s t : q.Elements)
      → q.enqueue e s ≡ some t
      → (q.size t ≡ q.size s + 1)
        × ((p : ℕ) → of_thread p (contents t) ≡ of_thread p (contents s) ++ of_thread p (e ∷ []))
  pub dequeue_takes :
      (e : Entry) (s t : q.Elements)
      → q.try_dequeue s ≡ some (e, t)
      → (q.size s ≡ q.size t + 1)
        × ((p : ℕ) → of_thread p (contents s) ≡ of_thread p (e ∷ []) ++ of_thread p (contents t))
  pub dequeue_finds : (s : q.Elements) → q.try_dequeue s ≡ none → contents s ≡ []

-- A call of log, or a round of the worker.
pub data Activity : Type 0 where
  logs : Entry → Activity
  works : Activity

-- `accepted` are the messages that the queue took.
pub record World (q : Queue) : Type 0 where
  pub logger : RtcLogger q
  pub accepted : List Entry

abbrev pub initial : (q : Queue) → World q
initial q = record { logger = new_logger q; accepted = [] }

module _ (q : Queue) (put_time : ℕ → List ℕ) where
  unfoldable pub step : Activity → World q → World q
  unfolding log work
  step (logs e) w = record {
    logger = log q e w.logger;
    accepted = elim (q.enqueue e w.logger.queue) [
      | none ↦ w.accepted
      | some _ ↦ w.accepted ++ e ∷ []
    ];
  }
  step works w = record w { logger = work q put_time w.logger }

  unfoldable pub run : List Activity → World q → World q
  unfolding step
  run [] w = w
  run (a ∷ rest) w = run rest (step a w)

-- init with a file that can be opened, and shutdown.
abbrev pub opened : (q : Queue) → World q → Option (World q)
opened q w = Option.map (λ l. record w { logger = l }) (init q true w.logger)

abbrev pub closed : (q : Queue) → (ℕ → List ℕ) → World q → Option (World q)
closed q put_time w = Option.map (λ l. record w { logger = l }) (shutdown q put_time w.logger)

-- The use that main makes of the logger.
abbrev pub program : (q : Queue) → (ℕ → List ℕ) → List Activity → List Activity → Option (World q)
program q put_time before during = do
  w ← opened q (run q put_time before (initial q))
  closed q put_time (run q put_time during w)

-- What is logged, in the order of the calls.
abbrev pub logged : List Activity → List Entry
logged [] = []
logged (logs e ∷ rest) = e ∷ logged rest
logged (works ∷ rest) = logged rest

pub of_thread-append :
    (p : ℕ) (xs ys : List Entry) → of_thread p (xs ++ ys) ≡ of_thread p xs ++ of_thread p ys
of_thread-append p [] ys = refl
of_thread-append p (x ∷ xs) ys = elim (Bool-cases (x.thread == p)) [
  | inl e ↦ rw e (ap (◌∷◌ x) (of_thread-append p xs ys))
  | inr e ↦ rw e (of_thread-append p xs ys)
]
