-- ===== src/Logger/Order.antt =====
-- What becomes of the messages that are logged: the lines that are written between init and the end
-- of shutdown.
use rtcvpn.Common.{
  ℕ, zero, suc, ◌+◌, ◌<◌, ◌≡◌, ◌∙◌, refl, sym, ap, arith, List, [], ◌∷◌, ◌++◌, append-nil,
  append_assoc, true, false, some, length, Option-cases, Bool-cases, inl, inr,
}
use mathlib.Core.List.{map, map-append, Sublist}
use mathlib.Core.List.Sublist
use rtcvpn.Logger.{Entry, Queue, RtcLogger, line, write_entry, drain, shutdown}
use rtcvpn.Logger.World.{
  of_thread, QueueLaws, Activity, logs, works, World, initial, step, run, closed, program, logged,
  of_thread-append,
}
use rtcvpn.Logger.Steps.{
  step_refused, step_taken, step_stopped, step_idle, step_written, run_silent, run_counts,
  run_sublist, run_running, opened_world, opened_lem,
}

module _ (q : Queue) (laws : QueueLaws q) (put_time : ℕ → List ℕ) where
  -- `written` are the messages behind the lines.
  record Inv (w : World q) (written : List Entry) : Type 0 where
    printed : w.logger.console ≡ map (line put_time) written
    same : w.logger.file ≡ w.logger.console
    opened : w.logger.running ≡ true → w.logger.file_open ≡ true
    ordered :
        (p : ℕ)
        → of_thread p w.accepted ≡ of_thread p written ++ of_thread p (laws.contents w.logger.queue)

  -- A message that is written when it comes out of the queue.
  moved :
      (p : ℕ) (e : Entry) (xs : List Entry) (s t : q.Elements)
      → q.try_dequeue s ≡ some (e, t)
      → of_thread p xs ++ of_thread p (laws.contents s)
        ≡ of_thread p (xs ++ e ∷ []) ++ of_thread p (laws.contents t)
  moved p e xs s t d =
      ap (◌++◌ (of_thread p xs)) ((laws.dequeue_takes e s t d).1 p)
      ∙ sym (append_assoc (of_thread p xs) (of_thread p (e ∷ [])) _)
      ∙ ap (λ l. l ++ of_thread p (laws.contents t)) (sym (of_thread-append p xs (e ∷ [])))

  -- Writing a message that was at the front.
  write_entry-Inv :
      (e : Entry) (w : World q) (xs : List Entry) (t : q.Elements)
      → w.logger.file_open ≡ true
      → q.try_dequeue w.logger.queue ≡ some (e, t)
      → Inv w xs
      → Inv
          (record w { logger = write_entry q put_time e (record w.logger { queue = t }) })
          (xs ++ e ∷ [])
  unfolding write_entry
  write_entry-Inv e w xs t open_file found i = record {
    printed =
        ap (λ l. l ++ line put_time e ∷ []) i.printed
        ∙ sym (map-append (line put_time) xs (e ∷ []));
    same = rw open_file (ap (λ l. l ++ line put_time e ∷ []) i.same);
    opened = λ on. open_file;
    ordered = λ p. i.ordered p ∙ moved p e xs w.logger.queue t found;
  }

  step-Inv :
      (a : Activity) (w : World q) (xs : List Entry)
      → Inv w xs
      → (ys : List Entry) × Inv (step q put_time a w) ys
  step-Inv (logs e) w xs i = elim (Option-cases (q.enqueue e w.logger.queue)) [
    | inl full ↦
        rw (step_refused q put_time w e full) (
          xs,
          record { printed = i.printed; same = i.same; opened = i.opened; ordered = i.ordered },
        )
    | inr (t, took) ↦ rw (step_taken q put_time w e t took) (
      xs,
      record {
        printed = i.printed;
        same = i.same;
        opened = i.opened;
        ordered = λ p.
            of_thread-append p w.accepted (e ∷ [])
            ∙ ap (λ l. l ++ of_thread p (e ∷ [])) (i.ordered p)
            ∙ append_assoc (of_thread p xs) _ (of_thread p (e ∷ []))
            ∙ ap (◌++◌ (of_thread p xs)) (sym ((laws.enqueue_adds e w.logger.queue t took).1 p));
      },
    )
  ]
  step-Inv works w xs i = elim (Bool-cases w.logger.running) [
    | inl on ↦ elim (Option-cases (q.try_dequeue w.logger.queue)) [
      | inl nothing ↦ rw (step_idle q put_time w nothing) (xs, i)
      | inr ((e, t), found) ↦
          rw (step_written q put_time w e t on found)
            (xs ++ e ∷ [], write_entry-Inv e w xs t (i.opened on) found i)
    ]
    | inr off ↦ rw (step_stopped q put_time w off) (xs, i)
  ]

  run-Inv :
      (rest : List Activity) (w : World q) (xs : List Entry)
      → Inv w xs
      → (ys : List Entry) × Inv (run q put_time rest w) ys
  unfolding run
  run-Inv [] w xs i = (xs, i)
  run-Inv (a ∷ rest) w xs i =
      let (ys, j) = step-Inv a w xs i in run-Inv rest (step q put_time a w) ys j

  -- The queue is emptied: there is fuel for each element and one round more.
  drains :
      (fuel : ℕ) (w : World q) (xs : List Entry)
      → q.size w.logger.queue < fuel
      → w.logger.file_open ≡ true
      → Inv w xs
      → (l : RtcLogger q) × (ys : List Entry) × (drain q put_time fuel w.logger ≡ some l)
        × Inv (record w { logger = l }) ys
        × (laws.contents l.queue ≡ [])
        × (l.running ≡ w.logger.running)
        × (l.dropped ≡ w.logger.dropped)
  unfolding drain write_entry
  drains zero w xs small open_file i = absurd (omega arith)
  drains (suc fuel) w xs small open_file i = elim (Option-cases (q.try_dequeue w.logger.queue)) [
    | inl nothing ↦
        (w.logger, xs, ground arith, i, laws.dequeue_finds w.logger.queue nothing, refl, refl)
    | inr ((e, t), found) ↦
        let r =
          drains fuel
            (record w { logger = write_entry q put_time e (record w.logger { queue = t }) })
            (xs ++ e ∷ []) (omega (arith, (laws.dequeue_takes e w.logger.queue t found).0))
            open_file (write_entry-Inv e w xs t open_file found i) in
        (r.0, r.1, rw (found, drain) r.2, r.3, r.4, r.5, r.6)
  ]

  initial-Inv : Inv (initial q) []
  initial-Inv = record {
    printed = refl;
    same = refl;
    opened = λ on. cc;
    ordered = λ p. ap (of_thread p) (sym laws.contents-empty);
  }

  opened-Inv :
      (w : World q) (xs : List Entry) → w.logger.console ≡ [] → Inv w xs → Inv (opened_world w) xs
  opened-Inv w xs c i = record {
    printed = i.printed;
    same = sym c;
    opened = λ on. refl;
    ordered = i.ordered;
  }

  -- shutdown, of a logger that runs.
  record Shut (w : World q) : Type 0 where
    after : World q
    ended : closed q put_time w ≡ some after
    written : List Entry
    sound : Inv after written
    emptied : laws.contents after.logger.queue ≡ []
    silent : after.logger.running ≡ false
    no_more : after.logger.dropped ≡ w.logger.dropped
    accepts : after.accepted ≡ w.accepted

  shuts : (w : World q) (xs : List Entry) → w.logger.running ≡ true → Inv w xs → Shut w
  unfolding shutdown
  shuts w xs on i =
      let stopping : World q = record w {
        logger = record w.logger { running = false; worker = false };
      } in
      let j : Inv stopping xs = record {
        printed = i.printed;
        same = i.same;
        opened = λ bad. cc;
        ordered = i.ordered;
      } in
      let r = drains (q.size w.logger.queue + 1) stopping xs (omega arith) (i.opened on) j in
      record {
        after = record w { logger = record r.0 { file_open = false } };
        ended = rw (on, r.2) refl;
        written = r.1;
        sound = record {
          printed = r.3.printed;
          same = r.3.same;
          opened = λ bad. cc (sym bad, r.5);
          ordered = r.3.ordered;
        };
        emptied = r.4;
        silent = r.5;
        no_more = r.6;
        accepts = refl;
      }

  -- The logger of the program: messages may be logged before init, which opens the file, then until
  -- shutdown, and after it. init and shutdown end. What is then in the file, and was printed on the
  -- console, is one line for each message that the queue had taken before shutdown, those of one
  -- thread in the order in which they were logged, none lost and none twice; the messages that the
  -- queue took are among those that were logged, and all others are counted as dropped. What is
  -- logged after shutdown is not written.
  pub log_complete :
      (before during later : List Activity)
      → (v : World q) × (written : List Entry) × (program q put_time before during ≡ some v)
        × (v.logger.file ≡ map (line put_time) written)
        × (v.logger.console ≡ map (line put_time) written)
        × ((p : ℕ) → of_thread p written ≡ of_thread p v.accepted)
        × Sublist v.accepted (logged before ++ logged during)
        × (length v.accepted + v.logger.dropped ≡ length (logged before) + length (logged during))
        × ((run q put_time later v).logger.file ≡ v.logger.file)
        × ((run q put_time later v).logger.console ≡ v.logger.console)
  log_complete before during later =
      let start = run q put_time before (initial q) in
      let quiet = run_silent q put_time before (initial q) refl in
      let (xs, i) = run-Inv before (initial q) [] initial-Inv in
      let j : Inv (opened_world start) xs = opened-Inv start xs quiet.1 i in
      let (ys, k) = run-Inv during (opened_world start) xs j in
      let s =
        shuts (run q put_time during (opened_world start)) ys
          (run_running q put_time during (opened_world start)) k in
      let silent = run_silent q put_time later s.after s.silent in
      (
        s.after,
        s.written,
        rw (opened_lem q start quiet.3) s.ended,
        s.sound.same ∙ s.sound.printed,
        s.sound.printed,
        λ p. sym (
            s.sound.ordered p
            ∙ ap (λ l. of_thread p s.written ++ of_thread p l) s.emptied
            ∙ append-nil _),
        rw (s.accepts) (
            run_sublist q put_time during (opened_world start)
              (run_sublist q put_time before (initial q) (Sublist.refl []))),
        rw (s.accepts, s.no_more)
            (omega (
              arith,
              run_counts q put_time before (initial q),
              run_counts q put_time during (opened_world start),
            )),
        silent.0,
        silent.1,
      )
