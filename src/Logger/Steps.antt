-- ===== src/Logger/Steps.antt =====
-- What a single step of the logger does, and what runs keep.
use rtcvpn.Common.{
  ℕ, ◌+◌, ◌≡◌, ◌∙◌, refl, arith, List, [], ◌∷◌, ◌++◌, append-nil, append_assoc, true, false, none,
  some, length, length-append, Option-cases, inl, inr,
}
use mathlib.Core.List.{Sublist, sublist-append_left}
use mathlib.Core.List.Sublist
use mathlib.Core.Path.{subst}
use rtcvpn.Logger.{Entry, Queue, init, write_entry}
use rtcvpn.Logger.World.{Activity, logs, works, World, step, run, opened, logged}

module _ (q : Queue) (put_time : ℕ → List ℕ) (w : World q) where
  pub step_refused :
      (e : Entry)
      → q.enqueue e w.logger.queue ≡ none
      → step q put_time (logs e) w
        ≡ record w { logger = record w.logger { dropped = w.logger.dropped + 1 } }
  unfolding step
  step_refused e full = ground arith

  pub step_taken :
      (e : Entry) (t : q.Elements)
      → q.enqueue e w.logger.queue ≡ some t
      → step q put_time (logs e) w
        ≡ record { logger = record w.logger { queue = t }; accepted = w.accepted ++ e ∷ [] }
  unfolding step
  step_taken e t took = ground arith

  pub step_stopped : w.logger.running ≡ false → step q put_time works w ≡ w
  unfolding step
  step_stopped off = ground arith

  pub step_idle : q.try_dequeue w.logger.queue ≡ none → step q put_time works w ≡ w
  unfolding step
  step_idle none_left = ground arith

  pub step_written :
      (e : Entry) (t : q.Elements)
      → w.logger.running ≡ true
      → q.try_dequeue w.logger.queue ≡ some (e, t)
      → step q put_time works w
        ≡ record w { logger = write_entry q put_time e (record w.logger { queue = t }) }
  unfolding step
  step_written e t on found = ground arith

module _ (q : Queue) (put_time : ℕ → List ℕ) where
  -- A logger that does not run writes nothing.
  pub step_silent :
      (a : Activity) (w : World q)
      → w.logger.running ≡ false
      → ((step q put_time a w).logger.file ≡ w.logger.file)
        × ((step q put_time a w).logger.console ≡ w.logger.console)
        × ((step q put_time a w).logger.running ≡ false)
        × ((step q put_time a w).logger.worker ≡ w.logger.worker)
  unfolding step
  step_silent (logs e) w off = elim (Option-cases (q.enqueue e w.logger.queue)) [
    | inl full ↦ ground arith
    | inr (t, took) ↦ ground arith
  ]
  step_silent works w off = ground arith

  pub run_silent :
      (rest : List Activity) (w : World q)
      → w.logger.running ≡ false
      → ((run q put_time rest w).logger.file ≡ w.logger.file)
        × ((run q put_time rest w).logger.console ≡ w.logger.console)
        × ((run q put_time rest w).logger.running ≡ false)
        × ((run q put_time rest w).logger.worker ≡ w.logger.worker)
  unfolding run
  run_silent [] w off = (refl, refl, off, refl)
  run_silent (a ∷ rest) w off =
      let (f, c, r, k) = step_silent a w off in
      let (f', c', r', k') = run_silent rest (step q put_time a w) r in (f' ∙ f, c' ∙ c, r', k' ∙ k)

  pub works_drops : (w : World q) → (step q put_time works w).logger.dropped ≡ w.logger.dropped
  unfolding step
  works_drops w = ground arith

  pub works_keep : (w : World q) → (step q put_time works w).accepted ≡ w.accepted
  unfolding step
  works_keep w = refl

  -- Each message is accepted or counted as dropped.
  pub step_counts :
      (a : Activity) (w : World q)
      → length (step q put_time a w).accepted + (step q put_time a w).logger.dropped
        ≡ length w.accepted + w.logger.dropped + length (logged (a ∷ []))
  step_counts (logs e) w = elim (Option-cases (q.enqueue e w.logger.queue)) [
    | inl full ↦ rw (step_refused q put_time w e full) (omega arith)
    | inr (t, took) ↦
        rw (step_taken q put_time w e t took) (omega (arith, length-append w.accepted (e ∷ [])))
  ]
  step_counts works w = rw (works_keep w) (omega (arith, works_drops w))

  pub run_counts :
      (rest : List Activity) (w : World q)
      → length (run q put_time rest w).accepted + (run q put_time rest w).logger.dropped
        ≡ length w.accepted + w.logger.dropped + length (logged rest)
  unfolding run
  run_counts [] w = omega arith
  run_counts (logs e ∷ rest) w =
      omega (arith, step_counts (logs e) w, run_counts rest (step q put_time (logs e) w))
  run_counts (works ∷ rest) w =
      omega (arith, step_counts works w, run_counts rest (step q put_time works w))

  -- What is accepted is logged, in the same order.
  pub step_sublist :
      (a : Activity) (w : World q) {all : List Entry}
      → Sublist w.accepted all
      → Sublist (step q put_time a w).accepted (all ++ logged (a ∷ []))
  step_sublist (logs e) w {all} s = elim (Option-cases (q.enqueue e w.logger.queue)) [
    | inl full ↦
        rw (step_refused q put_time w e full) (Sublist.trans s (sublist-append_left all (e ∷ [])))
    | inr (t, took) ↦
        rw (step_taken q put_time w e t took) (Sublist.append s (Sublist.refl (e ∷ [])))
  ]
  step_sublist works w {all} s = rw (works_keep w, append-nil all) s

  pub run_sublist :
      (rest : List Activity) (w : World q) {all : List Entry}
      → Sublist w.accepted all
      → Sublist (run q put_time rest w).accepted (all ++ logged rest)
  unfolding run
  run_sublist [] w {all} s = rw (append-nil all) s
  run_sublist (logs e ∷ rest) w {all} s =
      subst (λ l. Sublist (run q put_time rest (step q put_time (logs e) w)).accepted l)
        (append_assoc all (e ∷ []) (logged rest))
        (run_sublist rest (step q put_time (logs e) w) (step_sublist (logs e) w s))
  run_sublist (works ∷ rest) w {all} s =
      run_sublist rest (step q put_time works w) (rw (works_keep w) s)

  pub step_running :
      (a : Activity) (w : World q) → (step q put_time a w).logger.running ≡ w.logger.running
  unfolding step
  step_running (logs e) w = ground arith
  step_running works w = ground arith

  pub run_running :
      (rest : List Activity) (w : World q)
      → (run q put_time rest w).logger.running ≡ w.logger.running
  unfolding run
  run_running [] w = refl
  run_running (a ∷ rest) w = run_running rest (step q put_time a w) ∙ step_running a w

-- init, of a logger that has written nothing.
abbrev pub opened_world : {q : Queue} → World q → World q
opened_world w = record w {
  logger = record w.logger { file_open = true; file = []; worker = true; running = true };
}

pub opened_lem :
    (q : Queue) (w : World q) → w.logger.worker ≡ false → opened q w ≡ some (opened_world w)
unfolding init
opened_lem q w idle = ground arith
