-- ===== src/JetStream/Pull/Race.antt =====
-- Two workers that fail at once.
use rusi.Prelude.{ℕ, ◌+◌, ◌≡◌, refl, true, arith}
use rusi.JetStream.Pull.{Pull, acquire, stopped, look, close_done, start, step, Reach, here, next}

-- the states on the way: the workers that wait, have failed and are about to close, of `sem` slots
abbrev at_most : (cap sem waiting failing closing : ℕ) → Pull
at_most cap sem waiting failing closing = record (start cap) {
  sem = sem;
  waiting = waiting;
  failing = failing;
  closing = closing;
}

abbrev closed_once : ℕ → Pull
closed_once cap = record (start cap) { sem = 1; closing = 1; done = true }

module _ (n : ℕ) where
  two_workers : Reach (start (n + 2)) (at_most (n + 2) 2 2 0 0)
  unfolding step
  two_workers =
      next acquire (next {r = at_most (n + 2) 1 1 0 0} acquire here (ground arith)) (ground arith)

  both_closing : Reach (start (n + 2)) (at_most (n + 2) 2 0 0 2)
  unfolding step
  both_closing =
      next look
        (next {r = at_most (n + 2) 2 0 1 1} look
          (next {r = at_most (n + 2) 2 0 2 0} stopped
            (next {r = at_most (n + 2) 2 1 1 0} stopped two_workers (ground arith)) (ground arith))
          (ground arith))
        (ground arith)

  -- With two messages or more in flight, two workers that find the iterator closed can both close
  -- `done`: the second one panics.
  Reach-panicked : (p : Pull) × Reach (start (n + 2)) p × (p.panicked ≡ true)
  unfolding step
  Reach-panicked = (
    record (closed_once (n + 2)) { panicked = true },
    next close_done (next {r = closed_once (n + 2)} close_done both_closing (ground arith))
        (ground arith),
    refl,
  )
