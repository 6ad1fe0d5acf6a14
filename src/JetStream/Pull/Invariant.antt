-- ===== src/JetStream/Pull/Invariant.antt =====
-- The semaphore bounds the workers.
use rusi.Prelude.{ℕ, ◌+◌, ◌≤◌, ◌≡◌, refl, some, arith}
use rusi.JetStream.Pull.{Pull, Event, acquire, start, step, Reach, here, next}

pub record IsBounded (cap : ℕ) (p : Pull) : Type 0 where
  pub same_cap : p.cap ≡ cap
  pub counted : p.sem ≡ p.waiting + p.handling + p.failing + p.closing
  pub within : p.sem ≤ cap

step-IsBounded :
    (cap : ℕ) (e : Event) (p q : Pull) → IsBounded cap p → step e p ≡ some q → IsBounded cap q
unfolding step
step-IsBounded cap acquire p q h s = ground arith
step-IsBounded cap e p q h s = ground arith

-- In every state that the goroutines reach, a taken slot of the semaphore is one worker, and so no more
-- handlers run at once than messages are allowed in flight.
pub Reach-IsBounded :
    (cap : ℕ) {p : Pull} → Reach (start cap) p → IsBounded cap p × (p.handling ≤ cap)
Reach-IsBounded cap r = let b = go r in (b, omega (arith, b.counted, b.within))
  where
    go : {p : Pull} → Reach (start cap) p → IsBounded cap p
    go here = record { same_cap = refl; counted = refl; within = omega arith }
    go (next {q} {r} e before s) = step-IsBounded cap e q r (go before) s
