-- ===== src/Backend/Backoff.antt =====
-- `ExponentialBackoff`. A `Duration` is its seconds.
use d_inference.Prelude.{◌≡◌, refl, ap, arith, ℕ, min, suc, zero, ◌*◌, ◌^◌}
use native.Mathlib.Nat.{pow-suc}

pub record ExponentialBackoff : Type 0 where
  pub current : ℕ
  pub max : ℕ

unfoldable pub new : ExponentialBackoff
new = record { current = 1; max = 5 }

-- The delay, and the calculator after it.
unfoldable pub next_delay : ExponentialBackoff → ℕ × ExponentialBackoff
next_delay b = let delay = b.current in (delay, record b { current = min (b.current * 2) b.max })

unfoldable pub reset : ExponentialBackoff → ExponentialBackoff
reset b = record b { current = 1 }

-- The calculator after `k` delays in a row.
unfoldable pub after : ℕ → ExponentialBackoff
unfolding new
after zero = new
after (suc k) = (next_delay (after k)).1

-- After `k` delays in a row the next one is 2 ^ k seconds, but 5 at most; so from the fourth on it is
-- 5 seconds.
pub delay_after : (k : ℕ) → (after k ≡ record { current = min (2 ^ k) 5; max = 5 })
unfolding after next_delay
delay_after zero = refl
delay_after (suc k) = rw (delay_after k, pow-suc) (ground arith)

pub next_delay-after : (k : ℕ) → next_delay (after k) ≡ (min (2 ^ k) 5, after (suc k))
unfolding after next_delay
next_delay-after k =
    ap (λ (b : ExponentialBackoff). (b.current, (next_delay (after k)).1)) (delay_after k)

pub reset-after : (k : ℕ) → reset (after k) ≡ after 0
unfolding reset after
reset-after k = rw (delay_after k) refl

pub after_zero : after 0 ≡ new
unfolding after
after_zero = refl
