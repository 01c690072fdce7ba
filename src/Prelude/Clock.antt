-- ===== src/Prelude/Clock.antt =====
-- Optional readings of the clock.
use Prim.Native.Nat.{ℕ, zero, suc}
use mathlib.Core.Option.{Option, none, some}

-- `now or time.time()`: 0 counts as absent
unfoldable pub or_clock : Option ℕ → ℕ → ℕ
or_clock none clock = clock
or_clock (some zero) clock = clock
or_clock (some (suc n)) clock = suc n
