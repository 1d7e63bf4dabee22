-- ===== src/Timer/Ticks.antt =====
-- The arithmetic of ticks in src/timer.c, which wraps around after 2^32 ticks.
use x.Base.{ℕ, ◌<◌, ◌≡◌, leb, ltb, arith}
use x.Base.Word.{sub32}
use x.Timer.{timer_ticks_expired, timer_ticks_occurred}

-- Of two ticks less than 2^31 behind a common base, the one has expired with respect to the other
-- exactly if it is nearer to the base, and has occurred exactly if it is no farther, also where the
-- counter wraps around in between.
pub expired_window :
    (base ticks ref : ℕ)
    → base < 4294967296
    → ticks < 4294967296
    → ref < 4294967296
    → sub32 ticks base < 2147483648
    → sub32 ref base < 2147483648
    → (timer_ticks_expired ticks ref ≡ ltb (sub32 ticks base) (sub32 ref base))
      × (timer_ticks_occurred ticks ref ≡ leb (sub32 ticks base) (sub32 ref base))
unfolding timer_ticks_expired timer_ticks_occurred
expired_window base ticks ref lb lt lr near_ticks near_ref = (ground arith, ground arith)
