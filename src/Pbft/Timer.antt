-- ===== src/Pbft/Timer.antt =====
-- The view-change timer: `startTimer`, `stopTimer` and the test of `timerHander`.
use hyperledger_fabric.Base.{ltb, if◌then◌else◌}
use hyperledger_fabric.Pbft.Replica.{Replica, u64}
use Prim.Native.Nat.{ℕ, ◌+◌}
use mathlib.Core.Bool.{Bool, true, false, not, ◌&&◌}

-- `Reset` and `Stop` return false if the timer has fired or is stopped.
unfoldable pub start_timer : Replica → ℕ → Replica
start_timer s timeout = record s {
  pending = true;
  timer_reset_count =
      if not s.pending && s.timer_active
      then u64 (s.timer_reset_count + 1)
      else s.timer_reset_count;
  timer_active = true;
}

unfoldable pub stop_timer : Replica → Replica
stop_timer s = record s {
  pending = false;
  timer_reset_count =
      if not s.pending && s.timer_active
      then u64 (s.timer_reset_count + 1)
      else s.timer_reset_count;
  timer_active = false;
}

-- The timer fires: its channel delivers and the expiry is counted, before the lock is taken.
unfoldable pub timer_fires : Replica → Replica
timer_fires s = record s { pending = false; timer_expired_count = u64 (s.timer_expired_count + 1) }

-- Under the lock: whether the expiry still counts, that is, no reset overtook it.
unfoldable pub expiry_stands : Replica → Bool
expiry_stands s = not (ltb s.timer_expired_count s.timer_reset_count)
