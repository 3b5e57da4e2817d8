-- ===== src/Pbft/Quorum/Window.antt =====
-- The watermark test.
use hyperledger_fabric.Pbft.Replica.{Replica}
use hyperledger_fabric.Pbft.Quorum.{in_w, in_wv}
use Prim.Native.Nat.{ℕ, ◌+◌, ◌≤◌, ◌<◌}
use mathlib.Core.Path.{◌≡◌}
use mathlib.Core.Logic.{◌↔◌}
use mathlib.Core.Bool.{true}
use native.Mathlib.Omega.{arith}

-- While the high watermark `h + L` is below 2^64, a 64-bit sequence number passes the wrapping test
-- exactly when it is above the low watermark and at most the high one.
pub in_w_iff :
    (s : Replica) (n : ℕ)
    → s.h + s.l < 18446744073709551616
    → n < 18446744073709551616
    → (in_w s n ≡ true) ↔ ((s.h < n) × (n ≤ s.h + s.l))
unfolding in_w
in_w_iff s n fits small = ground arith

pub in_wv-view : (s : Replica) (v n : ℕ) → in_wv s v n ≡ true → s.view ≡ v
unfolding in_wv
in_wv-view s v n h = ground arith

pub in_wv-in_w : (s : Replica) (v n : ℕ) → in_wv s v n ≡ true → in_w s n ≡ true
unfolding in_wv
in_wv-in_w s v n h = ground arith
