-- ===== src/Pbft/Assignment/Justified.antt =====
-- What `assignSequenceNumbers` assigns, and when it refuses.
use hyperledger_fabric.Base.{nat_key, All}
use hyperledger_fabric.Base.Map.{Map}
use hyperledger_fabric.Pbft.Messages.{ViewChange, ViewChangePq}
use hyperledger_fabric.Pbft.Replica.{Replica}
use hyperledger_fabric.Pbft.Assignment.{is_selectable, null_quorum}
use Prim.Native.Nat.{ℕ, ◌≤◌, ◌<◌}
use Prim.Native.String.{String}
use mathlib.Core.Path.{◌≡◌}
use mathlib.Core.Logic.{◌⊎◌}
use mathlib.Core.Bool.{Bool, true, false}
use mathlib.Core.Option.{Option}
use mathlib.Core.List.{List, Memᴰ}

module _ (s : Replica) (vset : List ViewChange) where
  -- A digest that the rules select for a number: that of an entry of some message's P set that
  -- passes A1 and A2; or the null request, where no entry passes and a quorum has none for the
  -- number.
  abbrev pub IsJustified : ℕ → String → Type 0
  IsJustified n d =
      ((m : ViewChange) × (em : ViewChangePq) × Memᴰ m vset
        × Memᴰ em m.pset
        × (is_selectable s vset n em ≡ true)
        × (em.digest ≡ d))
      ⊎ ((d ≡ "")
          × (null_quorum s vset n ≡ true)
          × All (λ (m : ViewChange). All (λ em. is_selectable s vset n em ≡ false) m.pset) vset)

  abbrev InRange : ℕ → ℕ → ℕ → String → Type 0
  InRange from to n d = (from ≤ n) × (n < to) × IsJustified n d
