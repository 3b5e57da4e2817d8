-- ===== src/Statemgmt/State/Block.antt =====
-- A block's transactions on the `State`, one after the other.
use hyperledger_fabric.Base.{string_key, ◌==◌, Option-cases, Bool-cases, All}
use hyperledger_fabric.Base.Map.{lookup}
use hyperledger_fabric.Statemgmt.Delta as Delta
use hyperledger_fabric.Statemgmt.Delta.{
  Slice, UpdatedValue, StateDelta, apply_changes, is_empty, new_state_delta,
}
use hyperledger_fabric.Statemgmt.Delta.Hash.{Util}
use hyperledger_fabric.Statemgmt.Delta.Keys.{apply_changes-IsDelta}
use hyperledger_fabric.Statemgmt.Delta.Rollback.{
  WorldState, apply_changes-Records, forwards, backwards, backwards-forwards,
}
use hyperledger_fabric.Statemgmt.State.{
  HashableState, finished, State, tx_begin, tx_finish, merge_tx, get,
}
use hyperledger_fabric.Statemgmt.State.Transactions.{and_then, in_tx}
use hyperledger_fabric.Statemgmt.State.Recorded.{Tx, IsRecorded, writes-Leaves, with_tx-IsRecorded}
use Prim.Native.String.{String}
use mathlib.Core.Path.{◌≡◌, refl}
use mathlib.Core.Logic.{inl, inr}
use mathlib.Core.Bool.{Bool, true, false}
use mathlib.Core.Option.{Option, some}
use mathlib.Core.List.{List, [], ◌∷◌}

module _ (i : HashableState) (util : Util) where
  unfoldable pub in_block : List Tx → State i util → Option (State i util)
  in_block [] s = some s
  in_block (x ∷ xs) s = and_then i util (in_block xs) (in_tx i util x.uuid x.successful x.body s)

  module _ (st : WorldState) where
    -- Between transactions.
    pub record IsIdle (s : State i util) : Type 0 where
      pub recorded : IsRecorded i util st s
      pub no_tx : s.current_tx_uuid ≡ ""
      pub no_changes : s.current_tx_state_delta ≡ new_state_delta

    closed-IsIdle :
        (s : State i util)
        → IsRecorded i util st s
        → IsIdle (record s { current_tx_state_delta = new_state_delta; current_tx_uuid = "" })
    unfolding Delta.get lookup
    closed-IsIdle s h = record {
      recorded =
          with_tx-IsRecorded i util st "" new_state_delta s h record { once = tt; once_each = tt }
            (λ _ _. tt);
      no_tx = refl;
      no_changes = refl;
    }

    merge_tx-IsRecorded :
        (uuid : String) (s : State i util)
        → IsRecorded i util st s
        → IsRecorded i util st (merge_tx i util uuid s)
    merge_tx-IsRecorded uuid s h = elim (Bool-cases (is_empty s.current_tx_state_delta)) [
      | inl unused ↦ rw unused record {
        reads = h.reads;
        block_once = h.block_once;
        block_records = h.block_records;
        tx_once = h.tx_once;
        tx_records = h.tx_records;
      }
      | inr used ↦ rw used record {
        reads = h.reads;
        block_once = apply_changes-IsDelta s.current_tx_state_delta s.state_delta h.block_once;
        block_records =
            apply_changes-Records s.current_tx_state_delta s.state_delta st h.tx_once
              h.block_records (λ id key _. h.tx_records id key);
        tx_once = h.tx_once;
        tx_records = h.tx_records;
      }
    ]

    tx_finish-IsIdle :
        (uuid : String) (successful : Bool) (s : State i util)
        → s.current_tx_uuid ≡ uuid
        → IsRecorded i util st s
        → (t : State i util) × (tx_finish i util uuid successful s ≡ finished t) × IsIdle t
    unfolding tx_finish
    tx_finish-IsIdle uuid true s same h = (
      record (merge_tx i util uuid s) {
        current_tx_state_delta = new_state_delta;
        current_tx_uuid = "";
      },
      rw ((string_key.same_iff s.current_tx_uuid uuid).1 same) refl,
      closed-IsIdle (merge_tx i util uuid s) (merge_tx-IsRecorded uuid s h),
    )
    tx_finish-IsIdle uuid false s same h = (
      record s { current_tx_state_delta = new_state_delta; current_tx_uuid = "" },
      rw ((string_key.same_iff s.current_tx_uuid uuid).1 same) refl,
      closed-IsIdle s h,
    )

    in_tx-IsIdle :
        (x : Tx) (s : State i util)
        → (x.uuid == "") ≡ false
        → IsIdle s
        → (t : State i util) × (in_tx i util x.uuid x.successful x.body s ≡ some t) × IsIdle t
    unfolding in_tx tx_begin
    in_tx-IsIdle x s named h =
        let r = h.recorded in
        let (d, q, once, records) =
          writes-Leaves i util st x.body (record s { current_tx_uuid = x.uuid }) named
            (with_tx-IsRecorded i util st x.uuid s.current_tx_state_delta s r r.tx_once
              r.tx_records) in
        let (t, q2, idle) =
          tx_finish-IsIdle x.uuid x.successful
            (record s { current_tx_uuid = x.uuid; current_tx_state_delta = d }) refl
            (with_tx-IsRecorded i util st x.uuid d s r once records) in
        (t, rw ((string_key.same_iff s.current_tx_uuid "").1 h.no_tx, q, q2) refl, idle)

    pub in_block-IsIdle :
        (xs : List Tx) (s : State i util)
        → All (λ x. (x.uuid == "") ≡ false) xs
        → IsIdle s
        → (t : State i util) × (in_block xs s ≡ some t) × IsIdle t
    unfolding in_block
    in_block-IsIdle [] s _ h = (s, refl, h)
    in_block-IsIdle (x ∷ xs) s (named, others) h =
        let (t, q, idle) = in_tx-IsIdle x s named h in
        let (t2, q2, idle2) = in_block-IsIdle xs t others idle in (t2, rw q q2, idle2)

    read-IsIdle :
        (s : State i util) (id key : String)
        → IsIdle s
        → get i util id key false s ≡ some (forwards s.state_delta st id key)
    unfolding get forwards Delta.get lookup
    read-IsIdle s id key h = elim (Option-cases (Delta.get id key s.state_delta)) [
      | inl unset ↦ rw (h.no_changes, unset, h.recorded.reads id key) refl
      | inr (u, here) ↦ rw (h.no_changes, here) refl
    ]

    -- Transactions of a block, successful or not, that start between transactions on a state whose
    -- implementation can be read end without a panic. The block's delta then takes the committed values
    -- forwards to the values that `Get` finds, and these backwards to the committed values. The names of
    -- the transactions are not empty.
    pub in_block-forwards :
        (xs : List Tx) (s : State i util)
        → All (λ x. (x.uuid == "") ≡ false) xs
        → IsIdle s
        → (t : State i util) × (in_block xs s ≡ some t)
          × ((id key : String)
              → (get i util id key false t ≡ some (forwards t.state_delta st id key))
                × (backwards t.state_delta (forwards t.state_delta st) id key ≡ st id key))
    in_block-forwards xs s named h =
        let (t, q, idle) = in_block-IsIdle xs s named h in
        (
          t,
          q,
          λ id key. (
            read-IsIdle t id key idle,
            backwards-forwards t.state_delta st id key idle.recorded.block_records,
          ),
        )
