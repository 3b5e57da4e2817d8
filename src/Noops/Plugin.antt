-- ===== src/Noops/Plugin.antt =====
-- openchain/consensus/noops/noops.go: the plugin, with one queue, a timer, and a thread that takes
-- transactions from a channel. The configuration is an argument. A timer's event that is still in its
-- channel when the timer is stopped may come at any time, so `timeout` of `Run` asks for no running
-- timer; `timer_fires` of `Rounds` does.
use hyperledger_fabric.Base.{Bytes, length, ltb, ◌==◌, nat_key, if◌then◌else◌}
use hyperledger_fabric.Ledger.Block.{Transaction, Block}
use hyperledger_fabric.Noops.Txq.{Pointer, Txq, new_txq, append, get_txs, is_full, size}
use hyperledger_fabric.Statemgmt.Delta.{StateDelta}
use Prim.Native.Nat.{ℕ, ◌+◌, ◌<◌}
use mathlib.Core.Path.{◌≡◌}
use mathlib.Core.Bool.{Bool, true, false}
use mathlib.Core.Option.{Option, none, some}
use mathlib.Core.List.{List, [], ◌∷◌, ◌++◌}

pub data MessageType : Type 0 where
  chain_transaction : MessageType
  consensus : MessageType
  other_type : MessageType

-- What the plugin calls of the stack. The batch's identifier, a timestamp, is left out.
pub data Call : Type 0 where
  begin_tx_batch : Call
  exec_txs : List Pointer → Call
  commit_tx_batch : Call
  rollback_tx_batch : Call
  notify_block_added : Option Block → Option StateDelta → Call
  broadcast : Bytes → Call

-- The answers of the stack, the ledger and the protobuf library, which may depend on the calls before.
-- `none` is an error.
pub record Stack : Type 0 where
  pub begin_error : List Call → Bool
  pub exec_error : List Call → Bool
  pub commit_error : List Call → Bool
  pub broadcast_error : List Call → Bool
  pub block_data : List Call → Option (Option Block × Option StateDelta)
  pub unmarshal_transaction : Bytes → Option Transaction
  pub marshal_transactions : List Pointer → Option Bytes
  pub unmarshal_transactions : Bytes → Option (List Pointer)

pub record Noops : Type 0 where
  pub tx_q : Txq
  pub timer : Bool
  pub channel : List Pointer
  pub calls : List Call

unfoldable pub new_noops : ℕ → Noops
new_noops block_size = record { tx_q = new_txq block_size; timer = false; channel = []; calls = [] }

abbrev pub call : Call → Noops → Noops
call c s = record s { calls = s.calls ++ c ∷ [] }

-- Appends to the queue, and starts the timer with the first transaction.
unfoldable pub can_process_block : Pointer → Noops → Noops × Bool
can_process_block tx s =
    let t = record s { tx_q = append tx s.tx_q } in
    (if size t.tx_q == 1 then record t { timer = true } else t, is_full t.tx_q)

module _ (st : Stack) where
  abbrev pub after_exec : Noops → Noops × Bool
  after_exec s =
      if st.exec_error s.calls
      then (call rollback_tx_batch s, false)
      else let t = call commit_tx_batch s in
        if st.commit_error t.calls then (call rollback_tx_batch t, false) else (t, true)

  unfoldable pub process_transactions : Noops → Noops × Bool
  process_transactions s =
      let t = call begin_tx_batch s in
      if st.begin_error t.calls
      then (t, false)
      else let (q, txs) = get_txs t.tx_q in after_exec (call (exec_txs txs) (record t { tx_q = q }))

  abbrev pub notified : Noops → Option (Option Block × Option StateDelta) → Noops × Bool
  notified s none = (s, false)
  notified s (some (block, delta)) = (call (notify_block_added block delta) s, true)

  abbrev pub after_transactions : Noops × Bool → Noops × Bool
  after_transactions (s, false) = (s, false)
  after_transactions (s, true) = notified s (st.block_data s.calls)

  unfoldable pub process_block : Noops → Noops × Bool
  process_block s =
      let t = record s { timer = false } in
      if ltb (size t.tx_q) 1 then (t, true) else after_transactions (process_transactions t)

  -- One round of `handleChannels`, on a transaction of the channel; errors are logged.
  unfoldable pub handle_transaction : Pointer → Noops → Noops
  handle_transaction tx s =
      let (t, full) = can_process_block tx s in if full then (process_block t).0 else t

  -- `getTxFromMsg`: an error, or the transaction; a message without one is an index out of range.
  pub data Received : Type 0 where
    invalid : Received
    out_of_range : Received
    received : Pointer → Received

  abbrev pub first_of : Option (List Pointer) → Received
  first_of none = invalid
  first_of (some []) = out_of_range
  first_of (some (tx ∷ txs)) = received tx

  unfoldable pub get_tx_from_msg : Bytes → Received
  get_tx_from_msg payload = first_of (st.unmarshal_transactions payload)

  -- The state, with the payload of the message that was sent on, or an error.
  abbrev pub sent : Noops → Option Bytes → Noops × Option Bytes
  sent s none = (s, none)
  sent s (some payload) =
      let t = call (broadcast payload) s in
      (t, if st.broadcast_error t.calls then none else some payload)

  abbrev pub rewrapped : Noops → Option Transaction → Noops × Option Bytes
  rewrapped s none = (s, none)
  rewrapped s (some tx) = sent s (st.marshal_transactions (some tx ∷ []))

  unfoldable pub broadcast_consensus_msg : Bytes → Noops → Noops × Option Bytes
  broadcast_consensus_msg payload s = rewrapped s (st.unmarshal_transaction payload)

  -- The sum of a panic, an error and success, with the state.
  pub data Outcome : Type 0 where
    panicked : Outcome
    failed : Noops → Outcome
    finished : Noops → Outcome

  abbrev pub to_channel : Noops → Received → Outcome
  to_channel s invalid = failed s
  to_channel s out_of_range = panicked
  to_channel s (received tx) = finished (record s { channel = s.channel ++ tx ∷ [] })

  abbrev pub after_broadcast : Noops × Option Bytes → Outcome
  after_broadcast (s, none) = failed s
  after_broadcast (s, some payload) = to_channel s (get_tx_from_msg payload)

  -- `RecvMsg`, when the channel has room. The broadcast changes the type and the payload of the message
  -- in place, so that the second test sees what was sent on.
  unfoldable pub recv_msg : MessageType → Bytes → Noops → Outcome
  recv_msg chain_transaction payload s = after_broadcast (broadcast_consensus_msg payload s)
  recv_msg consensus payload s = to_channel s (get_tx_from_msg payload)
  recv_msg other_type payload s = finished s

  -- What happens to the plugin; the list has the transactions that were put into the channel.
  pub data Run (s : Noops) : List Pointer → Noops → Type 0 where
    start : Run s [] s
    arrives :
        {txs : List Pointer} {t : Noops}
        → (tx : Pointer) → Run s txs t
        → length t.channel < 100
        → Run s (txs ++ tx ∷ []) (record t { channel = t.channel ++ tx ∷ [] })
    takes :
        {txs : List Pointer} {t : Noops}
        → (tx : Pointer) (rest : List Pointer) → Run s txs t
        → t.channel ≡ tx ∷ rest
        → Run s txs (handle_transaction tx (record t { channel = rest }))
    timeout : {txs : List Pointer} {t : Noops} → Run s txs t → Run s txs (process_block t).0

  -- Rounds of `handleChannels` while no transaction arrives, with their number: one takes a transaction,
  -- or the running timer fires.
  pub data Rounds (s : Noops) : ℕ → Noops → Type 0 where
    no_rounds : Rounds s 0 s
    takes_next :
        {k : ℕ} {t : Noops}
        → (tx : Pointer) (rest : List Pointer) → Rounds s k t
        → t.channel ≡ tx ∷ rest
        → Rounds s (k + 1) (handle_transaction tx (record t { channel = rest }))
    timer_fires :
        {k : ℕ} {t : Noops} → Rounds s k t → t.timer ≡ true → Rounds s (k + 1) (process_block t).0
