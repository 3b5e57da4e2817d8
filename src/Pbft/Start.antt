-- ===== src/Pbft/Start.antt =====
-- `newPbftCore` of pbft-core.go: the state in which a replica starts.
use hyperledger_fabric.Base.{nat_key, ltb, if◌then◌else◌}
use hyperledger_fabric.Base.Map.{insert}
use hyperledger_fabric.Pbft.Messages.{Bytes}
use hyperledger_fabric.Pbft.Replica.{Env, Replica, u64}
use Prim.Native.Nat.{ℕ, ◌+◌, ◌*◌}
use mathlib.Core.Bool.{Bool, true, false}
use mathlib.Core.Option.{Option, none, some}
use mathlib.Core.List.{[]}

-- The values that the constructor reads from its configuration. The durations have been parsed.
pub record Config : Type 0 where
  pub n : ℕ
  pub f : ℕ
  pub k : ℕ
  pub log_multiplier : ℕ
  pub byzantine : Bool
  pub request_timeout : ℕ
  pub new_view_timeout : ℕ

-- The state after the constructor. `genesis_hash` is the ledger's hash of block 0.
unfoldable pub fresh_replica : Env → Config → Bytes → ℕ → Replica
fresh_replica e c genesis_hash id = record {
  executing = false;
  notify_commit = false;
  active_view = true;
  byzantine = c.byzantine;
  f = c.f;
  n = c.n;
  h = 0;
  id = id;
  k = c.k;
  log_multiplier = c.log_multiplier;
  l = u64 (c.log_multiplier * c.k);
  last_exec = 0;
  replica_count = c.n;
  seq_no = 0;
  view = 0;
  chkpts = insert 0 (record { block_number = 0; block_hash = e.encode_base64 genesis_hash }) [];
  pset = [];
  qset = [];
  h_chkpts = [];
  in_progress = false;
  pending = false;
  timer_active = false;
  request_timeout = c.request_timeout;
  new_view_timeout = c.new_view_timeout;
  last_new_view_timeout = c.new_view_timeout;
  outstanding_reqs = [];
  timer_expired_count = 0;
  timer_reset_count = 1;
  missing_reqs = [];
  req_store = [];
  cert_store = [];
  checkpoint_store = [];
  view_change_store = [];
  new_view_store = [];
  effects = [];
  crashed = false;
}

-- `none` is a panic: too few replicas for the faults to tolerate, or no genesis block to hash.
unfoldable pub new_pbft_core : Env → Config → Option Bytes → ℕ → Option Replica
new_pbft_core e c none id = none
new_pbft_core e c (some genesis_hash) id =
    if ltb c.n (c.f * 3 + 1) then none else some (fresh_replica e c genesis_hash id)
