-- ===== src/Pbft/Tests.antt =====
-- Concrete replicas, and the theorems applied to them.
use hyperledger_fabric.Base.{Bytes, nat_key, string_key, ltb, leb, nat_beq, count}
use hyperledger_fabric.Base.Map.{Map, lookup, insert}
use hyperledger_fabric.Pbft.Messages.{
  Request, PrePrepare, Prepare, Commit, Checkpoint, ViewChangePq, ViewChangeC, ViewChange,
  prepare_message, request_message,
}
use hyperledger_fabric.Pbft.Replica.{Env, Replica, done, hash_req}
use hyperledger_fabric.Pbft.Quorum.{
  primary, in_w, in_wv, intersection_quorum, all_correct_replicas_quorum, pre_prepared, prepared,
  committed, msg_id,
}
use hyperledger_fabric.Pbft.Quorum.Window.{in_w_iff}
use hyperledger_fabric.Pbft.Quorum.Intersection.{
  members, quorums_share_correct, quorums_may_share_faulty_only, all_correct_replicas_quorum-lt,
}
use hyperledger_fabric.Pbft.Agreement.{IsCurrent}
use hyperledger_fabric.Pbft.Ordering.Certs.{HasCertificates}
use hyperledger_fabric.Pbft.Ordering.Frame.{frame, executed}
use hyperledger_fabric.Pbft.Ordering.{recv_pre_prepare}
use hyperledger_fabric.Pbft.Ordering.Keyed.{IsKeyed}
use hyperledger_fabric.Pbft.Ordering.NilRequest.{recv_pre_prepare-crashes}
use hyperledger_fabric.Pbft.Checkpoints.{
  matching_checkpoints, seq_numbers, weak_mark, witness_checkpoint,
}
use hyperledger_fabric.Pbft.Checkpoints.WeakMark.{weak_mark_lem}
use hyperledger_fabric.Pbft.Checkpoints.Ahead.{FewAhead, witness_checkpoint-FewAhead}
use hyperledger_fabric.Pbft.Execution.{ready, begin_execution}
use hyperledger_fabric.Pbft.Execution.Order.{begin_execution-request, ready-agree}
use hyperledger_fabric.Pbft.Receive.{recv_msg_sync, recv_checkpoint}
use hyperledger_fabric.Pbft.Receive.Normal.{
  ordering-HasCertificates, ordering-frame, ordering-IsKeyed,
}
use hyperledger_fabric.Pbft.Receive.Stable.{h-recv_checkpoint}
use hyperledger_fabric.Pbft.ViewChange.{select_initial_checkpoint}
use hyperledger_fabric.Pbft.ViewChange.Selected.{
  IsSupported, select_initial_checkpoint-highest, select_initial_checkpoint-repeated,
}
use hyperledger_fabric.Pbft.Start.{Config, new_pbft_core, fresh_replica}
use Prim.Native.Nat.{ℕ, ◌-◌, ◌≤◌, ◌<◌}
use Prim.Native.String.{String}
use mathlib.Core.Path.{◌≡◌, refl}
use mathlib.Core.Logic.{◌↔◌}
use mathlib.Core.Bool.{Bool, true, false}
use mathlib.Core.Option.{none, some}
use mathlib.Core.List.{List, [], ◌∷◌}
use native.Mathlib.Omega.{arith}

-- Every request hashes to "q"; nothing fails.
abbrev env : Env
env = record {
  marshal_request = λ _. [];
  crypto_hash = λ b. b;
  encode_base64 = λ _. "q";
  decode_base64 = λ _. some [];
  marshal = λ _. none;
  validate = λ _. none;
  serialize = λ _. some [];
  sign_raw = λ b. some b;
  verify_raw = λ _ _ _. none;
  unicast_error = λ _ _. none;
  last_block = λ _. some (1, []);
  byzantine_draw = λ _. 0;
  ignored_replica = λ _. 0;
}

abbrev four : Config
four = record {
  n = 4;
  f = 1;
  k = 2;
  log_multiplier = 2;
  byzantine = false;
  request_timeout = 10;
  new_view_timeout = 20;
}

abbrev ask : Request
ask = record { timestamp = none; payload = 7 ∷ []; replica_id = 0 }

abbrev first : PrePrepare
first = record {
  view = 0;
  sequence_number = 1;
  request_digest = "q";
  request = some ask;
  replica_id = 0;
}

abbrev vote : ℕ → Prepare
vote i = record { view = 0; sequence_number = 1; request_digest = "q"; replica_id = i }

abbrev sure : ℕ → Commit
sure i = record { view = 0; sequence_number = 1; request_digest = "q"; replica_id = i }

abbrev backup : Replica
backup = record {
  executing = false;
  notify_commit = false;
  active_view = true;
  byzantine = false;
  f = 1;
  n = 4;
  h = 0;
  id = 1;
  k = 2;
  log_multiplier = 2;
  l = 4;
  last_exec = 0;
  replica_count = 4;
  seq_no = 0;
  view = 0;
  chkpts = (0, record { block_number = 0; block_hash = "q" }) ∷ [];
  pset = [];
  qset = [];
  h_chkpts = [];
  in_progress = false;
  pending = false;
  timer_active = false;
  request_timeout = 10;
  new_view_timeout = 20;
  last_new_view_timeout = 20;
  outstanding_reqs = [];
  timer_expired_count = 0;
  timer_reset_count = 1;
  missing_reqs = [];
  req_store = [];
  cert_store = [];
  checkpoint_store = [];
  view_change_store = [];
  new_view_store = [];
  effects = [];
  crashed = false;
}

backup_starts : new_pbft_core env four (some []) 1 ≡ some backup
unfolding new_pbft_core fresh_replica insert
backup_starts = refl

-- A backup with a commit certificate for the first request.
abbrev voted : Replica
voted = record backup {
  req_store = ("q", ask) ∷ [];
  outstanding_reqs = ("q", ask) ∷ [];
  cert_store =
      (
        msg_id 0 1,
        record {
          pre_prepare = some first;
          sent_prepare = true;
          prepare = vote 1 ∷ vote 2 ∷ [];
          sent_commit = true;
          commit = sure 0 ∷ sure 1 ∷ sure 2 ∷ [];
        },
      )
      ∷ [];
}

in_w_iff_example : (in_w backup 3 ≡ true) ↔ ((0 < 3) × (3 ≤ 4))
in_w_iff_example = in_w_iff backup 3 (omega arith) (omega arith)

abbrev low_three : ℕ → Bool
low_three i = ltb i 3

abbrev only_zero : ℕ → Bool
only_zero i = ltb i 1

quorums_share_correct_example :
    (i : ℕ) × (i < 4) × ((low_three i ≡ true) × (leb 1 i ≡ true)) × (only_zero i ≡ false)
quorums_share_correct_example =
    quorums_share_correct backup low_three (λ i. leb 1 i) only_zero (omega arith)
      (unfold intersection_quorum in omega arith) (unfold intersection_quorum in omega arith)
      (omega arith)

-- Five replicas and one fault: three form a quorum.
abbrev five : Replica
five = record backup { n = 5; replica_count = 5 }

quorums_may_share_faulty_only_example :
    (p : (ℕ → Bool)) × (q : (ℕ → Bool)) × (faulty : (ℕ → Bool)) × (intersection_quorum five
      ≤ members 5 p)
    × (intersection_quorum five ≤ members 5 q)
    × (members 5 faulty ≤ 1)
    × ((i : ℕ) → p i ≡ true → q i ≡ true → faulty i ≡ true)
quorums_may_share_faulty_only_example =
    quorums_may_share_faulty_only five (omega arith) (omega arith)

all_correct_replicas_quorum-lt_example : all_correct_replicas_quorum five < 5 - 1
all_correct_replicas_quorum-lt_example = all_correct_replicas_quorum-lt five (omega arith)

voted-IsCurrent : IsCurrent voted 0 1
unfolding lookup primary
voted-IsCurrent = record {
  distinct = (refl, (refl, tt));
  by_replicas = (omega arith, (omega arith, tt));
  by_backups = refl;
  primary_known = omega arith;
  no_p = λ d. refl;
  no_q = λ d. refl;
}

voted-ready : ready voted (msg_id 0 1) ≡ some first
unfolding ready committed prepared pre_prepared lookup intersection_quorum
voted-ready = refl

abbrev another : Replica
another = record voted { id = 2 }

another-IsCurrent : IsCurrent another 0 1
unfolding lookup primary
another-IsCurrent = record {
  distinct = (refl, (refl, tt));
  by_replicas = (omega arith, (omega arith, tt));
  by_backups = refl;
  primary_known = omega arith;
  no_p = λ d. refl;
  no_q = λ d. refl;
}

another-ready : ready another (msg_id 0 1) ≡ some first
unfolding ready committed prepared pre_prepared lookup intersection_quorum
another-ready = refl

ready-agree_example :
    ◌≡◌ {A = String} "q" "q"
    × ((given : List (ℕ × Bytes)) × (executed (begin_execution first (msg_id 0 1) voted).effects
          ≡ given)
        × (executed (begin_execution first (msg_id 0 1) another).effects ≡ given))
    × ((begin_execution first (msg_id 0 1) voted).last_exec ≡ 1)
    × ((begin_execution first (msg_id 0 1) another).last_exec ≡ 1)
unfolding hash_req
ready-agree_example =
    ready-agree env voted another (msg_id 0 1) first first (λ i. nat_beq i 3) voted-IsCurrent
      another-IsCurrent refl refl refl (omega arith) (λ j _ _ _. refl) (refl, tt) (refl, tt)
      (λ a b in_voted in_another _. cc) voted-ready another-ready

begin_execution-request_example :
    (r : Request) × (lookup "q" voted.req_store ≡ some r)
    × (executed (begin_execution first (msg_id 0 1) voted).effects ≡ (1, r.payload) ∷ [])
    × ((begin_execution first (msg_id 0 1) voted).last_exec ≡ 1)
    × ((begin_execution first (msg_id 0 1) voted).crashed ≡ false)
    × (committed voted "q" 0 1 ≡ true)
begin_execution-request_example = begin_execution-request voted (msg_id 0 1) first voted-ready cc

voted-HasCertificates : HasCertificates voted
voted-HasCertificates = (
  record {
    pre_prepared_here = (refl, refl);
    prepared_here = ((refl, refl), ((refl, refl), tt));
    one_prepare_each = (refl, (refl, tt));
    no_prepare_by_leader = refl;
    committed_here = ((refl, refl), ((refl, refl), ((refl, refl), tt)));
    one_commit_each = (refl, (refl, (refl, tt)));
  },
  tt,
)

ordering-HasCertificates_example :
    HasCertificates (recv_msg_sync 1 env (prepare_message (vote 3)) 3 voted).0
ordering-HasCertificates_example =
    ordering-HasCertificates 1 env (prepare_message (vote 3)) 3 voted tt voted-HasCertificates

ordering-frame_example :
    frame (recv_msg_sync 1 env (prepare_message (vote 3)) 3 voted).0 ≡ frame voted
ordering-frame_example = ordering-frame 1 env (prepare_message (vote 3)) 3 voted tt

abbrev seen : Map ℕ ℕ
seen = (0, 9) ∷ (1, 5) ∷ (2, 7) ∷ []

weak_mark_lem_example :
    (2 ≤ count (λ x. leb (weak_mark 1 seen) x) (seq_numbers seen))
    × (count (λ x. ltb (weak_mark 1 seen) x) (seq_numbers seen) ≤ 1)
weak_mark_lem_example = weak_mark_lem 1 seen (omega arith)

abbrev far : Checkpoint
far = record { sequence_number = 8; replica_id = 3; block_number = 8; block_hash = "q" }

-- One replica is seen far ahead already.
abbrev behind : Replica
behind = record backup { h_chkpts = (2, 9) ∷ [] }

witness_checkpoint-FewAhead_example : FewAhead (witness_checkpoint env far behind)
witness_checkpoint-FewAhead_example =
    witness_checkpoint-FewAhead env far behind (omega arith) (omega arith)

abbrev forged : ℕ → Checkpoint
forged b = record { sequence_number = 2; replica_id = 3; block_number = b; block_hash = "q" }

-- Two entries, both sent by replica 3, which reports different blocks.
abbrev misled : Replica
misled = record backup {
  chkpts = (2, record { block_number = 2; block_hash = "q" }) ∷ [];
  checkpoint_store = (forged 0, true) ∷ (forged 1, true) ∷ [];
}

h-recv_checkpoint_example : (recv_checkpoint done env (forged 2) misled).0.h ≡ 2
unfolding intersection_quorum matching_checkpoints lookup
h-recv_checkpoint_example =
    h-recv_checkpoint done env (forged 2) misled (omega arith) (omega arith) (omega arith) refl refl
      refl

abbrev bare : PrePrepare
bare = record {
  view = 0;
  sequence_number = 1;
  request_digest = "q";
  request = none;
  replica_id = 0;
}

recv_pre_prepare-crashes_example : (recv_pre_prepare env bare backup).0.crashed ≡ true
unfolding primary in_wv in_w hash_req lookup
recv_pre_prepare-crashes_example =
    recv_pre_prepare-crashes env bare backup refl refl refl refl refl refl

abbrev entry : ViewChangePq
entry = record { sequence_number = 1; digest = "q"; view = 0 }

abbrev leaving : ℕ → ViewChange
leaving i = record {
  view = 1;
  h = 0;
  cset = [];
  pset = entry ∷ [];
  qset = entry ∷ [];
  replica_id = i;
  signature = [];
}

abbrev leavers : List ViewChange
leavers = leaving 1 ∷ leaving 2 ∷ leaving 3 ∷ []

abbrev genesis_checkpoint : ViewChangeC
genesis_checkpoint = record { sequence_number = 0; block_number = 0; block_hash = "q" }

abbrev from_genesis : ℕ → ViewChange
from_genesis i = record (leaving i) { cset = genesis_checkpoint ∷ [] }

abbrev beginners : List ViewChange
beginners = from_genesis 1 ∷ from_genesis 2 ∷ from_genesis 3 ∷ []

select_initial_checkpoint-highest_example :
    ((select_initial_checkpoint backup beginners).1 ≡ true
      → IsSupported backup beginners (select_initial_checkpoint backup beginners).0)
    × ((c : ViewChangeC)
        → IsSupported backup beginners c
        → ((select_initial_checkpoint backup beginners).1 ≡ true)
          × (c.sequence_number ≤ (select_initial_checkpoint backup beginners).0.sequence_number))
select_initial_checkpoint-highest_example =
    select_initial_checkpoint-highest backup beginners ((refl, tt), ((refl, tt), ((refl, tt), tt)))

-- A replica that lists one checkpoint three times.
abbrev made_up : ViewChangeC
made_up = record { sequence_number = 8; block_number = 3; block_hash = "r" }

abbrev repeating : ViewChange
repeating = record (leaving 3) { cset = made_up ∷ made_up ∷ made_up ∷ [] }

select_initial_checkpoint-repeated_example :
    ((select_initial_checkpoint backup (from_genesis 1 ∷ from_genesis 2 ∷ repeating ∷ [])).1 ≡ true)
    × (8
        ≤ (select_initial_checkpoint backup
            (from_genesis 1 ∷ from_genesis 2 ∷ repeating ∷ [])).0.sequence_number)
select_initial_checkpoint-repeated_example =
    select_initial_checkpoint-repeated backup made_up repeating
      (from_genesis 1 ∷ from_genesis 2 ∷ []) [] (omega arith)
      (unfold intersection_quorum in omega arith) (omega arith)

ordering-IsKeyed_example : IsKeyed env (recv_msg_sync 1 env (request_message ask) 0 voted).0
unfolding hash_req
ordering-IsKeyed_example = ordering-IsKeyed 1 env (request_message ask) 0 voted tt (refl, tt)
