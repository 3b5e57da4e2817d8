-- ===== src/Pbft/NewView.antt =====
-- The view-change handlers of openchain/consensus/obcpbft/viewchange.go. `sendViewChange` handles
-- its own message, and handling a view change or a new view may send another: the functions call
-- one another in a circle. Each takes `send`, what `sendViewChange` does, and `send_view_change`
-- closes the circle on fuel. Durations are not bounded.
use hyperledger_fabric.Base.{◌==◌, nat_key, string_key, ltb, leb, if◌then◌else◌, all, count, length}
use hyperledger_fabric.Base.Map.{Map, lookup, insert, delete, member}
use hyperledger_fabric.Pbft.Messages.{
  ViewChange, ViewChangeC, PrePrepare, Prepare, NewView, FetchRequest, view_change_message,
  new_view_message, prepare_message, fetch_request_message,
}
use hyperledger_fabric.Pbft.Replica.{
  Env, Outcome, Replica, Vcidx, vcidx_key, view_changed, add_target, u64, done, emit, panic,
}
use hyperledger_fabric.Pbft.Quorum.{primary, cert_at, put_cert, all_correct_replicas_quorum}
use hyperledger_fabric.Pbft.Timer.{start_timer}
use hyperledger_fabric.Pbft.Ordering.{inner_broadcast, not_to_self, recv_prepare, resubmit_requests}
use hyperledger_fabric.Pbft.Checkpoints.{move_watermarks, sts_initiate}
use hyperledger_fabric.Pbft.ViewChange.{
  verify, correct_view_change, enter_next_view, view_change_of, select_initial_checkpoint,
}
use hyperledger_fabric.Pbft.Assignment.{assign_sequence_numbers}
use Prim.Native.Nat.{ℕ, zero, suc, ◌+◌, ◌*◌}
use Prim.Native.String.{String}
use mathlib.Core.Bool.{Bool, true, false, not, ◌&&◌, ◌||◌}
use mathlib.Core.Option.{Option, none, some}
use mathlib.Core.List.{List, [], ◌∷◌, ◌++◌, map}

-- Pre-prepares of the new view, and the sequence number moved up to the highest.
unfoldable pub install_pre_prepares : Map ℕ String → Replica → Replica
install_pre_prepares [] s = s
install_pre_prepares ((n, d) ∷ rest) s =
    let p : PrePrepare = record {
      view = s.view;
      sequence_number = n;
      request_digest = d;
      request = none;
      replica_id = s.id;
    } in
    let t = put_cert s s.view n (record (cert_at s s.view n) { pre_prepare = some p }) in
    install_pre_prepares rest (record t { seq_no = if ltb t.seq_no n then n else t.seq_no })

-- A backup's prepares. Each is in its certificate before the replica handles its own message.
unfoldable pub install_prepares : Env → Map ℕ String → Replica → Replica
install_prepares e [] s = s
install_prepares e ((n, d) ∷ rest) s =
    let p : Prepare = record {
      view = s.view;
      sequence_number = n;
      request_digest = d;
      replica_id = s.id;
    } in
    let cert = cert_at s s.view n in
    let t =
      put_cert s s.view n (record cert { prepare = cert.prepare ++ p ∷ []; sent_prepare = true }) in
    install_prepares e rest
      (inner_broadcast e (prepare_message p) (λ u. (recv_prepare e p u).0) t).0

unfoldable pub process_new_view2 : Env → NewView → Replica → Replica
process_new_view2 e nv s =
    let t = record s {
      active_view = true;
      new_view_store = delete (u64 (s.view + 18446744073709551615)) s.new_view_store;
    } in
    let u = install_pre_prepares nv.xset t in
    let w =
      if not (primary u u.view == u.id)
      then install_prepares e nv.xset u
      else resubmit_requests e u in
    emit (view_changed w.view) w

-- The loop over the X set for requests that are missing, with `newRequestMissing` so far.
unfoldable pub find_missing : Map ℕ String → Replica × Bool → Replica × Bool
find_missing [] acc = acc
find_missing ((n, d) ∷ rest) (s, asked) = find_missing rest (
    if leb n s.h || (d == "" || (member d s.req_store || member d s.missing_reqs))
    then (s, asked)
    else (record s { missing_reqs = insert d true s.missing_reqs }, true))

unfoldable pub fetch_requests : Env → Map String Bool → Replica → Replica
fetch_requests e [] s = s
fetch_requests e ((d, _) ∷ rest) s =
    let fr : FetchRequest = record { request_digest = d; replica_id = s.id } in
    fetch_requests e rest (inner_broadcast e (fetch_request_message fr) not_to_self s).0

-- The end of `processNewView`: the new view is entered once no request is missing.
unfoldable pub enter_or_fetch : Env → NewView → Replica → Replica
enter_or_fetch e nv s =
    let (t, asked) = find_missing nv.xset (s, false) in
    if length t.missing_reqs == 0
    then process_new_view2 e nv t
    else if asked
    then fetch_requests e t.missing_reqs t
    else t

-- The base checkpoint of the new view is above the low watermark: a state transfer towards it.
unfoldable pub adopt_base : Env → ViewChangeC → (Replica → Replica) → Replica → Replica
adopt_base e cp rest s =
    let t = sts_initiate [] (move_watermarks e cp.sequence_number s) in
    elim (e.decode_base64 cp.block_hash) [
      | none ↦ t
      | some hash ↦ rest (emit (add_target cp.block_number hash [] cp.sequence_number) t)
    ]

-- `reflect.DeepEqual` of two maps.
unfoldable pub same_map : Map ℕ String → Map ℕ String → Bool
same_map a b =
    length a == length b
    && all (λ (x : ℕ × String). elim (lookup x.0 b) [ none ↦ false | some d ↦ d == x.1 ]) a

abbrev pub same_xset : Option (Map ℕ String) → Map ℕ String → Bool
same_xset none xset = false
same_xset (some msgs) xset = same_map msgs xset

unfoldable pub process_stored : (Replica → Outcome) → Env → NewView → Replica → Outcome
process_stored send e nv s =
    let (cp, found) = select_initial_checkpoint s nv.vset in
    if not found
    then send s
    else if not (same_xset (assign_sequence_numbers s nv.vset cp.sequence_number) nv.xset)
    then send s
    else if ltb s.h cp.sequence_number
    then done (adopt_base e cp (enter_or_fetch e nv) s)
    else done (enter_or_fetch e nv s)

unfoldable pub process_new_view : (Replica → Outcome) → Env → Replica → Outcome
process_new_view send e s = elim (lookup s.view s.new_view_store) [
  | none ↦ done s
  | some nv ↦ if s.active_view then done s else process_stored send e nv s
]

abbrev store_and_process : (Replica → Outcome) → Env → NewView → Outcome → Outcome
store_and_process send e nv (s, some x) = (s, some x)
store_and_process send e nv (s, none) =
    process_new_view send e (record s { new_view_store = insert s.view nv s.new_view_store })

abbrev propose : (Replica → Outcome) → Env → Option (Map ℕ String) → Replica → Outcome
propose send e none s = done s
propose send e (some msgs) s =
    let nv : NewView = record {
      view = s.view;
      vset = map (λ (x : Vcidx × ViewChange). x.1) s.view_change_store;
      xset = msgs;
      replica_id = s.id;
    } in
    store_and_process send e nv (inner_broadcast e (new_view_message nv) not_to_self s)

unfoldable pub send_new_view : (Replica → Outcome) → Env → Replica → Outcome
send_new_view send e s =
    let vset = map (λ (x : Vcidx × ViewChange). x.1) s.view_change_store in
    let (cp, found) = select_initial_checkpoint s vset in
    if member s.view s.new_view_store
    then done s
    else if not found
    then done s
    else propose send e (assign_sequence_numbers s vset cp.sequence_number) s

unfoldable pub verify_all : Env → List ViewChange → Bool
verify_all e [] = true
verify_all e (vc ∷ vcs) = elim (verify e vc) [ some x ↦ false | none ↦ verify_all e vcs ]

unfoldable pub recv_new_view : (Replica → Outcome) → Env → NewView → Replica → Outcome
recv_new_view send e nv s =
    if not (
      ltb 0 nv.view
      && (leb s.view nv.view
          && (primary s nv.view == nv.replica_id && not (member nv.view s.new_view_store))))
    then done s
    else if not (verify_all e nv.vset)
    then done s
    else process_new_view send e (record s { new_view_store = insert nv.view nv s.new_view_store })

-- The replicas that ask for a later view, each once, and the smallest such view.
unfoldable pub later_replicas : ℕ → Map Vcidx ViewChange → Map ℕ Bool
later_replicas v [] = []
later_replicas v ((i, _) ∷ rest) =
    let others = later_replicas v rest in if leb i.v v then others else insert i.id true others

unfoldable pub min_view : ℕ → ℕ → Map Vcidx ViewChange → ℕ
min_view v least [] = least
min_view v least ((i, _) ∷ rest) =
    min_view v (if not (leb i.v v) && (least == 0 || ltb i.v least) then i.v else least) rest

unfoldable pub votes_for : ℕ → Map Vcidx ViewChange → ℕ
votes_for v m = count (λ (x : Vcidx × ViewChange). x.0.v == v) m

-- The quorum test of `recvViewChange`, once the message is stored.
unfoldable pub count_votes : (Replica → Outcome) → Env → ViewChange → Replica → Outcome
count_votes send e vc s =
    let t = record (start_timer s s.last_new_view_timeout) {
      last_new_view_timeout = 2 * s.last_new_view_timeout;
    } in
    if vc.view == s.view && votes_for s.view s.view_change_store == all_correct_replicas_quorum s
    then (if primary t t.view == t.id then send_new_view send e t else process_new_view send e t)
    else process_new_view send e s

unfoldable pub recv_view_change : (Replica → Outcome) → Env → ViewChange → Replica → Outcome
recv_view_change send e vc s = elim (verify e vc) [
  | some x ↦ done s
  | none ↦
      let i : Vcidx = record { v = vc.view; id = vc.replica_id } in
      let t = record s { view_change_store = insert i vc s.view_change_store } in
      if not
        (leb s.view vc.view && (correct_view_change s vc && not (member i s.view_change_store)))
      then done s
      else if leb (t.f + 1) (length (later_replicas t.view t.view_change_store))
      then send
          (record t { view = u64 (min_view t.view 0 t.view_change_store + 18446744073709551615) })
      else count_votes send e vc t
]

unfoldable pub send_view_change : ℕ → Env → Replica → Outcome
send_view_change zero e s = done (panic s)
send_view_change (suc fuel) e s =
    let t = enter_next_view s in
    let vc = view_change_of e t in
    inner_broadcast e (view_change_message vc)
      (λ u. (recv_view_change (send_view_change fuel e) e vc u).0) t
