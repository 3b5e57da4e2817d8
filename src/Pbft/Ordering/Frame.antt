-- ===== src/Pbft/Ordering/Frame.antt =====
-- What the handlers of the normal case leave alone.
use hyperledger_fabric.Base.Map.{Map}
use hyperledger_fabric.Pbft.Messages.{Bytes, Checkpoint, ViewChange, ViewChangePq, NewView}
use hyperledger_fabric.Pbft.Replica.{
  Effect, Env, BlockState, Qidx, Replica, Vcidx, execute, broadcast, unicast, view_changed,
  initiate, add_target, emit, panic,
}
use hyperledger_fabric.Pbft.Quorum.{get_cert, put_cert}
use hyperledger_fabric.Pbft.Timer.{start_timer}
use hyperledger_fabric.Pbft.Ordering.Rules.{Rules, IsSending}
use hyperledger_fabric.Pbft.Ordering.PrimaryRules.{PrimaryRules}
use Prim.Native.Nat.{ℕ}
use Prim.Native.String.{String}
use mathlib.Core.Path.{◌≡◌, refl, ◌∙◌, ap}
use mathlib.Core.Bool.{Bool}
use mathlib.Core.List.{List, [], ◌∷◌, ◌++◌, append-nil}

-- The requests that the application was given, with their sequence numbers, oldest first.
abbrev pub executed : List Effect → List (ℕ × Bytes)
executed [] = []
executed (execute n payload ∷ xs) = (n, payload) ∷ executed xs
executed (broadcast m ∷ xs) = executed xs
executed (unicast m to ∷ xs) = executed xs
executed (view_changed v ∷ xs) = executed xs
executed (initiate peers ∷ xs) = executed xs
executed (add_target b hash peers n ∷ xs) = executed xs

pub executed-append : (xs ys : List Effect) → executed (xs ++ ys) ≡ executed xs ++ executed ys
executed-append [] ys = refl
executed-append (execute n payload ∷ xs) ys =
    ap (λ (zs : List (ℕ × Bytes)). (n, payload) ∷ zs) (executed-append xs ys)
executed-append (broadcast m ∷ xs) ys = executed-append xs ys
executed-append (unicast m to ∷ xs) ys = executed-append xs ys
executed-append (view_changed v ∷ xs) ys = executed-append xs ys
executed-append (initiate peers ∷ xs) ys = executed-append xs ys
executed-append (add_target b hash peers n ∷ xs) ys = executed-append xs ys

-- The part of the state that the normal case leaves alone: all but the certificates, the stores of
-- requests, the sequence number, the timer, the commit signal and the messages sent.
pub record Frame : Type 0 where
  pub executing : Bool
  pub active_view : Bool
  pub f : ℕ
  pub n : ℕ
  pub h : ℕ
  pub id : ℕ
  pub k : ℕ
  pub l : ℕ
  pub last_exec : ℕ
  pub replica_count : ℕ
  pub view : ℕ
  pub chkpts : Map ℕ BlockState
  pub pset : Map ℕ ViewChangePq
  pub qset : Map Qidx ViewChangePq
  pub h_chkpts : Map ℕ ℕ
  pub in_progress : Bool
  pub missing_reqs : Map String Bool
  pub checkpoint_store : Map Checkpoint Bool
  pub view_change_store : Map Vcidx ViewChange
  pub new_view_store : Map ℕ NewView
  pub history : List (ℕ × Bytes)

abbrev pub frame : Replica → Frame
frame s = record {
  executing = s.executing;
  active_view = s.active_view;
  f = s.f;
  n = s.n;
  h = s.h;
  id = s.id;
  k = s.k;
  l = s.l;
  last_exec = s.last_exec;
  replica_count = s.replica_count;
  view = s.view;
  chkpts = s.chkpts;
  pset = s.pset;
  qset = s.qset;
  h_chkpts = s.h_chkpts;
  in_progress = s.in_progress;
  missing_reqs = s.missing_reqs;
  checkpoint_store = s.checkpoint_store;
  view_change_store = s.view_change_store;
  new_view_store = s.new_view_store;
  history = executed s.effects;
}

frame-emit : (x : Effect) (s : Replica) → IsSending x → frame (emit x s) ≡ frame s
unfolding emit
frame-emit (broadcast m) s _ =
    ap (λ (l : List (ℕ × Bytes)). record (frame s) { history = l })
      (executed-append s.effects (broadcast m ∷ []) ∙ append-nil (executed s.effects))
frame-emit (unicast m to) s _ =
    ap (λ (l : List (ℕ × Bytes)). record (frame s) { history = l })
      (executed-append s.effects (unicast m to ∷ []) ∙ append-nil (executed s.effects))
frame-emit _ s sends = absurd sends

module _ (fr : Frame) where
  abbrev pub HasFrame : Replica → Type 0
  HasFrame s = frame s ≡ fr

  frame_rules : Rules HasFrame
  unfolding get_cert put_cert panic
  frame_rules = record {
    emits = λ x s sends h. frame-emit x s sends ∙ h;
    opens = λ s v n _ h. h;
    prepares = λ p s _ _ _ h. h;
    commits = λ c s _ _ h. h;
    marks_commit = λ s v n _ h. h;
    halts = λ s digest v n _ _ _ h. h;
  }

  -- Handling requests, pre-prepares, prepares and commits keeps the frame.
  pub frame_primary_rules : (e : Env) → PrimaryRules e HasFrame
  unfolding put_cert panic start_timer
  frame_primary_rules e = record {
    base = frame_rules;
    pre_prepares = λ p s _ _ h. h;
    marks_prepare = λ s v n _ h. h;
    stores = λ r d s _ h. h;
    starts_timer = λ timeout s h. h;
    numbers = λ n s h. h;
    nil_request = λ p s _ _ _ h. h;
  }
