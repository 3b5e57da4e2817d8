-- ===== src/Pbft/Receive/Normal.antt =====
-- The messages of the normal case, received from any sender.
use hyperledger_fabric.Base.{◌==◌, nat_key, if_cases}
use hyperledger_fabric.Pbft.Messages.{
  Message, request_message, pre_prepare_message, prepare_message, commit_message,
}
use hyperledger_fabric.Pbft.Replica.{Env, Outcome, Replica}
use hyperledger_fabric.Pbft.Ordering.Rules.{recv_prepare-kept, recv_commit-kept}
use hyperledger_fabric.Pbft.Ordering.Keyed.{IsKeyed, store_primary_rules}
use hyperledger_fabric.Pbft.Ordering.PrimaryRules.{
  PrimaryRules, recv_pre_prepare-kept, recv_request-kept,
}
use hyperledger_fabric.Pbft.Ordering.Certs.{HasCertificates, certificate_primary_rules}
use hyperledger_fabric.Pbft.Ordering.Frame.{frame, frame_primary_rules}
use hyperledger_fabric.Pbft.Receive.{recv_msg_sync, from_sender}
use Prim.Native.Nat.{ℕ}
use mathlib.Core.Path.{◌≡◌, refl}

-- Requests, pre-prepares, prepares and commits.
abbrev pub IsOrdering : Message → Type 0
IsOrdering (request_message r) = Unit {0}
IsOrdering (pre_prepare_message p) = Unit {0}
IsOrdering (prepare_message p) = Unit {0}
IsOrdering (commit_message c) = Unit {0}
IsOrdering m = ⊥

from_sender-kept :
    (P : Replica → Type 0) (sender named : ℕ) (s : Replica) (o : Outcome)
    → P s
    → P o.0
    → P (from_sender sender named s o).0
from_sender-kept P sender named s o hs ho =
    if_cases (λ (x : Outcome). P x.0) (sender == named) _ _ (λ _. ho) (λ _. hs)

ordering-kept :
    (P : Replica → Type 0) (fuel : ℕ) (e : Env) (m : Message) (sender : ℕ) (s : Replica)
    → PrimaryRules e P
    → IsOrdering m
    → P s
    → P (recv_msg_sync fuel e m sender s).0
unfolding recv_msg_sync
ordering-kept P fuel e (request_message r) sender s rules _ h =
    from_sender-kept P sender r.replica_id s _ h (recv_request-kept rules r s h)
ordering-kept P fuel e (pre_prepare_message p) sender s rules _ h =
    from_sender-kept P sender p.replica_id s _ h (recv_pre_prepare-kept rules p s h)
ordering-kept P fuel e (prepare_message p) sender s rules _ h =
    from_sender-kept P sender p.replica_id s _ h (recv_prepare-kept rules.base e p s h)
ordering-kept P fuel e (commit_message c) sender s rules _ h =
    from_sender-kept P sender c.replica_id s _ h (recv_commit-kept rules.base c s h)
ordering-kept P fuel e m sender s rules wrong h = absurd wrong

-- A request, pre-prepare, prepare or commit, from whomever and however malformed, leaves every
-- certificate well formed if they were so: messages of its own view and number only, one prepare
-- and one commit of each replica at most, and no prepare of the view's primary.
pub ordering-HasCertificates :
    (fuel : ℕ) (e : Env) (m : Message) (sender : ℕ) (s : Replica)
    → IsOrdering m
    → HasCertificates s
    → HasCertificates (recv_msg_sync fuel e m sender s).0
ordering-HasCertificates fuel e m sender s kind h =
    ordering-kept HasCertificates fuel e m sender s (certificate_primary_rules e) kind h

-- A request, pre-prepare, prepare or commit executes nothing and changes neither the view, the
-- watermarks, the number last executed, the checkpoints, the P and Q sets nor the stores of the view
-- change; nor does what the replica sends to itself on the way.
pub ordering-frame :
    (fuel : ℕ) (e : Env) (m : Message) (sender : ℕ) (s : Replica)
    → IsOrdering m
    → frame (recv_msg_sync fuel e m sender s).0 ≡ frame s
ordering-frame fuel e m sender s kind =
    ordering-kept (λ t. frame t ≡ frame s) fuel e m sender s (frame_primary_rules (frame s) e) kind
      refl

-- A request, pre-prepare, prepare or commit, from whomever and however malformed, leaves every stored
-- request under its hash if they were so.
pub ordering-IsKeyed :
    (fuel : ℕ) (e : Env) (m : Message) (sender : ℕ) (s : Replica)
    → IsOrdering m
    → IsKeyed e s
    → IsKeyed e (recv_msg_sync fuel e m sender s).0
ordering-IsKeyed fuel e m sender s kind h =
    ordering-kept (IsKeyed e) fuel e m sender s (store_primary_rules e) kind h
