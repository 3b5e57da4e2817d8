-- ===== src/Pbft/Ordering/Keyed.antt =====
-- The store of requests, `reqStore` of pbft-core.go, is keyed by the requests' hashes.
use hyperledger_fabric.Base.{string_key}
use hyperledger_fabric.Base.Map.{Entries, Entries-insert}
use hyperledger_fabric.Pbft.Messages.{Request}
use hyperledger_fabric.Pbft.Replica.{Env, Replica, hash_req, emit, panic}
use hyperledger_fabric.Pbft.Quorum.{get_cert, put_cert}
use hyperledger_fabric.Pbft.Timer.{start_timer}
use hyperledger_fabric.Pbft.Ordering.Rules.{Rules}
use hyperledger_fabric.Pbft.Ordering.PrimaryRules.{PrimaryRules}
use Prim.Native.String.{String}
use mathlib.Core.Path.{◌≡◌}
use mathlib.Core.Option.{some}

module _ (e : Env) where
  -- Each stored request stands under its hash.
  abbrev pub IsKeyed : Replica → Type 0
  IsKeyed s = Entries (λ (d : String) (r : Request). hash_req e (some r) ≡ d) s.req_store

  store_rules : Rules IsKeyed
  unfolding get_cert put_cert panic emit
  store_rules = record {
    emits = λ x s sends h. h;
    opens = λ s v n _ h. h;
    prepares = λ p s _ _ _ h. h;
    commits = λ c s _ _ h. h;
    marks_commit = λ s v n _ h. h;
    halts = λ s digest v n _ _ _ h. h;
  }

  pub store_primary_rules : PrimaryRules e IsKeyed
  unfolding put_cert panic start_timer
  store_primary_rules = record {
    base = store_rules;
    pre_prepares = λ p s _ _ h. h;
    marks_prepare = λ s v n _ h. h;
    stores = λ r d s hashed h.
        Entries-insert (λ (d : String) (r : Request). hash_req e (some r) ≡ d) d r s.req_store
          hashed h;
    starts_timer = λ timeout s h. h;
    numbers = λ n s h. h;
    nil_request = λ p s _ _ _ h. h;
  }
