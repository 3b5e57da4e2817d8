-- ===== src/Pbft/ViewChange/Selected.antt =====
-- What `selectInitialCheckpoint` of viewchange.go selects.
use hyperledger_fabric.Base.{
  leb, if◌then◌else◌, if_cases, Option-cases, Bool-cases, length, count, &&-left, All, ◌==◌,
}
use hyperledger_fabric.Base.Map.{Map, lookup, Entries}
use hyperledger_fabric.Pbft.Messages.{ViewChange, ViewChangeC, view_change_c_key}
use hyperledger_fabric.Pbft.Replica.{Replica}
use hyperledger_fabric.Pbft.Quorum.{intersection_quorum}
use hyperledger_fabric.Pbft.ViewChange.{
  is_candidate, pick_checkpoint, collect_checkpoints, select_initial_checkpoint, zero_checkpoint,
}
use hyperledger_fabric.Pbft.ViewChange.Carriers.{
  carriers, carries, ListsOnce, count-all, count-carriers, count-carriers_one, found,
  found-collect_checkpoints, collected-carriers,
}
use Prim.Native.Nat.{ℕ, ◌≤◌, ◌<◌}
use mathlib.Core.Path.{fun_ext, ◌≡◌, refl, sym, ap, ◌∙◌, subst, subst₂}
use mathlib.Core.Logic.{◌↔◌, inl, inr}
use mathlib.Core.Bool.{Bool, true, false, ◌&&◌, true≢false, and-true}
use mathlib.Core.Option.{some}
use mathlib.Core.List.{List, [], ◌∷◌, ◌++◌}
use native.Mathlib.Omega.{arith}

module _ (s : Replica) where
  abbrev step : ViewChangeC → List ViewChange → ViewChangeC × Bool → ViewChangeC × Bool
  step c vcs best =
      if is_candidate s c vcs && leb best.0.sequence_number c.sequence_number
      then (c, true)
      else best

  no_carriers : (c : ViewChangeC) → is_candidate s c [] ≡ false
  unfolding is_candidate
  no_carriers c = ground arith

  -- A checkpoint of at least a number is selected.
  abbrev Above : ℕ → ViewChangeC × Bool → Type 0
  Above n best = (best.1 ≡ true) × (n ≤ best.0.sequence_number)

  -- Nothing is selected with a number above 0 unless `ok` is set.
  abbrev IsFresh : ViewChangeC × Bool → Type 0
  IsFresh best = best.1 ≡ false → best.0.sequence_number ≡ 0

  step-Above :
      (n : ℕ) (c : ViewChangeC) (vcs : List ViewChange) (best : ViewChangeC × Bool)
      → Above n best
      → Above n (step c vcs best)
  step-Above n c vcs best (ok, le) =
      if_cases (Above n) (is_candidate s c vcs && leb best.0.sequence_number c.sequence_number)
        (c, true) best (λ passes. (refl, ground (arith, le, passes))) (λ _. (ok, le))

  step-candidate :
      (c : ViewChangeC) (vcs : List ViewChange) (best : ViewChangeC × Bool)
      → IsFresh best
      → is_candidate s c vcs ≡ true
      → Above c.sequence_number (step c vcs best)
  step-candidate c vcs (b, true) fresh passes = ground arith
  step-candidate c vcs (b, false) fresh passes = ground (arith, fresh refl)

  step-IsFresh :
      (c : ViewChangeC) (vcs : List ViewChange) (best : ViewChangeC × Bool)
      → IsFresh best
      → IsFresh (step c vcs best)
  step-IsFresh c vcs best fresh =
      if_cases IsFresh (is_candidate s c vcs && leb best.0.sequence_number c.sequence_number)
        (c, true) best (λ _ e. cc) (λ _. fresh)

  pick_checkpoint-Above :
      (n : ℕ) (m : Map ViewChangeC (List ViewChange)) (best : ViewChangeC × Bool)
      → Above n best
      → Above n (pick_checkpoint s m best)
  unfolding pick_checkpoint
  pick_checkpoint-Above n [] best h = h
  pick_checkpoint-Above n ((c, vcs) ∷ m) best h =
      pick_checkpoint-Above n m (step c vcs best) (step-Above n c vcs best h)

  pick_checkpoint-candidate :
      (c : ViewChangeC) (vcs : List ViewChange) (m : Map ViewChangeC (List ViewChange))
      (best : ViewChangeC × Bool)
      → IsFresh best
      → lookup c m ≡ some vcs
      → is_candidate s c vcs ≡ true
      → Above c.sequence_number (pick_checkpoint s m best)
  unfolding pick_checkpoint lookup
  pick_checkpoint-candidate c vcs [] best fresh here passes = cc here
  pick_checkpoint-candidate c vcs ((d, ws) ∷ m) best fresh here passes =
      elim (Bool-cases (view_change_c_key.same d c)) [
        | inl same ↦
            let dc : d ≡ c = (view_change_c_key.same_iff d c).0 same in
            let q : some ws ≡ some vcs = rw same at here in
            pick_checkpoint-Above c.sequence_number m (step d ws best) (
              subst (λ (x : ViewChangeC). Above x.sequence_number (step d ws best)) dc
                (step-candidate d ws best fresh
                  (subst₂ (λ x y. is_candidate s x y ≡ true) (sym dc) (cc q) passes)))
        | inr other ↦
            pick_checkpoint-candidate c vcs m (step d ws best) (step-IsFresh d ws best fresh)
              (rw other at here) passes
      ]

  module _ (vset : List ViewChange) where
    abbrev IsCarried : ViewChangeC × Bool → Type 0
    IsCarried best = best.1 ≡ true → is_candidate s best.0 (carriers best.0 vset) ≡ true

    pick_checkpoint-IsCarried :
        (m : Map ViewChangeC (List ViewChange)) (best : ViewChangeC × Bool)
        → Entries (λ (c : ViewChangeC) (vcs : List ViewChange). vcs ≡ carriers c vset) m
        → IsCarried best
        → IsCarried (pick_checkpoint s m best)
    unfolding pick_checkpoint
    pick_checkpoint-IsCarried [] best _ h = h
    pick_checkpoint-IsCarried ((c, vcs) ∷ m) best (carried, others) h =
        pick_checkpoint-IsCarried m (step c vcs best) others (
          if_cases IsCarried (is_candidate s c vcs && leb best.0.sequence_number c.sequence_number)
            (c, true) best
            (λ passes _.
              subst (λ x. is_candidate s c x ≡ true) carried
                (&&-left (is_candidate s c vcs) (leb best.0.sequence_number c.sequence_number)
                  passes))
            (λ _. h))

    -- In the code's terms: what is selected passes the tests, and lies highest among what does.
    highest_candidate :
        ((select_initial_checkpoint s vset).1 ≡ true
          → is_candidate s
              (select_initial_checkpoint s vset).0
              (carriers (select_initial_checkpoint s vset).0 vset)
            ≡ true)
        × ((c : ViewChangeC)
            → is_candidate s c (carriers c vset) ≡ true
            → ((select_initial_checkpoint s vset).1 ≡ true)
              × (c.sequence_number ≤ (select_initial_checkpoint s vset).0.sequence_number))
    unfolding select_initial_checkpoint lookup
    highest_candidate = (
      pick_checkpoint-IsCarried (collect_checkpoints vset []) (zero_checkpoint, false)
          (collected-carriers vset) (λ e. cc e),
      λ c passes.
          let all = found-collect_checkpoints vset c [] in
          elim (Option-cases (lookup c (collect_checkpoints vset []))) [
            | inl missing ↦ absurd (
                true≢false
                  (sym passes ∙ ap (is_candidate s c) (sym all ∙ ap found missing) ∙ no_carriers c))
            | inr (vcs, here) ↦
                pick_checkpoint-candidate c vcs (collect_checkpoints vset [])
                  (zero_checkpoint, false) (λ _. refl) here (rw (ap found (sym here) ∙ all) passes)
          ],
    )

  candidate_iff :
      (c : ViewChangeC) (vcs : List ViewChange)
      → (is_candidate s c vcs ≡ true) ↔ (
          (s.f < length vcs)
          × (intersection_quorum s ≤ count (λ (vc : ViewChange). leb vc.h c.sequence_number) vcs))
  unfolding is_candidate
  candidate_iff c vcs = (λ h. (ground arith, ground arith), λ (more, quorum). ground arith)

  -- More than f of the view changes carry a checkpoint, and a quorum of them carry it and have their low
  -- watermark at or below it.
  pub record IsSupported (vset : List ViewChange) (c : ViewChangeC) : Type 0 where
    pub certified : s.f < count (carries c) vset
    pub quorum :
        intersection_quorum s
        ≤ count (λ (vc : ViewChange). carries c vc && leb vc.h c.sequence_number) vset

  length-carriers :
      (c : ViewChangeC) (vset : List ViewChange)
      → All (λ (vc : ViewChange). ListsOnce vc.cset) vset
      → length (carriers c vset) ≡ count (carries c) vset
  length-carriers c vset once =
      sym (count-all (carriers c vset))
      ∙ (count-carriers (λ _. true) c vset once
          ∙ ap (λ p. count p vset) (fun_ext (λ (vc : ViewChange). and-true (carries c vc))))

  candidate-IsSupported :
      (c : ViewChangeC) (vset : List ViewChange)
      → All (λ (vc : ViewChange). ListsOnce vc.cset) vset
      → (is_candidate s c (carriers c vset) ≡ true) ↔ IsSupported vset c
  candidate-IsSupported c vset once =
      let below = λ (vc : ViewChange). leb vc.h c.sequence_number in
      let all = length-carriers c vset once in
      let low = count-carriers below c vset once in
      (
        λ h. record {
          certified = omega (arith, all, ((candidate_iff c (carriers c vset)).0 h).0);
          quorum = omega (arith, low, ((candidate_iff c (carriers c vset)).0 h).1);
        },
        λ h.
            (candidate_iff c (carriers c vset)).1
              (omega (arith, all, h.certified), omega (arith, low, h.quorum)),
      )

  -- When none of the view changes lists a checkpoint twice: if `selectInitialCheckpoint` answers `ok`,
  -- its checkpoint is carried by more than f of them, and by a quorum whose low watermarks lie at or
  -- below it. Each checkpoint that is so supported makes it answer `ok`, and does not lie above the one
  -- selected.
  pub select_initial_checkpoint-highest :
      (vset : List ViewChange)
      → All (λ (vc : ViewChange). ListsOnce vc.cset) vset
      → ((select_initial_checkpoint s vset).1 ≡ true
          → IsSupported vset (select_initial_checkpoint s vset).0)
        × ((c : ViewChangeC)
            → IsSupported vset c
            → ((select_initial_checkpoint s vset).1 ≡ true)
              × (c.sequence_number ≤ (select_initial_checkpoint s vset).0.sequence_number))
  select_initial_checkpoint-highest vset once = (
    λ ok.
        (candidate-IsSupported (select_initial_checkpoint s vset).0 vset once).0
          ((highest_candidate vset).0 ok),
    λ c supported. (highest_candidate vset).1 c ((candidate-IsSupported c vset once).1 supported),
  )

  -- One view change that lists a checkpoint a quorum of times, and more than f times, with its low
  -- watermark at or below it, makes `selectInitialCheckpoint` answer `ok` with a checkpoint that does not
  -- lie below this one, whatever the other view changes are.
  pub select_initial_checkpoint-repeated :
      (c : ViewChangeC) (vc : ViewChange) (before after : List ViewChange)
      → s.f < count (λ (x : ViewChangeC). x == c) vc.cset
      → intersection_quorum s ≤ count (λ (x : ViewChangeC). x == c) vc.cset
      → vc.h ≤ c.sequence_number
      → ((select_initial_checkpoint s (before ++ vc ∷ after)).1 ≡ true)
        × (c.sequence_number
            ≤ (select_initial_checkpoint s (before ++ vc ∷ after)).0.sequence_number)
  select_initial_checkpoint-repeated c vc before after more quorum low =
      let vset = before ++ vc ∷ after in
      (highest_candidate vset).1 c (
        (candidate_iff c (carriers c vset)).1 (
          omega (
            arith,
            more,
            count-all (carriers c vset),
            count-carriers_one (λ _. true) c vc before after refl,
          ),
          omega (
            arith,
            quorum,
            count-carriers_one (λ (v : ViewChange). leb v.h c.sequence_number) c vc before after
                (ground arith),
          ),
        ))
