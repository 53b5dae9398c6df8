-- ===== src/Tests/Submits.antt =====
-- What a cluster of two nodes broadcasts, and a block that it serves, at concrete inputs.
use algo_vnode.Prelude.{ℕ, ◌≡◌, ◌≢◌, String, refl, Bool, [], ◌∷◌, none, some, arith, All}
use algo_vnode.Algod.Client.{reply}
use algo_vnode.Algod.Cluster.{update_node_lists}
use algo_vnode.Algod.Evolve.Boot.{boots, lists}
use algo_vnode.Algod.Loop.{fetch_block_raw}
use algo_vnode.Algod.State.{Cluster}
use algo_vnode.Algod.Submits.Calls.{IsOfRound}
use algo_vnode.Algod.Submits.Histories
use algo_vnode.Algod.Submits.Histories.{Honest, starts, continues}
use algo_vnode.Algod.Submits.Nil
use algo_vnode.Algod.Submits.{NoNil}
use algo_vnode.BlockFetcher.Make.{make_block_wrap}
use algo_vnode.Tests.Caches.{fresh-IsValid}
use algo_vnode.Tests.Instances.{bounded, whole, by_round, first_byte}
use algo_vnode.Tests.Nodes.{cluster, booted, ahead_at}

sends_zero : All (IsOfRound by_round 0) (reply (0 ∷ []) 100 ∷ [])
unfolding first_byte
sends_zero = (λ b e. ground arith, tt)

abbrev listed : Cluster whole bounded ℕ
listed = update_node_lists whole bounded booted.0

honest : Honest whole bounded by_round cluster listed
honest =
    continues
      (continues starts
        (boots 0 1 (reply "mainnet" 100 ∷ []) (reply (0 ∷ []) 100 ∷ []) (reply ahead_at 100 ∷ [])
          booted.1 booted.2)
        sends_zero)
      lists tt

broadcast-NoNil_example : NoNil whole bounded listed
broadcast-NoNil_example = Histories.broadcast-NoNil whole bounded by_round cluster listed honest tt

wraps_nine : (id : String) → make_block_wrap by_round 0 id 9 (9 ∷ []) ≢ none
unfolding make_block_wrap
wraps_nine id = λ n. ground arith

-- Node 1 is asked for block 0, and sends block 9.
fetch_submits_nil_example :
    (gs : Cluster whole bounded ℕ) × (got : Bool) × (fetch_block_raw whole bounded 0 1 by_round 0
        (reply (9 ∷ []) 100 ∷ [])
        cluster
      ≡ some (gs, got))
    × (gs.submitted ≡ none ∷ [])
unfolding first_byte
fetch_submits_nil_example =
    Nil.fetch_submits_nil whole bounded 0 1 by_round 0 100 (9 ∷ []) [] 9 cluster refl (omega arith)
      refl fresh-IsValid (λ id. wraps_nine id)
