-- ===== src/Chain/Builder.antt =====
-- `MalachiteChainBuilder::build` and the future `MalachiteChain` of src/chain.rs: what the launcher starts.
use rem_poc.Prelude.{ℕ, List, [], ◌∷◌, Option, true, take, drop, All, All-take, All-drop}
use rem_poc.Prelude.Run.{Run, ok, ◌>>=◌}
use rem_poc.Reth.{Reth, SealedHeader}
use rem_poc.Task.{MalachiteTask, new_task}
use rem_poc.Context.Malachite.{Malachite}
use rem_poc.Context.Value.{BaseValue}
use rem_poc.Application.Channels.{Channels}
use rem_poc.Simulator.{Simulator, Step, new, run}
use rem_poc.Simulator.Library.{Consensus}
use rem_poc.Chain.{new_storage, build_values}
use rem_poc.Chain.Consumer.{Consumer, empty_consumer}

-- `MalachiteChain`, which holds the pool and the sender of its channel; that the consumer holds the
-- receiver is left out.
pub record MalachiteChain (Pool : Type 0) : Type 0 where
  pub pool : Pool

-- What `build` returns, but for the client, which shares the task's storage.
pub record Parts (R : Reth) (Pool : Type 0) : Type 0 where
  pub chain : MalachiteChain Pool
  pub consumer : Consumer R.Transaction
  pub task : MalachiteTask R

-- `MalachiteChainBuilder::new` and `build`: both channels are open and empty.
unfoldable pub build {ℓ} :
    {E : Type ℓ} {Pool : Type 0} (R : Reth)
    → Pool
    → Run E (Option SealedHeader)
    → SealedHeader
    → Parts R Pool
unfolding new_storage
build R pool latest genesis = record {
  chain = record { pool = pool };
  consumer = empty_consumer;
  task = new_task (new_storage R latest genesis) [] true;
}

module _ {M : Malachite} {Transaction : Type 0} where
  -- The channels of a chain that starts.
  abbrev pub idle : Channels M Transaction
  idle = record { network = []; decision_steps = []; consumer_alive = true; proposals = [] }

module _ {Transaction : Type 0} where
  -- How the passes of the block builder's loop fall between the steps of the network: so many of them
  -- come before the first step, and so on.
  unfoldable pub interleave :
      List ℕ → List (BaseValue Transaction) → List (List (BaseValue Transaction))
  interleave [] values = []
  interleave (passes ∷ schedule) values =
      take passes values ∷ interleave schedule (drop passes values)

  pub All-interleave :
      (V : BaseValue Transaction → Type 0) (schedule : List ℕ)
      (values : List (BaseValue Transaction))
      → All V values
      → All (All V) (interleave schedule values)
  unfolding interleave
  All-interleave V [] values all = tt
  All-interleave V (passes ∷ schedule) values all = (
    All-take V passes values all,
    All-interleave V schedule (drop passes values) (All-drop V passes values all),
  )

module _ {M : Malachite} {Transaction : Type 0} (C : Consensus M Transaction) where
  -- The network that `MalachiteChain::poll` makes, from the randomness of its key.
  unfoldable pub make_network :
      {Pool : Type 0} → MalachiteChain Pool → ℕ → Run (Unit {0}) (Simulator C × List C.State)
  make_network chain random = new C random 4

  -- `MalachiteChain::poll`, from the randomness of the network's key, for the sets of transactions that
  -- the block builder gets from the chain's pool, and for a schedule of its passes and of the network's
  -- steps.
  unfoldable pub poll_chain :
      {Pool : Type 0}
      → MalachiteChain Pool
      → ℕ
      → List (List Transaction)
      → List ℕ
      → Run (Unit {0}) (Step C)
  unfolding make_network run build_values interleave
  poll_chain chain random batches schedule = do
    (n, states) ← make_network chain random
    ok (run C (interleave schedule (build_values 0 batches)) n states idle)
