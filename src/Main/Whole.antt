-- ===== src/Main/Whole.antt =====
-- The program of src/main.rs down to what its jobs do: the node that it launches, with the chain, the
-- consumer and the mining task that it spawns run side by side.
use rem_poc.Prelude.{ℕ, ◌≡◌, refl, ◌∙◌, List, [], ◌∷◌, map, some, All, arith, subst}
use rem_poc.Prelude.Run.{ok}
use rem_poc.Reth.{Reth, SealedHeader}
use rem_poc.Storage.{new}
use rem_poc.Storage.Chain.{CollisionFree}
use rem_poc.Context.Malachite.{Malachite}
use rem_poc.Application.Channels.{Channels}
use rem_poc.Chain.{latest_or_genesis-either, build_values}
use rem_poc.Chain.Builder.{MalachiteChain, idle, interleave, make_network, poll_chain}
use rem_poc.Chain.Consumer.{Consumer, empty_consumer}
use rem_poc.Task.{MalachiteTask}
use rem_poc.Task.Life.{Lives}
use rem_poc.Simulator.{Simulator, initialize_system, steps, run}
use rem_poc.Simulator.Library.{Consensus, IsLawful, DecidesProposed, MakesNoValues}
use rem_poc.System.{System, Reach, started}
use rem_poc.System.Safe.{IsServing, Reach-IsServing}
use rem_poc.Launcher.{
  Job, chain, malachite_consumer, mining_task, events_task, consensus_engine, etherscan_client,
  rpc_client,
}
use rem_poc.Launcher.Library.{Node}
use rem_poc.Launcher.Order.{Role, building, relaying, mining, role}
use rem_poc.Mac.{Checked}
use rem_poc.Main.{Stream, watching, custom_chain, node_config, launch, main}
use rem_poc.Main.Library.{Host, KeepsDev}
use rem_poc.Main.Starts.{first_header, IsAtStart, ready_context, launch-ready}
use rem_poc.Main.Runs.{main_lem}

module _ {R : Reth} (N : Node R) where
  -- A sealed header carries its hash: the provider's latest one does, and the genesis header.
  pub record Seals : Type 0 where
    pub latest :
        (ctx : N.Context) (h : SealedHeader)
        → N.latest_header ctx ≡ ok (some h)
        → R.hash_slow h.header ≡ h.hash
    pub genesis :
        (ctx : N.Context)
        → R.hash_slow (N.sealed_genesis_header ctx).header ≡ (N.sealed_genesis_header ctx).hash

  role-building : (j : Job N) → role N j ≡ building → (c : MalachiteChain N.Pool) × (j ≡ chain c)
  role-building (chain c) e = (c, refl)
  role-building (malachite_consumer c) e = cc
  role-building (mining_task t) e = cc
  role-building (events_task events health head) e = cc
  role-building (consensus_engine engine) e = cc
  role-building (etherscan_client handles url key) e = cc
  role-building (rpc_client handles url) e = cc

  role-relaying :
      (j : Job N) → role N j ≡ relaying → (c : Consumer R.Transaction) × (j ≡ malachite_consumer c)
  role-relaying (chain c) e = cc
  role-relaying (malachite_consumer c) e = (c, refl)
  role-relaying (mining_task t) e = cc
  role-relaying (events_task events health head) e = cc
  role-relaying (consensus_engine engine) e = cc
  role-relaying (etherscan_client handles url key) e = cc
  role-relaying (rpc_client handles url) e = cc

  role-mining : (j : Job N) → role N j ≡ mining → (t : MalachiteTask R) × (j ≡ mining_task t)
  role-mining (chain c) e = cc
  role-mining (malachite_consumer c) e = cc
  role-mining (mining_task t) e = (t, refl)
  role-mining (events_task events health head) e = cc
  role-mining (consensus_engine engine) e = cc
  role-mining (etherscan_client handles url key) e = cc
  role-mining (rpc_client handles url) e = cc

module _ {R : Reth} {N : Node R} {K : Checked} (H : Host N K) where
  first_header_sealed :
      Seals N
      → (ctx : N.Context) → R.hash_slow (first_header H ctx).header ≡ (first_header H ctx).hash
  first_header_sealed seals ctx =
      latest_or_genesis-either (λ b. R.hash_slow b.header ≡ b.hash) (N.latest_header ctx)
        (N.sealed_genesis_header ctx) (seals.latest ctx) (seals.genesis ctx)

  -- The first three jobs of a node in dev mode.
  first_jobs :
      (ctx : N.Context) (jobs : List (Job N)) (rest : List Role)
      → map (role N) jobs ≡ building ∷ relaying ∷ mining ∷ rest
      → All (IsAtStart H ctx) jobs
      → (c : MalachiteChain N.Pool) × (t : MalachiteTask R) × (later : List (Job N)) × (jobs
          ≡ chain c ∷ malachite_consumer empty_consumer ∷ mining_task t ∷ later)
        × (c.pool ≡ N.pool ctx)
        × Lives (new (first_header H ctx)) t []
  first_jobs ctx (a ∷ b ∷ c ∷ later) rest e (at_a, (at_b, (at_c, _))) =
      let (ch, ea) = role-building N a cc in
      let (d, eb) = role-relaying N b cc in
      let (t, ec) = role-mining N c cc in
      let empty : d ≡ empty_consumer = subst (IsAtStart H ctx) eb at_b in
      (ch, t, later, cc, subst (IsAtStart H ctx) ea at_a, subst (IsAtStart H ctx) ec at_c)
  first_jobs ctx (a ∷ b ∷ []) rest e all = cc
  first_jobs ctx (a ∷ []) rest e all = cc
  first_jobs ctx [] rest e all = cc

  main_jobs :
      (spec : K.ChainSpec) (notifications : Stream H.Notification)
      → custom_chain H ≡ ok spec
      → (main H notifications).jobs ≡ (launch H (node_config H spec)).1
  unfolding main
  main_jobs spec notifications e = rw (e, main) refl

  poll_chain-steps :
      {M : Malachite} (C : Consensus M R.Transaction) (c : MalachiteChain N.Pool) (random : ℕ)
      (batches : List (List R.Transaction)) (schedule : List ℕ) (sim sim' : Simulator C)
      (states : List C.State) (w : Channels M R.Transaction)
      → make_network C c random ≡ ok (sim, states)
      → initialize_system C sim states idle ≡ ok (sim', w)
      → poll_chain C c random batches schedule
        ≡ ok (steps C (interleave schedule (build_values 0 batches)) sim' states w)
  unfolding poll_chain
  poll_chain-steps C c random batches schedule sim sim' states w made begun =
      rw made (rw (begun, run) refl)

  module _ {M : Malachite} (C : Consensus M R.Transaction) (lawful : IsLawful C)
      (decides : DecidesProposed C) (makes : MakesNoValues C) (free : CollisionFree R) where
    -- A run of the program, where its genesis can be read and which is still on, has set up a context
    -- and has spawned the chain, with the pool of this context, a consumer that starts empty and a
    -- mining task, in this order, before all other jobs. Whatever the randomness, the network that the
    -- chain's `poll` makes is made and initialized without a panic, and from there its `poll` takes the
    -- network's steps, whatever its block builder gets from the pool and whenever. And whatever sets of
    -- transactions the pool yields, and in whatever order the network, the consumer and the mining task
    -- take their steps, every decision step that waits for the consumer goes through it without a
    -- panic, and a peer that asks the client for what follows the latest header of the provider in this
    -- context, or the genesis header where it has none, is answered with some of the sets that were
    -- decided, in their order, and only with sets from the pool, as long as the heights stay below
    -- 2^64. The execution client is taken to keep in its launch context that the configuration asks for
    -- dev mode, and to seal its headers with their hashes, which differ for headers at different
    -- heights; the consensus library, to keep the parameters of a state, to touch the channels through
    -- the handler alone, to decide only heights that the peer has received a value for or published a
    -- proposal for, and to make no values up.
    pub main-IsServing :
        (keeps : KeepsDev H) (seals : Seals N) (spec : K.ChainSpec)
        → custom_chain H ≡ ok spec
        → (notifications : Stream H.Notification) → (main H notifications).status ≡ watching
        → (random : ℕ) (pool : List (List R.Transaction))
        → (ctx : N.Context) × (ready_context H spec ≡ ok ctx)
          × (c : MalachiteChain N.Pool) × (t : MalachiteTask R) × (later : List (Job N)) × ((main H
                notifications).jobs
              ≡ chain c ∷ malachite_consumer empty_consumer ∷ mining_task t ∷ later)
          × (c.pool ≡ N.pool ctx)
          × (sim : Simulator C) × (states : List C.State) × (sim' : Simulator C) × (w : Channels M
              R.Transaction)
          × (make_network C c random ≡ ok (sim, states))
          × (initialize_system C sim states idle ≡ ok (sim', w))
          × ((batches : List (List R.Transaction)) (schedule : List ℕ)
              → poll_chain C c random batches schedule
                ≡ ok (steps C (interleave schedule (build_values 0 batches)) sim' states w))
          × ((s : System R C)
              → Reach R C sim' pool (started R C states w t) s
              → IsServing R C pool (first_header H ctx) s)
    unfolding make_network
    main-IsServing keeps seals spec read notifications on random pool =
        let same = main_jobs spec notifications read in
        let (spawned, still, done) = main_lem H keeps spec read notifications in
        let (ctx, ready, roles, at_start) = launch-ready H keeps spec (done on).0 in
        let (c, t, later, jobs, has_pool, alive) =
          first_jobs ctx (launch H (node_config H spec)).1 _ roles at_start in
        let (sim, states, sim', w, made, begun, serving) =
          Reach-IsServing R C lawful decides makes free pool (first_header H ctx)
            (first_header_sealed seals ctx) random 4 t (omega arith) (omega arith) alive in
        (
          ctx,
          ready,
          c,
          t,
          later,
          same ∙ jobs,
          has_pool,
          sim,
          states,
          sim',
          w,
          made,
          begun,
          (λ batches schedule.
              poll_chain-steps C c random batches schedule sim sim' states w made begun),
          serving,
        )
