-- ===== src/Launcher/Jobs.antt =====
-- What a launch spawns, and in which order.
use rem_poc.Prelude.{ℕ, ◌≡◌, refl, inl, inr, List, [], ◌∷◌, ◌++◌, Option, Bool-cases, Option-cases}
use rem_poc.Prelude.Run.{Run, ok, err, panic}
use rem_poc.Reth.{Reth}
use rem_poc.Chain.Builder.{build}
use rem_poc.Chain.Consumer.{empty_consumer}
use rem_poc.Task.{set_pipeline_events}
use rem_poc.Launcher.{
  Target, NodeHandle, EngineClient, Job, chain, malachite_consumer, mining_task, consensus_engine,
  etherscan_client, rpc_client, Builders, try, spawn, continue_with, ◌>>=◌, set_up,
  configure_pipeline, start_etherscan_client, start_rpc_client, configure_engine, start, launch_on,
  launch_node,
}
use rem_poc.Launcher.Library.{Node}
use rem_poc.Launcher.Order.{
  Role, dev_roles, if_set, followers, planned, Spawned, Follows, Emits, bind-Emits, bind_last-Emits,
  try-Emits, spawn-Emits, pure-Emits, building, relaying, mining, watching, deciding,
  following_etherscan, following_rpc,
}

module _ {R : Reth} (N : Node R) (ctx : N.Context) where
  set_up-Emits : (target : Target N) (begun : N.Context) → Emits N ctx (set_up target begun) []
  unfolding set_up
  set_up-Emits target begun = bind-Emits (try _) _ [] [] (try-Emits _) (λ _.
      bind-Emits (try _) _ [] [] (try-Emits _) (λ _. bind-Emits (try _) _ [] [] (try-Emits _) (λ _.
        bind-Emits (try _) _ [] [] (try-Emits _) (λ _.
          bind-Emits (try _) _ [] [] (try-Emits _)
            (λ _. bind-Emits (try _) _ [] [] (try-Emits _) (λ _. try-Emits _))))))

  configure_pipeline-Emits :
      (builders : Builders N) (client : N.NetworkClient) (max_block : Option ℕ)
      (producer : N.StaticFileProducer) (handle : N.ExExManagerHandle)
      → Emits N ctx
          (configure_pipeline builders client max_block producer handle ctx)
          (dev_roles N ctx)
  unfolding configure_pipeline build set_pipeline_events
  configure_pipeline-Emits builders client max_block producer handle =
      elim (Bool-cases (N.is_dev ctx)) [
        | inl dev ↦ rw dev (
            bind-Emits (spawn (chain _)) _ (building ∷ []) (relaying ∷ mining ∷ [])
              (spawn-Emits (chain _) refl)
              (λ _.
                bind-Emits (spawn (malachite_consumer empty_consumer)) _ (relaying ∷ [])
                  (mining ∷ []) (spawn-Emits _ refl)
                  (λ _. bind-Emits (try _) _ [] (mining ∷ []) (try-Emits _) (λ pipeline.
                    bind-Emits (spawn (mining_task _)) _ (mining ∷ []) []
                      (spawn-Emits _ (pipeline, refl)) (λ _. pure-Emits _)))))
        | inr other ↦ rw other (bind-Emits (try _) _ [] [] (try-Emits _) (λ _. pure-Emits _))
      ]

  start_etherscan_client-Emits :
      (handles : N.RpcServerHandles)
      → Emits N ctx
          (start_etherscan_client handles ctx)
          (if_set following_etherscan (N.etherscan ctx))
  unfolding start_etherscan_client
  start_etherscan_client-Emits handles = elim (Option-cases (N.etherscan ctx)) [
    | inl unset ↦ rw unset (pure-Emits tt)
    | inr (url, is) ↦ rw is (
        bind-Emits (try _) _ [] (following_etherscan ∷ []) (try-Emits _) (λ u.
          bind-Emits (try _) _ [] (following_etherscan ∷ []) (try-Emits _)
            (λ key. spawn-Emits (etherscan_client handles u key) tt)))
  ]

  start_rpc_client-Emits :
      (handles : N.RpcServerHandles)
      → Emits N ctx (start_rpc_client handles ctx) (if_set following_rpc (N.rpc_consensus_ws ctx))
  unfolding start_rpc_client
  start_rpc_client-Emits handles = elim (Option-cases (N.rpc_consensus_ws ctx)) [
    | inl unset ↦ rw unset (pure-Emits tt)
    | inr (url, is) ↦ rw is (spawn-Emits (rpc_client handles url) tt)
  ]

  configure_engine-Emits :
      (builders : Builders N) (handle : Option N.ExExManagerHandle) (max_block : Option ℕ)
      (producer : N.StaticFileProducer) (pipeline : N.Pipeline) (client : EngineClient N)
      → Emits N ctx
          (configure_engine builders handle max_block producer pipeline client ctx)
          (watching ∷ [])
  unfolding configure_engine
  configure_engine-Emits builders handle max_block producer pipeline client =
      bind-Emits (try _) _ [] (watching ∷ []) (try-Emits _)
        (λ _. bind-Emits (spawn _) _ (watching ∷ []) [] (spawn-Emits _ tt) (λ _. pure-Emits _))

  start-Emits :
      (builders : Builders N) (target : Target N) (engine : N.BeaconConsensusEngine)
      (handle : N.BeaconEngineHandle)
      → Emits N ctx (start builders target engine handle ctx) (deciding ∷ followers N ctx)
  unfolding start
  start-Emits builders target engine handle =
      bind-Emits (try _) _ [] (deciding ∷ followers N ctx) (try-Emits _) (λ _.
        bind-Emits (try _) _ [] (deciding ∷ followers N ctx) (try-Emits _) (λ h.
          bind-Emits (spawn (consensus_engine engine)) _ (deciding ∷ []) (followers N ctx)
            (spawn-Emits _ tt)
            (λ _.
              bind-Emits (start_etherscan_client h.0 ctx) _
                (if_set following_etherscan (N.etherscan ctx))
                (if_set following_rpc (N.rpc_consensus_ws ctx)) (start_etherscan_client-Emits h.0)
                (λ _.
                  bind_last-Emits (start_rpc_client h.0 ctx) _
                    (if_set following_rpc (N.rpc_consensus_ws ctx)) (start_rpc_client-Emits h.0)
                    (λ _. bind-Emits (try _) _ [] [] (try-Emits _) (λ _. pure-Emits _))))))

  launch_on-Emits :
      (builders : Builders N) (target : Target N)
      → Emits N ctx (launch_on builders target ctx) (planned N ctx)
  unfolding launch_on
  launch_on-Emits builders target = bind-Emits (try _) _ [] (planned N ctx) (try-Emits _) (λ _.
      bind-Emits (try _) _ [] (planned N ctx) (try-Emits _) (λ _.
        bind-Emits (configure_pipeline builders _ _ _ _ ctx) _ (dev_roles N ctx) _
          (configure_pipeline-Emits builders _ _ _ _)
          (λ p.
            bind-Emits (configure_engine builders _ _ _ p.0 p.1 ctx) _ (watching ∷ [])
              (deciding ∷ followers N ctx) (configure_engine-Emits builders _ _ _ p.0 p.1)
              (λ e. start-Emits builders target e.0 e.1))))

  launch_on-Follows :
      (builders : Builders N) (target : Target N)
      → Follows N ctx [] (launch_on builders target ctx []) (planned N ctx)
  launch_on-Follows builders target = (launch_on-Emits builders target).follows []

module _ {R : Reth} (N : Node R) where
  Spawned-nothing :
      (ctx : N.Context) (after : List (Job N)) (roles rest : List Role)
      → Spawned N ctx [] after roles
      → roles ++ rest ≡ []
      → after ≡ []
  Spawned-nothing ctx after (r ∷ roles) rest h all = cc
  Spawned-nothing ctx after [] rest ([], e, fresh, same) all = e
  Spawned-nothing ctx after [] rest (j ∷ new, e, fresh, same) all = cc

  Follows-nothing :
      {A : Type 0} (ctx : N.Context) (r : Run N.Error A × List (Job N))
      → Follows N ctx [] r []
      → r.1 ≡ []
  Follows-nothing ctx (ok a, after) h = Spawned-nothing ctx after [] [] h refl
  Follows-nothing ctx (err x, after) (done, rest, h, all) =
      Spawned-nothing ctx after done rest h all
  Follows-nothing ctx (panic, after) (done, rest, h, all) =
      Spawned-nothing ctx after done rest h all

  -- How a launch goes on from its set-up.
  abbrev pub Launched : Run N.Error N.Context → Run N.Error (NodeHandle N) × List (Job N) → Type 0
  Launched (ok ctx) r = Follows N ctx [] r (planned N ctx)
  Launched (err e) r = (r.0 ≡ err e) × (r.1 ≡ [])
  Launched panic r = (r.0 ≡ panic) × (r.1 ≡ [])

  -- A launch whose set-up fails fails in the same way and spawns nothing. Any other spawns jobs in this
  -- order: in dev mode the chain, the consumer and the mining task; then the task that handles the
  -- events and the consensus engine; and the debug clients that the configuration asks for. All of
  -- them, if it returns a node; and if a call fails, the first of them. The chain has the pool of the
  -- context, the consumer starts empty, and
  -- the mining task on the storage of the latest or the genesis block, with nothing to do and with the
  -- events of a pipeline.
  pub launch_node-Launched :
      (builders : Builders N) (target : Target N) (ctx : N.Context)
      → Launched (set_up target ctx []).0 (launch_node builders target ctx [])
  unfolding launch_node ◌>>=◌
  launch_node-Launched builders target ctx =
      go (set_up target ctx [])
        (Follows-nothing ctx (set_up target ctx []) ((set_up-Emits N ctx target ctx).follows []))
    where
      go :
          (x : Run N.Error N.Context × List (Job N))
          → x.1 ≡ []
          → Launched x.0 (continue_with x.0 (λ ready. launch_on builders target ready) x.1)
      go (ok ready, after) e = rw e (launch_on-Follows N ready builders target)
      go (err x, after) e = (refl, e)
      go (panic, after) e = (refl, e)
