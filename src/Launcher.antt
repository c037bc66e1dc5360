-- ===== src/Launcher.antt =====
-- `MalachiteNodeLauncher::launch_node` of src/launcher.rs. A launch fails with an error at the first call
-- that does; what it has spawned by then runs on.
pub mod Library
pub mod Order
pub mod Jobs
use rem_poc.Prelude.{
  ℕ, List, [], ◌∷◌, ◌++◌, Bool, true, false, not, ◌&&◌, ◌*◌, if◌then◌else◌, Option, none, some,
  is_none, unwrap_or,
}
use rem_poc.Prelude.Run.{Run, ok, err, panic, ok_or}
use rem_poc.Reth.{Reth}
use rem_poc.Chain.Builder.{MalachiteChain, build}
use rem_poc.Chain.Consumer.{Consumer}
use rem_poc.Task.{MalachiteTask, set_pipeline_events}
use Library.{Node}

module _ {R : Reth} (N : Node R) where
  -- `NodeBuilderWithComponents`, taken apart; `on_node_started` is called with the node.
  pub record Target : Type 0 where
    pub database : N.Database
    pub components_builder : N.ComponentsBuilder
    pub on_component_initialized : N.OnComponentInitialized
    pub rpc : N.Rpc
    pub installed_exex : N.ExExs
    pub config : N.Config

  pub record FullNode : Type 0 where
    pub context : N.Context
    pub rpc_server_handles : N.RpcServerHandles
    pub rpc_registry : N.RpcRegistry

  pub record NodeHandle : Type 0 where
    pub terminate : Bool
    pub node : FullNode

  -- `Either<MalachiteClient, _>`: the former serves from the storage that it shares with the task.
  pub data EngineClient : Type 0 where
    malachite : EngineClient
    network : N.NetworkClient → EngineClient

  pub data EngineHook : Type 0 where
    static_file_hook : N.StaticFileProducer → EngineHook
    prune_hook : N.Pruner → EngineHook

  -- What the launcher spawns on the task executor.
  pub data Job : Type 0 where
    chain : MalachiteChain N.Pool → Job
    malachite_consumer : Consumer R.Transaction → Job
    mining_task : MalachiteTask R → Job
    -- with the events of the consensus layer's health, or without
    events_task : R.PipelineEvents → Bool → ℕ → Job
    consensus_engine : N.BeaconConsensusEngine → Job
    etherscan_client : N.RpcServerHandles → List ℕ → List ℕ → Job
    rpc_client : N.RpcServerHandles → List ℕ → Job

  -- The two constructions that depend on the client and the hooks.
  pub record Builders : Type 0 where
    pub build_networked_pipeline :
        EngineClient
        → Option ℕ
        → N.StaticFileProducer
        → N.ExExManagerHandle
        → N.Context
        → Run N.Error N.Pipeline
    pub with_channel :
        EngineClient
        → N.Pipeline
        → Option ℕ
        → Option ℕ
        → N.EngineStream
        → List EngineHook
        → N.Context
        → Run N.Error (N.BeaconConsensusEngine × N.BeaconEngineHandle)
    pub on_node_started : FullNode → Run N.Error (Unit {0})

  -- A part of a launch, from the jobs spawned before it.
  abbrev pub Launch : Type 0 → Type 0
  Launch A = List Job → Run N.Error A × List Job

module _ {R : Reth} {N : Node R} where
  unfoldable pub pure : {A : Type 0} → A → Launch N A
  pure a jobs = (ok a, jobs)

  -- A call that spawns nothing, with `?`.
  unfoldable pub try : {A : Type 0} → Run N.Error A → Launch N A
  try r jobs = (r, jobs)

  unfoldable pub spawn : Job N → Launch N (Unit {0})
  spawn job jobs = (ok tt, jobs ++ job ∷ [])

  abbrev pub continue_with : {A B : Type 0} → Run N.Error A → (A → Launch N B) → Launch N B
  continue_with (ok a) f jobs = f a jobs
  continue_with (err e) f jobs = (err e, jobs)
  continue_with panic f jobs = (panic, jobs)

  infixl 10 ◌>>=◌ ◌>>◌
  unfoldable pub ◌>>=◌ : {A B : Type 0} → Launch N A → (A → Launch N B) → Launch N B
  ◌>>=◌ m f jobs = let (r, jobs') = m jobs in continue_with r f jobs'

  abbrev pub ◌>>◌ : {A B : Type 0} → Launch N A → Launch N B → Launch N B
  m >> n = m >>= λ _. n

  -- The chain of calls that sets up the launch context.
  unfoldable pub set_up : Target N → N.Context → Launch N N.Context
  set_up target ctx = do
    let tree = N.noop_blockchain_tree (N.max_reorg_depth * 2)
    configured ← try (N.with_loaded_toml_config target.config (N.with_configured_globals ctx))
    resolved ← try (N.with_resolved_peers configured)
    provided ←
        try (N.with_provider_factory (N.with_adjusted_configs (N.attach target.database resolved)))
    watched ← try (N.with_prometheus_server provided)
    begun ← try (N.with_genesis watched)
    connected ← try (N.with_blockchain_db tree (N.with_metrics_task begun))
    try (N.with_components target.components_builder target.on_component_initialized connected)

  -- The pipeline and the client that it downloads from, in dev mode and otherwise.
  unfoldable pub configure_pipeline :
      Builders N
      → N.NetworkClient
      → Option ℕ
      → N.StaticFileProducer
      → N.ExExManagerHandle
      → N.Context
      → Launch N (N.Pipeline × EngineClient N)
  unfolding build set_pipeline_events
  configure_pipeline builders network_client max_block producer pipeline_exex_handle ctx =
      if N.is_dev ctx
      then (do
        let parts = build R (N.pool ctx) (N.latest_header ctx) (N.sealed_genesis_header ctx)
        spawn (chain parts.chain)
        spawn (malachite_consumer parts.consumer)
        pipeline ← try (
            builders.build_networked_pipeline malachite max_block producer pipeline_exex_handle ctx)
        spawn (mining_task (set_pipeline_events parts.task (N.pipeline_events pipeline)))
        pure (pipeline, malachite))
      else (do
        pipeline ← try (
            builders.build_networked_pipeline (network network_client) max_block producer
              pipeline_exex_handle ctx)
        pure (pipeline, network network_client))

  -- The debug clients, which the configuration may ask for.
  unfoldable pub start_etherscan_client : N.RpcServerHandles → N.Context → Launch N (Unit {0})
  start_etherscan_client handles ctx = elim (N.etherscan ctx) [
    | none ↦ pure tt
    | some maybe_custom_etherscan_url ↦ (do
      etherscan_url ← try (elim maybe_custom_etherscan_url [
        | some url ↦ ok url
        | none ↦ ok_or (N.etherscan_urls ctx) N.no_etherscan_url
      ])
      key ← try (ok_or (N.etherscan_api_key ctx) N.no_etherscan_api_key)
      spawn (etherscan_client handles etherscan_url key))
  ]

  unfoldable pub start_rpc_client : N.RpcServerHandles → N.Context → Launch N (Unit {0})
  start_rpc_client handles ctx = elim (N.rpc_consensus_ws ctx) [
    | none ↦ pure tt
    | some rpc_ws_url ↦ spawn (rpc_client handles rpc_ws_url)
  ]

  -- The consensus engine, with its stream and its hooks, and the task that handles the events.
  unfoldable pub configure_engine :
      Builders N
      → Option N.ExExManagerHandle
      → Option ℕ
      → N.StaticFileProducer
      → N.Pipeline
      → EngineClient N
      → N.Context
      → Launch N (N.BeaconConsensusEngine × N.BeaconEngineHandle)
  configure_engine builders exex_manager_handle max_block producer pipeline client ctx = do
    let stream = N.maybe_store_messages (N.engine_api_store ctx) (
        N.maybe_skip_new_payload (N.skip_new_payload ctx)
          (N.maybe_skip_fcu (N.skip_fcu ctx) N.consensus_engine_stream))
    let hooks = static_file_hook producer ∷ prune_hook (N.build_pruner exex_manager_handle ctx) ∷ []
    engine ← try (builders.with_channel client pipeline max_block (N.tip ctx) stream hooks ctx)
    let health_events = is_none (N.tip ctx) && not (N.is_dev ctx)
    spawn (events_task (N.pipeline_events pipeline) health_events (N.head_number ctx))
    pure engine

  -- The servers, the engine's run, the debug clients and the node.
  unfoldable pub start :
      Builders N
      → Target N
      → N.BeaconConsensusEngine
      → N.BeaconEngineHandle
      → N.Context
      → Launch N (NodeHandle N)
  unfolding start_etherscan_client start_rpc_client
  start builders target engine engine_handle ctx = do
    jwt_secret ← try (N.auth_jwt_secret ctx)
    (handles, registry) ← try (N.launch_rpc_servers engine_handle jwt_secret target.rpc ctx)
    let registry' = if N.is_dev ctx then N.with_dev_accounts registry else registry
    spawn (consensus_engine engine)
    start_etherscan_client handles ctx
    start_rpc_client handles ctx
    let full_node : FullNode N = record {
      context = ctx;
      rpc_server_handles = handles;
      rpc_registry = registry';
    }
    try (builders.on_node_started full_node)
    pure (record { terminate = N.terminate ctx; node = full_node })

  -- What follows the set-up.
  unfoldable pub launch_on : Builders N → Target N → N.Context → Launch N (NodeHandle N)
  unfolding configure_pipeline configure_engine start
  launch_on builders target ctx = do
    let exex_manager_handle = N.launch_exexs target.installed_exex ctx
    network_client ← try (N.fetch_client ctx)
    max_block ← try (N.max_block network_client ctx)
    let producer = N.static_file_producer ctx
    let pipeline_exex_handle = unwrap_or exex_manager_handle N.empty_exex_handle
    (pipeline, client) ←
        configure_pipeline builders network_client max_block producer pipeline_exex_handle ctx
    (engine, engine_handle) ←
        configure_engine builders exex_manager_handle max_block producer pipeline client ctx
    start builders target engine engine_handle ctx

  unfoldable pub launch_node : Builders N → Target N → N.Context → Launch N (NodeHandle N)
  unfolding set_up launch_on
  launch_node builders target ctx = do ready ← set_up target ctx; launch_on builders target ready
