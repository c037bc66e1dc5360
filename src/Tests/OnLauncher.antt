-- ===== src/Tests/OnLauncher.antt =====
-- A launch in dev mode, with a node builder whose context is the list of steps that set it up.
use rem_poc.Prelude.{ℕ, ◌≡◌, refl, List, [], ◌∷◌, map, Bool, true, false, none, some}
use rem_poc.Prelude.Run.{Run, ok, err}
use rem_poc.Chain.Builder.{build}
use rem_poc.Task.{set_pipeline_events}
use rem_poc.Launcher.{
  Target, Builders, pure, try, spawn, ◌>>=◌, set_up, configure_pipeline, configure_engine,
  start_etherscan_client, start_rpc_client, start, launch_on, launch_node,
}
use rem_poc.Launcher.Library.{Node}
use rem_poc.Launcher.Order.{
  Role, building, relaying, mining, watching, deciding, following_rpc, role,
}
use rem_poc.Launcher.Jobs.{Launched, launch_node-Launched}
use rem_poc.Tests.{simple_reth, first_block}

-- A context is the mode and the steps that set it up.
abbrev marked : ℕ → Bool × List ℕ → Bool × List ℕ
marked n (dev, steps) = (dev, n ∷ steps)

abbrev pub dev_node : Node simple_reth
dev_node = record {
  Error = ℕ;
  ProviderError = Unit {0};
  Config = Bool;
  Database = Unit {0};
  ComponentsBuilder = Unit {0};
  OnComponentInitialized = Unit {0};
  Rpc = Unit {0};
  ExExs = Unit {0};
  Context = Bool × List ℕ;
  Tree = ℕ;
  ExExManagerHandle = Unit {0};
  NetworkClient = Unit {0};
  EngineStream = Unit {0};
  EngineApiStore = Unit {0};
  StaticFileProducer = Unit {0};
  Pipeline = ℕ;
  Pruner = Unit {0};
  BeaconConsensusEngine = Unit {0};
  BeaconEngineHandle = Unit {0};
  JwtSecret = Unit {0};
  RpcServerHandles = Unit {0};
  RpcRegistry = Unit {0};
  max_reorg_depth = 64;
  noop_blockchain_tree = λ capacity. capacity;
  with_configured_globals = λ ctx. marked 1 ctx;
  with_loaded_toml_config = λ config ctx. ok (config, 2 ∷ ctx.1);
  with_resolved_peers = λ ctx. ok (marked 3 ctx);
  attach = λ db ctx. marked 4 ctx;
  with_adjusted_configs = λ ctx. marked 5 ctx;
  with_provider_factory = λ ctx. ok (marked 6 ctx);
  with_prometheus_server = λ ctx. ok (marked 7 ctx);
  with_genesis = λ ctx. ok (marked 8 ctx);
  with_metrics_task = λ ctx. marked 9 ctx;
  with_blockchain_db = λ tree ctx. ok (marked tree ctx);
  with_components = λ builder hook ctx. ok (marked 10 ctx);
  is_dev = λ ctx. ctx.0;
  skip_fcu = λ ctx. none;
  skip_new_payload = λ ctx. none;
  engine_api_store = λ ctx. none;
  tip = λ ctx. none;
  terminate = λ ctx. true;
  etherscan = λ ctx. none;
  rpc_consensus_ws = λ ctx. some (80 ∷ []);
  etherscan_urls = λ ctx. none;
  etherscan_api_key = λ ctx. none;
  Pool = Unit {0};
  pool = λ ctx. tt;
  latest_header = λ ctx. ok none;
  sealed_genesis_header = λ ctx. first_block;
  head_number = λ ctx. 5;
  fetch_client = λ ctx. ok tt;
  max_block = λ client ctx. ok none;
  static_file_producer = λ ctx. tt;
  auth_jwt_secret = λ ctx. ok tt;
  launch_exexs = λ exexs ctx. none;
  empty_exex_handle = tt;
  consensus_engine_stream = tt;
  maybe_skip_fcu = λ skip stream. stream;
  maybe_skip_new_payload = λ skip stream. stream;
  maybe_store_messages = λ store stream. stream;
  pipeline_events = λ pipeline. pipeline;
  build_pruner = λ handle ctx. tt;
  launch_rpc_servers = λ handle secret rpc ctx. ok (tt, tt);
  with_dev_accounts = λ registry. registry;
  no_etherscan_url = 1;
  no_etherscan_api_key = 2;
}

-- A pipeline that is built, and one that is not.
abbrev pub builders_of : Run ℕ ℕ → Builders dev_node
builders_of pipeline = record {
  build_networked_pipeline = λ client max_block producer handle ctx. pipeline;
  with_channel = λ client pipeline max_block tip stream hooks ctx. ok (tt, tt);
  on_node_started = λ node. ok tt;
}

abbrev target : Target dev_node
target = record {
  database = tt;
  components_builder = tt;
  on_component_initialized = tt;
  rpc = tt;
  installed_exex = tt;
  config = true;
}

launch_node-Launched_example :
    Launched dev_node
      (set_up target (false, []) []).0
      (launch_node (builders_of (ok 7)) target (false, []) [])
launch_node-Launched_example = launch_node-Launched dev_node (builders_of (ok 7)) target (false, [])

roles_of : Run ℕ ℕ → List Role
unfolding launch_node
roles_of pipeline = map (role dev_node) (launch_node (builders_of pipeline) target (false, []) []).1

all_spawned :
    roles_of (ok 7) ≡ building ∷ relaying ∷ mining ∷ watching ∷ deciding ∷ following_rpc ∷ []
unfolding roles_of set_up launch_on configure_pipeline configure_engine start start_etherscan_client
    start_rpc_client pure try spawn ◌>>=◌ build set_pipeline_events
all_spawned = refl

-- Where the pipeline cannot be built, the chain and the consumer run without a mining task.
no_pipeline : roles_of (err 3) ≡ building ∷ relaying ∷ []
unfolding roles_of set_up launch_on configure_pipeline configure_engine start start_etherscan_client
    start_rpc_client pure try spawn ◌>>=◌ build set_pipeline_events
no_pipeline = refl
