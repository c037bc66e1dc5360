-- ===== src/Main/Library.antt =====
-- What src/main.rs takes from the execution client: the configuration of a node, its builder, and the
-- node that runs.
use Prim.Native.String.{String}
use rem_poc.Prelude.{ℕ, List, Bool, Option, ◌≡◌}
use rem_poc.Prelude.Run.{Run, ok}
use rem_poc.Reth.{Reth}
use rem_poc.Launcher.{Builders}
use rem_poc.Launcher.Library.{Node}
use rem_poc.Mac.{Checked, Checks}

-- `DevArgs`; the block time is in seconds.
pub record DevArgs : Type 0 where
  pub dev : Bool
  pub block_max_transactions : Option ℕ
  pub block_time : Option ℕ

pub record Host {R : Reth} (N : Node R) (K : Checked) : Type 1 where
  pub TaskExecutor : Type 0
  pub DataDir : Type 0
  pub RpcServerArgs : Type 0
  pub Genesis : Type 0
  pub JsonError : Type 0
  pub Components : Type 0
  -- `CanonStateNotification`, with the number and the transactions of its tip
  pub Notification : Type 0
  pub tip_number : Notification → ℕ
  pub tip_body : Notification → List R.Transaction
  -- `TaskManager::current().executor()`
  pub executor : TaskExecutor
  -- the configuration
  pub test_config : N.Config
  pub dev : N.Config → N.Config
  pub with_dev : DevArgs → N.Config → N.Config
  pub default_rpc_args : RpcServerArgs
  pub with_http : RpcServerArgs → RpcServerArgs
  pub with_rpc : RpcServerArgs → N.Config → N.Config
  pub with_chain : K.ChainSpec → N.Config → N.Config
  -- `serde_json::from_str`, and the chain that follows from a genesis
  pub genesis_of_json : String → Run JsonError Genesis
  pub chain_spec_of_genesis : Genesis → K.ChainSpec
  -- the builder: a database for tests, Ethereum's components with a consensus in place of theirs, and
  -- Ethereum's add-ons
  pub testing_node : TaskExecutor → N.Config → N.Database × N.Config
  pub ethereum_components : Components
  pub consensus : (K.BuilderContext → Run N.Error (Checks K)) → Components → N.ComponentsBuilder
  pub no_hook : N.OnComponentInitialized
  pub default_rpc : N.Rpc
  pub no_exexs : N.ExExs
  pub datadir : N.Config → DataDir
  pub launch_context : TaskExecutor → DataDir → N.Context
  pub builders : Builders N
  -- the node that runs: `eth_api().send_raw_transaction`
  pub send_raw_transaction : N.RpcRegistry → List ℕ → Run N.Error ℕ

-- What the program relies on for the jobs that it spawns: whether a node runs in dev mode is what its
-- configuration says; what is set beside it does not change that, and neither do the steps that set up
-- a launch from the configuration on.
pub record KeepsDev {R : Reth} {N : Node R} {K : Checked} (H : Host N K) : Type 0 where
  pub in_dev_mode : N.Config → Bool
  pub with_dev_lem : (args : DevArgs) (c : N.Config) → in_dev_mode (H.with_dev args c) ≡ args.dev
  pub with_rpc_keeps :
      (args : H.RpcServerArgs) (c : N.Config) → in_dev_mode (H.with_rpc args c) ≡ in_dev_mode c
  pub with_chain_keeps :
      (spec : K.ChainSpec) (c : N.Config) → in_dev_mode (H.with_chain spec c) ≡ in_dev_mode c
  pub testing_node_keeps :
      (e : H.TaskExecutor) (c : N.Config) → in_dev_mode (H.testing_node e c).1 ≡ in_dev_mode c
  pub with_loaded_toml_config_lem :
      (c : N.Config) (ctx ctx' : N.Context)
      → N.with_loaded_toml_config c ctx ≡ ok ctx'
      → N.is_dev ctx' ≡ in_dev_mode c
  pub with_resolved_peers_keeps :
      (ctx ctx' : N.Context) → N.with_resolved_peers ctx ≡ ok ctx' → N.is_dev ctx' ≡ N.is_dev ctx
  pub attach_keeps : (db : N.Database) (ctx : N.Context) → N.is_dev (N.attach db ctx) ≡ N.is_dev ctx
  pub with_adjusted_configs_keeps :
      (ctx : N.Context) → N.is_dev (N.with_adjusted_configs ctx) ≡ N.is_dev ctx
  pub with_provider_factory_keeps :
      (ctx ctx' : N.Context) → N.with_provider_factory ctx ≡ ok ctx' → N.is_dev ctx' ≡ N.is_dev ctx
  pub with_prometheus_server_keeps :
      (ctx ctx' : N.Context) → N.with_prometheus_server ctx ≡ ok ctx' → N.is_dev ctx' ≡ N.is_dev ctx
  pub with_genesis_keeps :
      (ctx ctx' : N.Context) → N.with_genesis ctx ≡ ok ctx' → N.is_dev ctx' ≡ N.is_dev ctx
  pub with_metrics_task_keeps :
      (ctx : N.Context) → N.is_dev (N.with_metrics_task ctx) ≡ N.is_dev ctx
  pub with_blockchain_db_keeps :
      (tree : N.Tree) (ctx ctx' : N.Context)
      → N.with_blockchain_db tree ctx ≡ ok ctx'
      → N.is_dev ctx' ≡ N.is_dev ctx
  pub with_components_keeps :
      (builder : N.ComponentsBuilder) (hook : N.OnComponentInitialized) (ctx ctx' : N.Context)
      → N.with_components builder hook ctx ≡ ok ctx'
      → N.is_dev ctx' ≡ N.is_dev ctx
