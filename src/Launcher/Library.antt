-- ===== src/Launcher/Library.antt =====
-- What src/launcher.rs takes from the execution client's node builder, a parameter: the launch context
-- with all that it is asked for, and the parts of a node.
use rem_poc.Prelude.{ℕ, List, Bool, Option}
use rem_poc.Prelude.Run.{Run}
use rem_poc.Reth.{Reth, SealedHeader}

pub record Node (R : Reth) : Type 1 where
  -- `eyre::Report`, and what the provider fails with
  pub Error : Type 0
  pub ProviderError : Type 0
  -- what the target of the launch holds
  pub Config : Type 0
  pub Database : Type 0
  pub ComponentsBuilder : Type 0
  pub OnComponentInitialized : Type 0
  pub Rpc : Type 0
  pub ExExs : Type 0
  -- parts of a node
  pub Context : Type 0
  pub Tree : Type 0
  pub ExExManagerHandle : Type 0
  pub NetworkClient : Type 0
  pub EngineStream : Type 0
  pub EngineApiStore : Type 0
  pub StaticFileProducer : Type 0
  pub Pipeline : Type 0
  pub Pruner : Type 0
  pub BeaconConsensusEngine : Type 0
  pub BeaconEngineHandle : Type 0
  pub JwtSecret : Type 0
  pub RpcServerHandles : Type 0
  pub RpcRegistry : Type 0
  -- the launch context, set up step by step
  pub max_reorg_depth : ℕ
  pub noop_blockchain_tree : ℕ → Tree
  pub with_configured_globals : Context → Context
  pub with_loaded_toml_config : Config → Context → Run Error Context
  pub with_resolved_peers : Context → Run Error Context
  pub attach : Database → Context → Context
  pub with_adjusted_configs : Context → Context
  pub with_provider_factory : Context → Run Error Context
  pub with_prometheus_server : Context → Run Error Context
  pub with_genesis : Context → Run Error Context
  pub with_metrics_task : Context → Context
  pub with_blockchain_db : Tree → Context → Run Error Context
  pub with_components : ComponentsBuilder → OnComponentInitialized → Context → Run Error Context
  -- what the context is asked for
  pub is_dev : Context → Bool
  pub skip_fcu : Context → Option ℕ
  pub skip_new_payload : Context → Option ℕ
  pub engine_api_store : Context → Option EngineApiStore
  pub tip : Context → Option ℕ
  pub terminate : Context → Bool
  -- whether the etherscan client is asked for, and with which URL
  pub etherscan : Context → Option (Option (List ℕ))
  pub rpc_consensus_ws : Context → Option (List ℕ)
  pub etherscan_urls : Context → Option (List ℕ)
  pub etherscan_api_key : Context → Option (List ℕ)
  pub Pool : Type 0
  pub pool : Context → Pool
  pub latest_header : Context → Run ProviderError (Option SealedHeader)
  pub sealed_genesis_header : Context → SealedHeader
  pub head_number : Context → ℕ
  pub fetch_client : Context → Run Error NetworkClient
  pub max_block : NetworkClient → Context → Run Error (Option ℕ)
  pub static_file_producer : Context → StaticFileProducer
  pub auth_jwt_secret : Context → Run Error JwtSecret
  -- the parts
  pub launch_exexs : ExExs → Context → Option ExExManagerHandle
  pub empty_exex_handle : ExExManagerHandle
  pub consensus_engine_stream : EngineStream
  pub maybe_skip_fcu : Option ℕ → EngineStream → EngineStream
  pub maybe_skip_new_payload : Option ℕ → EngineStream → EngineStream
  pub maybe_store_messages : Option EngineApiStore → EngineStream → EngineStream
  pub pipeline_events : Pipeline → R.PipelineEvents
  -- the pruner, with the height that the extensions have finished, if there are any
  pub build_pruner : Option ExExManagerHandle → Context → Pruner
  pub launch_rpc_servers :
      BeaconEngineHandle → JwtSecret → Rpc → Context → Run Error (RpcServerHandles × RpcRegistry)
  pub with_dev_accounts : RpcRegistry → RpcRegistry
  -- the errors that the launcher makes
  pub no_etherscan_url : Error
  pub no_etherscan_api_key : Error
