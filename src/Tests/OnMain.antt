-- ===== src/Tests/OnMain.antt =====
-- A run of the program on the node of the launcher's tests, with two notifications.
use rem_poc.Prelude.{ℕ, ◌≡◌, ◌↔◌, refl, List, [], ◌∷◌, true, false, map}
use rem_poc.Prelude.Run.{Run, ok, Returns}
use rem_poc.Launcher.{
  NodeHandle, pure, try, spawn, ◌>>=◌, set_up, configure_pipeline, configure_engine,
  start_etherscan_client, start_rpc_client, start, launch_on,
}
use rem_poc.Chain.Builder.{build}
use rem_poc.Task.{set_pipeline_events}
use rem_poc.Mac.{Checked}
use rem_poc.Main.{
  Stream, pending, next, Line, created, submitted, executed, Status, watching, custom_chain,
  node_config, launch, main,
}
use rem_poc.Main.Constants.{raw_tx, expected}
use rem_poc.Main.Library.{Host, KeepsDev}
use rem_poc.Main.Starts.{Starts}
use rem_poc.Main.Runs.{IsOpen, seen, line, main_lem}
use rem_poc.Tests.OnLauncher.{dev_node, builders_of}

abbrev simple_checked : Checked
simple_checked = record {
  ChainSpec = ℕ;
  SealedBlock = ℕ;
  BlockWithSenders = ℕ;
  PostExecutionInput = ℕ;
  ConsensusError = ℕ;
  BuilderContext = ℕ;
  chain_spec = λ ctx. ctx;
}

-- A node that answers the transaction with `hash`.
abbrev host_with : Run ℕ ℕ → Host dev_node simple_checked
host_with hash = record {
  TaskExecutor = Unit {0};
  DataDir = Unit {0};
  RpcServerArgs = Unit {0};
  Genesis = ℕ;
  JsonError = Unit {0};
  Components = Unit {0};
  Notification = ℕ × List ℕ;
  tip_number = λ n. n.0;
  tip_body = λ n. n.1;
  executor = tt;
  test_config = false;
  dev = λ c. true;
  with_dev = λ args c. args.dev;
  default_rpc_args = tt;
  with_http = λ args. args;
  with_rpc = λ args c. c;
  with_chain = λ spec c. c;
  genesis_of_json = λ text. ok 2600;
  chain_spec_of_genesis = λ genesis. genesis;
  testing_node = λ e c. (tt, c);
  ethereum_components = tt;
  consensus = λ build components. tt;
  no_hook = tt;
  default_rpc = tt;
  no_exexs = tt;
  datadir = λ c. tt;
  launch_context = λ e d. (false, []);
  builders = builders_of (ok 7);
  send_raw_transaction = λ registry tx. hash;
}

abbrev pub host : Host dev_node simple_checked
host = host_with (ok expected)

pub host-KeepsDev : KeepsDev host
host-KeepsDev = record {
  in_dev_mode = λ c. c;
  with_dev_lem = λ args c. refl;
  with_rpc_keeps = λ args c. refl;
  with_chain_keeps = λ spec c. refl;
  testing_node_keeps = λ e c. refl;
  with_loaded_toml_config_lem = λ c ctx ctx' e. cc;
  with_resolved_peers_keeps = λ ctx ctx' e. cc;
  attach_keeps = λ db ctx. refl;
  with_adjusted_configs_keeps = λ ctx. refl;
  with_provider_factory_keeps = λ ctx ctx' e. cc;
  with_prometheus_server_keeps = λ ctx ctx' e. cc;
  with_genesis_keeps = λ ctx ctx' e. cc;
  with_metrics_task_keeps = λ ctx. refl;
  with_blockchain_db_keeps = λ tree ctx ctx' e. cc;
  with_components_keeps = λ builder hook ctx ctx' e. cc;
}

abbrev pub two_blocks : Stream (ℕ × List ℕ)
two_blocks = next (6, 10 ∷ 20 ∷ []) (next (7, []) pending)

pub custom_chain_read : custom_chain host ≡ ok 2600
unfolding custom_chain
custom_chain_read = refl

main_lem_example :
    let p = main host two_blocks in
    let launched = (launch host (node_config host 2600)).0 in
    Starts host launched p.jobs
    × ((p.status ≡ watching) ↔ (
        (handle : NodeHandle dev_node) × (launched ≡ ok handle)
        × (host.send_raw_transaction handle.node.rpc_registry raw_tx ≡ ok expected)
        × IsOpen two_blocks))
    × (p.status ≡ watching
        → Returns launched
          × (p.lines ≡ created ∷ submitted expected ∷ map (line host) (seen two_blocks)))
main_lem_example = main_lem host host-KeepsDev 2600 custom_chain_read two_blocks

lines_of : Run ℕ ℕ → Stream (ℕ × List ℕ) → Status ℕ × List Line
unfolding main
lines_of hash s = let p = main (host_with hash) s in (p.status, p.lines)

two_reported :
    lines_of (ok expected) two_blocks
    ≡ (watching, created ∷ submitted expected ∷ executed 6 2 ∷ executed 7 0 ∷ [])
unfolding lines_of set_up launch_on configure_pipeline configure_engine start start_etherscan_client
    start_rpc_client pure try spawn ◌>>=◌ build set_pipeline_events
two_reported = refl

pub two_watched : (main host two_blocks).status ≡ watching
unfolding main set_up launch_on configure_pipeline configure_engine start start_etherscan_client
    start_rpc_client pure try spawn ◌>>=◌ build set_pipeline_events
two_watched = refl
