-- ===== src/Main.antt =====
-- src/main.rs: the program's entry, which configures a node in dev mode, launches it, submits one
-- transaction and reports each block that is executed.
pub mod Library
pub mod Constants
pub mod Dev
pub mod Starts
pub mod Runs
pub mod Whole
use rem_poc.Prelude.{ℕ, List, [], ◌∷◌, true, none, some, length, if◌then◌else◌, ◌==◌}
use rem_poc.Prelude.Run.{Run, ok, err, panic, ◌>>=◌}
use rem_poc.Reth.{Reth}
use rem_poc.Launcher.{Target, NodeHandle, Job, launch_node}
use rem_poc.Launcher.Library.{Node}
use rem_poc.Mac.{Checked, build_consensus}
use Library.{Host, DevArgs}
use Constants.{custom_genesis, raw_tx, expected}

-- A stream, as far as it is observed: it may have ended, or the next item is still to come.
pub data Stream (A : Type 0) : Type 0 where
  ended pending : Stream A
  next : A → Stream A → Stream A

-- What the program prints.
pub data Line : Type 0 where
  created : Line
  submitted : ℕ → Line
  executed : ℕ → ℕ → Line

-- How far the program has come; it never returns.
pub data Status (E : Type 0) : Type 0 where
  failed : E → Status E
  panicked watching : Status E

abbrev pub dev_args : DevArgs
dev_args = record { dev = true; block_max_transactions = none; block_time = some 1 }

module _ {R : Reth} {N : Node R} {K : Checked} (H : Host N K) where
  -- The program as it stands: its status, what it has launched, and what it has printed.
  pub record Program : Type 0 where
    pub status : Status N.Error
    pub jobs : List (Job N)
    pub lines : List Line

  -- `MalachiteNodeLauncher`, which holds the context of the launch.
  unfoldable pub new_launcher : H.TaskExecutor → H.DataDir → N.Context
  new_launcher executor data_dir = H.launch_context executor data_dir

  unfoldable pub custom_chain : Run H.JsonError K.ChainSpec
  custom_chain = elim (H.genesis_of_json custom_genesis) [
    | ok genesis ↦ ok (H.chain_spec_of_genesis genesis)
    | err e ↦ panic
    | panic ↦ panic
  ]

  unfoldable pub node_config : K.ChainSpec → N.Config
  node_config spec =
      H.with_chain spec
        (H.with_rpc (H.with_http H.default_rpc_args) (H.with_dev dev_args (H.dev H.test_config)))

  -- The builder, with the node's types, components and add-ons.
  unfoldable pub node_builder : N.Config → Target N
  node_builder config =
      let (database, config') = H.testing_node H.executor config in
      record {
        database = database;
        components_builder =
            H.consensus (build_consensus {K = K} (record {})) H.ethereum_components;
        on_component_initialized = H.no_hook;
        rpc = H.default_rpc;
        installed_exex = H.no_exexs;
        config = config';
      }

  -- `launch_with_fn`
  unfoldable pub launch : N.Config → Run N.Error (NodeHandle N) × List (Job N)
  unfolding node_builder new_launcher launch_node
  launch config =
      let builder = node_builder config in
      launch_node H.builders builder (new_launcher H.executor (H.datadir builder.config)) []

  -- The submission of the transaction, with the assertion on its hash.
  unfoldable pub submit : NodeHandle N → Run N.Error ℕ
  submit handle = do
    hash ← H.send_raw_transaction handle.node.rpc_registry raw_tx
    if hash == expected then ok hash else panic

  -- The loop over the notifications.
  unfoldable pub watch : Stream H.Notification → Status N.Error × List Line
  watch ended = (panicked, [])
  watch pending = (watching, [])
  watch (next head rest) =
      let (status, lines) = watch rest in
      (status, executed (H.tip_number head) (length (H.tip_body head)) ∷ lines)

  unfoldable pub report : Run N.Error ℕ → Stream H.Notification → Status N.Error × List Line
  unfolding watch
  report (ok hash) notifications =
      let (status, lines) = watch notifications in (status, submitted hash ∷ lines)
  report (err e) notifications = (failed e, [])
  report panic notifications = (panicked, [])

  unfoldable pub main : Stream H.Notification → Program
  unfolding custom_chain node_config launch submit report
  main notifications = elim custom_chain [
    | ok spec ↦
        let (launched, jobs) = launch (node_config spec) in
        let (status, lines) = report (launched >>= submit) notifications in
        record { status = status; jobs = jobs; lines = created ∷ lines }
    | err e ↦ record { status = panicked; jobs = []; lines = [] }
    | panic ↦ record { status = panicked; jobs = []; lines = [] }
  ]
