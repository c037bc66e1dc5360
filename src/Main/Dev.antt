-- ===== src/Main/Dev.antt =====
-- The node that src/main.rs configures runs in dev mode.
use rem_poc.Prelude.{◌≡◌, ◌∙◌, refl, List, [], true}
use rem_poc.Prelude.Run.{Run, ok, err, panic}
use rem_poc.Reth.{Reth}
use rem_poc.Launcher.{Target, Job, Launch, try, ◌>>=◌, set_up}
use rem_poc.Launcher.Library.{Node}
use rem_poc.Mac.{Checked}
use rem_poc.Main.{dev_args, node_config, node_builder}
use rem_poc.Main.Library.{Host, KeepsDev}

module _ {R : Reth} {N : Node R} where
  -- A part that starts with a call, and comes to a value, goes on from the value of that call.
  try_bind :
      {A B : Type 0} (r : Run N.Error A) (f : A → Launch N B) (jobs : List (Job N)) (b : B)
      → ((try r >>= f) jobs).0 ≡ ok b
      → (a : A) × (r ≡ ok a) × ((f a jobs).0 ≡ ok b)
  unfolding try ◌>>=◌
  try_bind (ok a) f jobs b e = (a, refl, e)
  try_bind (err x) f jobs b e = cc
  try_bind panic f jobs b e = cc

module _ {R : Reth} {N : Node R} {K : Checked} (H : Host N K) (keeps : KeepsDev H) where
  set_up-is_dev :
      (target : Target N) (ctx ready : N.Context)
      → (set_up target ctx []).0 ≡ ok ready
      → N.is_dev ready ≡ keeps.in_dev_mode target.config
  unfolding set_up try
  set_up-is_dev target ctx ready e =
      let (c₁, e₁, k₁) = try_bind _ _ [] ready e in
      let (c₂, e₂, k₂) = try_bind _ _ [] ready k₁ in
      let (c₃, e₃, k₃) = try_bind _ _ [] ready k₂ in
      let (c₄, e₄, k₄) = try_bind _ _ [] ready k₃ in
      let (c₅, e₅, k₅) = try_bind _ _ [] ready k₄ in
      let (c₆, e₆, k₆) = try_bind _ _ [] ready k₅ in
      keeps.with_components_keeps _ _ c₆ ready k₆
      ∙ (keeps.with_blockchain_db_keeps _ _ c₆ e₆
          ∙ (keeps.with_metrics_task_keeps c₅
              ∙ (keeps.with_genesis_keeps c₄ c₅ e₅
                  ∙ (keeps.with_prometheus_server_keeps c₃ c₄ e₄
                      ∙ (keeps.with_provider_factory_keeps _ c₃ e₃
                          ∙ (keeps.with_adjusted_configs_keeps _
                              ∙ (keeps.attach_keeps target.database c₂
                                  ∙ (keeps.with_resolved_peers_keeps c₁ c₂ e₂
                                      ∙ keeps.with_loaded_toml_config_lem _ _ c₁ e₁))))))))

  node_builder-dev :
      (spec : K.ChainSpec) → keeps.in_dev_mode (node_builder H (node_config H spec)).config ≡ true
  unfolding node_builder node_config
  node_builder-dev spec =
      keeps.testing_node_keeps _ _
      ∙ (keeps.with_chain_keeps spec _ ∙ (keeps.with_rpc_keeps _ _ ∙ keeps.with_dev_lem dev_args _))

  -- The context that is set up from the program's configuration is in dev mode.
  pub set_up-dev :
      (spec : K.ChainSpec) (ctx ready : N.Context)
      → (set_up (node_builder H (node_config H spec)) ctx []).0 ≡ ok ready
      → N.is_dev ready ≡ true
  set_up-dev spec ctx ready e =
      set_up-is_dev (node_builder H (node_config H spec)) ctx ready e ∙ node_builder-dev spec
