-- ===== src/Main/Starts.antt =====
-- What the launch of src/main.rs has spawned, in whatever way it ends.
use rem_poc.Prelude.{
  map, ap, ◌≡◌, refl, sym, ◌∙◌, List, [], ◌∷◌, ◌++◌, append-nil, subst, true, All, All-map,
}
use rem_poc.Prelude.Run.{Run, ok, err, panic, Returns}
use rem_poc.Reth.{Reth, SealedHeader}
use rem_poc.Storage.{new}
use rem_poc.Chain.{latest_or_genesis, new_storage}
use rem_poc.Chain.Consumer.{empty_consumer}
use rem_poc.Task.{MalachiteTask, set_pipeline_events}
use rem_poc.Task.Life.{Lives, start, listen}
use rem_poc.Launcher.{
  NodeHandle, Job, chain, malachite_consumer, mining_task, events_task, consensus_engine,
  etherscan_client, rpc_client, set_up, launch_node,
}
use rem_poc.Launcher.Library.{Node}
use rem_poc.Launcher.Order.{
  Role, building, relaying, mining, followers, role, planned, Fresh, Spawned, Follows,
}
use rem_poc.Launcher.Jobs.{Launched, launch_node-Launched}
use rem_poc.Mac.{Checked}
use rem_poc.Main.{node_config, node_builder, new_launcher, launch}
use rem_poc.Main.Library.{Host, KeepsDev}
use rem_poc.Main.Dev.{set_up-dev}

module _ {R : Reth} {N : Node R} {K : Checked} (H : Host N K) where
  -- The roles of the jobs of a node in dev mode.
  abbrev pub dev_jobs : N.Context → List Role
  dev_jobs ctx = building ∷ relaying ∷ mining ∷ Role.watching ∷ Role.deciding ∷ followers N ctx

  -- The header of the first block, and how the jobs are at their start.
  abbrev pub first_header : N.Context → SealedHeader
  first_header ctx = latest_or_genesis (N.latest_header ctx) (N.sealed_genesis_header ctx)

  abbrev pub IsAtStart : N.Context → Job N → Type 0
  IsAtStart ctx (chain c) = c.pool ≡ N.pool ctx
  IsAtStart ctx (malachite_consumer c) = c ≡ empty_consumer
  IsAtStart ctx (mining_task t) = Lives (new (first_header ctx)) t []
  IsAtStart ctx _ = Unit

  -- Jobs of a node in dev mode have been spawned, in their order, from the first one on; all of them, if
  -- the call returns.
  abbrev pub Starts : {A : Type 0} → Run N.Error A → List (Job N) → Type 0
  Starts r jobs =
      (ctx : N.Context) × (done : List Role) × (rest : List Role) × Spawned N ctx [] jobs done
      × (done ++ rest ≡ dev_jobs ctx)
      × All (IsAtStart ctx) jobs
      × (Returns r → rest ≡ [])

  Fresh-IsAtStart : (ctx : N.Context) (j : Job N) → Fresh N ctx j → IsAtStart ctx j
  unfolding set_pipeline_events new_storage
  Fresh-IsAtStart ctx (chain c) fresh = fresh
  Fresh-IsAtStart ctx (malachite_consumer c) fresh = fresh
  Fresh-IsAtStart ctx (mining_task t) (pipeline, is) =
      subst (λ (t : MalachiteTask R). Lives (new (first_header ctx)) t []) (sym is)
        (listen start (N.pipeline_events pipeline))
  Fresh-IsAtStart ctx (events_task events health head) fresh = tt
  Fresh-IsAtStart ctx (consensus_engine engine) fresh = tt
  Fresh-IsAtStart ctx (etherscan_client handles url key) fresh = tt
  Fresh-IsAtStart ctx (rpc_client handles url) fresh = tt

  Spawned-IsAtStart :
      (ctx : N.Context) (jobs : List (Job N)) (roles : List Role)
      → Spawned N ctx [] jobs roles
      → All (IsAtStart ctx) jobs
  Spawned-IsAtStart ctx jobs roles (new_jobs, e, fresh, same) =
      subst (All (IsAtStart ctx)) (sym e)
        (All-map (Fresh N ctx) (IsAtStart ctx) new_jobs (Fresh-IsAtStart ctx) fresh)

  Follows-Starts :
      {A : Type 0} (ctx : N.Context) (r : Run N.Error A) (jobs : List (Job N))
      → N.is_dev ctx ≡ true
      → Follows N ctx [] (r, jobs) (planned N ctx)
      → Starts r jobs
  Follows-Starts ctx (ok a) jobs dev h = (
    ctx,
    planned N ctx,
    [],
    h,
    append-nil _ ∙ rw dev refl,
    Spawned-IsAtStart ctx jobs _ h,
    λ _. refl,
  )
  Follows-Starts ctx (err e) jobs dev (done, rest, h, is) =
      (ctx, done, rest, h, is ∙ rw dev refl, Spawned-IsAtStart ctx jobs done h, λ (a, returned). cc)
  Follows-Starts ctx panic jobs dev (done, rest, h, is) =
      (ctx, done, rest, h, is ∙ rw dev refl, Spawned-IsAtStart ctx jobs done h, λ (a, returned). cc)

  Launched-Starts :
      (begun : N.Context) (x : Run N.Error N.Context)
      (r : Run N.Error (NodeHandle N) × List (Job N))
      → ((ready : N.Context) → x ≡ ok ready → N.is_dev ready ≡ true)
      → Launched N x r
      → Starts r.0 r.1
  Launched-Starts begun (ok ready) (r, jobs) dev h = Follows-Starts ready r jobs (dev ready refl) h
  Launched-Starts begun (err e) (r, jobs) dev (same, none_spawned) = (
    begun,
    [],
    dev_jobs begun,
    ([], none_spawned, tt, refl),
    refl,
    rw none_spawned tt,
    λ (a, returned). cc,
  )
  Launched-Starts begun panic (r, jobs) dev (same, none_spawned) = (
    begun,
    [],
    dev_jobs begun,
    ([], none_spawned, tt, refl),
    refl,
    rw none_spawned tt,
    λ (a, returned). cc,
  )

  pub launch-Starts :
      (keeps : KeepsDev H) (spec : K.ChainSpec)
      → let r = launch H (node_config H spec) in Starts r.0 r.1
  unfolding launch
  launch-Starts keeps spec =
      let builder = node_builder H (node_config H spec) in
      let begun = new_launcher H H.executor (H.datadir builder.config) in
      Launched-Starts begun (set_up builder begun []).0 (launch_node H.builders builder begun [])
        (λ ready e. set_up-dev H keeps spec begun ready e)
        (launch_node-Launched N H.builders builder begun)

  -- The context that the launch is set up with.
  abbrev pub ready_context : K.ChainSpec → Run N.Error N.Context
  ready_context spec =
      let builder = node_builder H (node_config H spec) in
      (set_up builder (new_launcher H H.executor (H.datadir builder.config)) []).0

  Launched-ready :
      (x : Run N.Error N.Context) (r : Run N.Error (NodeHandle N) × List (Job N))
      → Launched N x r
      → Returns r.0
      → (ready : N.Context) × (x ≡ ok ready) × Spawned N ready [] r.1 (planned N ready)
  Launched-ready (ok ready) (ok a, jobs) h returned = (ready, refl, h)
  Launched-ready (ok ready) (err e, jobs) h (a, is) = cc
  Launched-ready (ok ready) (panic, jobs) h (a, is) = cc
  Launched-ready (err e) (r, jobs) (same, none_spawned) (a, is) = cc
  Launched-ready panic (r, jobs) (same, none_spawned) (a, is) = cc

  -- A launch that returns has set up a context, in dev mode, and spawned all jobs of a node, fresh in it.
  pub launch-ready :
      (keeps : KeepsDev H) (spec : K.ChainSpec)
      → Returns (launch H (node_config H spec)).0
      → (ready : N.Context) × (ready_context spec ≡ ok ready)
        × (map (role N) (launch H (node_config H spec)).1 ≡ dev_jobs ready)
        × All (IsAtStart ready) (launch H (node_config H spec)).1
  unfolding launch
  launch-ready keeps spec returned =
      let builder = node_builder H (node_config H spec) in
      let begun = new_launcher H H.executor (H.datadir builder.config) in
      let r = launch_node H.builders builder begun [] in
      let (ready, e, spawned) =
        Launched-ready (ready_context spec) r (launch_node-Launched N H.builders builder begun)
          returned in
      let (new_jobs, same, fresh, roles) = spawned in
      (
        ready,
        e,
        ap (map (role N)) same ∙ (roles ∙ rw (set_up-dev H keeps spec begun ready e) refl),
        Spawned-IsAtStart ready r.1 (planned N ready) spawned,
      )
