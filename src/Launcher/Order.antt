-- ===== src/Launcher/Order.antt =====
-- The jobs that a launch is to spawn, in their order, and rules for the parts of a launch.
use rem_poc.Prelude.{
  ◌≡◌, refl, sym, ap, subst, ◌∙◌, List, [], ◌∷◌, ◌++◌, append_assoc, append-nil, map, true, Option,
  none, some, All, All-append, if◌then◌else◌,
}
use mathlib.Core.List.{map-append}
use rem_poc.Prelude.Run.{Run, ok, err, panic}
use rem_poc.Reth.{Reth}
use rem_poc.Chain.{new_storage}
use rem_poc.Chain.Consumer.{empty_consumer}
use rem_poc.Task.{new_task}
use rem_poc.Launcher.{
  Job, chain, malachite_consumer, mining_task, events_task, consensus_engine, etherscan_client,
  rpc_client, Launch, pure, try, spawn, continue_with, ◌>>=◌,
}
use rem_poc.Launcher.Library.{Node}

pub data Role : Type 0 where
  building relaying mining watching deciding following_etherscan following_rpc : Role

-- A role, if an option is set.
abbrev pub if_set : {A : Type 0} → Role → Option A → List Role
if_set r none = []
if_set r (some a) = r ∷ []

module _ {R : Reth} (N : Node R) where
  abbrev pub role : Job N → Role
  role (chain c) = building
  role (malachite_consumer c) = relaying
  role (mining_task t) = mining
  role (events_task events health head) = watching
  role (consensus_engine engine) = deciding
  role (etherscan_client handles url key) = following_etherscan
  role (rpc_client handles url) = following_rpc

  -- The roles of a node's jobs, in the order in which they are to be spawned.
  abbrev pub dev_roles : N.Context → List Role
  dev_roles ctx = if N.is_dev ctx then building ∷ relaying ∷ mining ∷ [] else []

  abbrev pub followers : N.Context → List Role
  followers ctx =
      if_set following_etherscan (N.etherscan ctx) ++ if_set following_rpc (N.rpc_consensus_ws ctx)

  abbrev pub planned : N.Context → List Role
  planned ctx = dev_roles ctx ++ (watching ∷ deciding ∷ followers ctx)

  module _ (ctx : N.Context) where
    -- A chain has the node's pool; a consumer starts empty, and the mining task as it is built, on the storage of the latest or the
    -- genesis block, with the events of a pipeline.
    abbrev pub Fresh : Job N → Type 0
    Fresh (chain c) = c.pool ≡ N.pool ctx
    Fresh (malachite_consumer c) = c ≡ empty_consumer
    Fresh (mining_task t) =
        (p : N.Pipeline) × (t
          ≡ record (new_task (new_storage R (N.latest_header ctx) (N.sealed_genesis_header ctx)) []
              true) { pipe_line_events = some (N.pipeline_events p) })
    Fresh _ = Unit

    -- The jobs after `before`, fresh and of these roles, in their order.
    abbrev pub Spawned : List (Job N) → List (Job N) → List Role → Type 0
    Spawned before after roles =
        (new : List (Job N)) × (after ≡ before ++ new) × All Fresh new × (map role new ≡ roles)

    -- A launch that returns has spawned jobs of the roles; one that does not, of the first of them.
    abbrev pub Follows :
        {A : Type 0} → List (Job N) → Run N.Error A × List (Job N) → List Role → Type 0
    Follows before (ok a, after) roles = Spawned before after roles
    Follows before (err e, after) roles =
        (done : List Role) × (rest : List Role) × Spawned before after done × (done ++ rest ≡ roles)
    Follows before (panic, after) roles =
        (done : List Role) × (rest : List Role) × Spawned before after done × (done ++ rest ≡ roles)

    pub record Emits {A : Type 0} (m : Launch N A) (roles : List Role) : Type 0 where
      pub follows : (before : List (Job N)) → Follows before (m before) roles

module _ {R : Reth} (N : Node R) (ctx : N.Context) where
  Spawned-trans :
      (a b c : List (Job N)) (p q : List Role)
      → Spawned N ctx a b p
      → Spawned N ctx b c q
      → Spawned N ctx a c (p ++ q)
  Spawned-trans a b c p q (new, e, fresh, rs) (new', e', fresh', rs') = (
    new ++ new',
    e' ∙ (ap (λ l. l ++ new') e ∙ append_assoc a new new'),
    All-append (Fresh N ctx) new new' fresh fresh',
    map-append (role N) new new' ∙ rw (rs, rs') refl,
  )

  Spawned-none : (a : List (Job N)) → Spawned N ctx a a []
  Spawned-none a = ([], sym (append-nil a), tt, refl)

  Follows-after :
      {A : Type 0} (a b : List (Job N)) (r : Run N.Error A × List (Job N)) (p q : List Role)
      → Spawned N ctx a b p
      → Follows N ctx b r q
      → Follows N ctx a r (p ++ q)
  Follows-after a b (ok x, after) p q h k = Spawned-trans a b after p q h k
  Follows-after a b (err x, after) p q h (done, rest, k, e) = (
    p ++ done,
    rest,
    Spawned-trans a b after p done h k,
    append_assoc p done rest ∙ ap (λ l. p ++ l) e,
  )
  Follows-after a b (panic, after) p q h (done, rest, k, e) = (
    p ++ done,
    rest,
    Spawned-trans a b after p done h k,
    append_assoc p done rest ∙ ap (λ l. p ++ l) e,
  )

module _ {R : Reth} {N : Node R} {ctx : N.Context} where
  pub bind-Emits :
      {A B : Type 0} (m : Launch N A) (f : A → Launch N B) (p q : List Role)
      → Emits N ctx m p
      → ((a : A) → Emits N ctx (f a) q)
      → Emits N ctx (m >>= f) (p ++ q)
  unfolding ◌>>=◌
  bind-Emits {A} {B} m f p q hm hf = record {
    follows = λ before. go before (m before) (hm.follows before);
  }
    where
      go :
          (before : List (Job N)) (x : Run N.Error A × List (Job N))
          → Follows N ctx before x p
          → Follows N ctx before (continue_with x.0 f x.1) (p ++ q)
      go before (ok a, after) h =
          Follows-after N ctx before after (f a after) p q h ((hf a).follows after)
      go before (err e, after) (done, rest, h, is) =
          (done, rest ++ q, h, sym (append_assoc done rest q) ∙ ap (λ l. l ++ q) is)
      go before (panic, after) (done, rest, h, is) =
          (done, rest ++ q, h, sym (append_assoc done rest q) ∙ ap (λ l. l ++ q) is)

  -- What ends without spawning more.
  pub bind_last-Emits :
      {A B : Type 0} (m : Launch N A) (f : A → Launch N B) (p : List Role)
      → Emits N ctx m p
      → ((a : A) → Emits N ctx (f a) [])
      → Emits N ctx (m >>= f) p
  bind_last-Emits m f p hm hf =
      subst (Emits N ctx (m >>= f)) (append-nil p) (bind-Emits m f p [] hm hf)

  pub try-Emits : {A : Type 0} (r : Run N.Error A) → Emits N ctx (try r) []
  unfolding try
  try-Emits (ok a) = record { follows = Spawned-none N ctx }
  try-Emits (err e) = record { follows = λ before. ([], [], Spawned-none N ctx before, refl) }
  try-Emits panic = record { follows = λ before. ([], [], Spawned-none N ctx before, refl) }

  pub spawn-Emits : (j : Job N) → Fresh N ctx j → Emits N ctx (spawn j) (role N j ∷ [])
  unfolding spawn
  spawn-Emits j fresh = record { follows = λ before. (j ∷ [], refl, (fresh, tt), refl) }

  pub pure-Emits : {A : Type 0} (a : A) → Emits N ctx (pure a) []
  unfolding pure
  pure-Emits a = record { follows = Spawned-none N ctx }
