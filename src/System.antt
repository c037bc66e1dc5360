-- ===== src/System.antt =====
-- The jobs that a node of src/launcher.rs runs side by side: the chain of src/chain.rs with its block builder
-- and its network, the consumer and the execution task of src/chain/task.rs. Each takes its steps whenever
-- it likes.
pub mod Network
pub mod Invariant
pub mod Safe
use mathlib.Core.List.{Mem}
use rem_poc.Prelude.{ℕ, ◌<◌, ◌≡◌, List, [], ◌∷◌, ◌++◌, add_u64, true, All}
use rem_poc.Prelude.Run.{Run, ok}
use rem_poc.Reth.{Reth, SealedHeader}
use rem_poc.Storage.{new}
use rem_poc.Context.Malachite.{Malachite}
use rem_poc.Context.Value.{DecisionStep}
use rem_poc.Application.Channels.{Channels}
use rem_poc.Simulator.{Simulator, stepped, step, take_in}
use rem_poc.Simulator.Library.{Consensus}
use rem_poc.Chain.{build_values}
use rem_poc.Chain.Consumer.{Consumer, empty_consumer, consume_step}
use rem_poc.Task.{MalachiteTask, Meeting, new_task}
use rem_poc.Task.Poll.{returned, poll}
use rem_poc.Task.Work.{backlog}

-- The counter after a value for each of these sets.
abbrev pub count_on : {Transaction : Type 0} → ℕ → List (List Transaction) → ℕ
count_on counter [] = counter
count_on counter (txs ∷ rest) = count_on (add_u64 counter 1) rest

module _ {M : Malachite} (R : Reth) (C : Consensus M R.Transaction) where
  pub record System : Type 0 where
    -- the peers' states, and the channels between them, the block builder and the consumer
    pub states : List C.State
    pub channels : Channels M R.Transaction
    -- the block builder's `value_counter`
    pub value_counter : ℕ
    -- the consumer, and the decision steps that it has read
    pub consumer : Consumer R.Transaction
    pub read : List (DecisionStep M R.Transaction)
    pub task : MalachiteTask R

  -- A step, in a network with the parameters of `sim`, where all sets that the pool ever yields are in
  -- `pool`. A step of the network, with the values that the block builder sends before or in it; the
  -- consumer, which reads the next decision step and may send a set to the task; and a poll of the
  -- task, with all the fuel that it needs.
  pub data SystemStep (sim : Simulator C) (pool : List (List R.Transaction))
      : System → System → Type 0 where
    network :
        (s : System) (batches : List (List R.Transaction)) (states' : List C.State)
        (w' : Channels M R.Transaction)
        → All (λ txs. Mem txs pool) batches
        → step C sim s.states (take_in C (build_values s.value_counter batches) s.channels)
          ≡ stepped states' w'
        → SystemStep sim pool s (record s {
          states = states';
          channels = w';
          value_counter = count_on s.value_counter batches;
        })
    relay :
        (s : System) (d : DecisionStep M R.Transaction) (rest : List (DecisionStep M R.Transaction))
        (c : Consumer R.Transaction) (sent : List (List R.Transaction))
        → s.channels.decision_steps ≡ s.read ++ d ∷ rest
        → consume_step s.consumer d ≡ ok c
        → c.to_task ≡ s.consumer.to_task ++ sent
        → SystemStep sim pool s (record s {
          consumer = c;
          read = s.read ++ d ∷ [];
          task = record (s.task) { chain_rx = s.task.chain_rx ++ sent };
        })
    poll_task :
        (s : System) (fuel : ℕ) (ms : List (Meeting R)) (t : MalachiteTask R)
        → backlog s.task < fuel
        → poll fuel s.task ms ≡ returned t
        → SystemStep sim pool s (record s { task = t })

  -- Any number of steps.
  pub data Reach (sim : Simulator C) (pool : List (List R.Transaction)) (start : System)
      : System → Type 0 where
    here : Reach sim pool start start
    next :
        {s t : System} → Reach sim pool start s → SystemStep sim pool s t → Reach sim pool start t

  -- The node as it starts, when the network has been initialized, with a task to execute what is
  -- decided.
  abbrev pub started : List C.State → Channels M R.Transaction → MalachiteTask R → System
  started states w t = record {
    states = states;
    channels = w;
    value_counter = 0;
    consumer = empty_consumer;
    read = [];
    task = t;
  }
