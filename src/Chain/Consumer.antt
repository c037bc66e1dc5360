-- ===== src/Chain/Consumer.antt =====
-- `MalachiteChainConsumer` of src/chain.rs: one pass of its loop for each decision step received.
use rem_poc.Prelude.{List, [], ◌∷◌, ◌++◌, Bool, true, if◌then◌else◌, ◌==◌}
use rem_poc.Prelude.HashMap
use rem_poc.Prelude.HashMap.{HashMap}
use rem_poc.Prelude.Run.{Run, ok, panic, ◌>>=◌, unwrap}
use rem_poc.Context.Malachite.{Malachite}
use rem_poc.Context.Value.{BaseValue, DecisionStep, proposed, finalized}

pub record Consumer (Transaction : Type 0) : Type 0 where
  -- the values proposed, by height
  pub decisions : HashMap (BaseValue Transaction)
  -- what was sent to the task, oldest first, and whether the task still receives
  pub to_task : List (List Transaction)
  pub task_alive : Bool

module _ {Transaction : Type 0} where
  abbrev pub empty_consumer : Consumer Transaction
  empty_consumer = record { decisions = []; to_task = []; task_alive = true }

  -- `self.to_task.send(txs).expect(…)`
  unfoldable pub relay :
      Consumer Transaction → List Transaction → Run (Unit {0}) (Consumer Transaction)
  relay c txs = if c.task_alive then ok (record c { to_task = c.to_task ++ txs ∷ [] }) else panic

module _ {M : Malachite} {Transaction : Type 0} where
  unfoldable pub consume_step :
      Consumer Transaction → DecisionStep M Transaction → Run (Unit {0}) (Consumer Transaction)
  unfolding relay
  consume_step c (proposed p) =
      if HashMap.contains_key c.decisions p.height
      then ok c
      else ok (record c { decisions = HashMap.insert c.decisions p.height p.value })
  consume_step c (finalized f) =
      if f.peer == 0
      then (do value ← unwrap (HashMap.get c.decisions f.height); relay c value.transactions)
      else ok c

  -- `run`, on the steps received until the channel is closed.
  unfoldable pub consume :
      Consumer Transaction
      → List (DecisionStep M Transaction)
      → Run (Unit {0}) (Consumer Transaction)
  consume c [] = ok c
  consume c (d ∷ ds) = do c' ← consume_step c d; consume c' ds
