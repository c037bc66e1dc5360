-- ===== src/Tests/OnSystem.antt =====
-- Runs of the jobs side by side: the network takes its first step; and two decision steps are relayed to the
-- task, which is then polled.
use rem_poc.Prelude.{ℕ, ◌≡◌, refl, List, [], ◌∷◌, true, arith}
use mathlib.Core.List.{mem-cons_self}
use rem_poc.Prelude.HashMap
use rem_poc.Storage.{
  new, insert_new_block, build_and_execute, prepare, complete, insert_prepared,
  build_header_template, blooms,
}
use rem_poc.Context.Value.{DecisionStep, proposed, finalized}
use rem_poc.Application.Channels.{Channels}
use rem_poc.Chain.Consumer.{consume_step}
use rem_poc.Simulator.{Simulator, initialize_system}
use rem_poc.Simulator
use rem_poc.Application.Channels.{send, announce, try_recv}
use rem_poc.Application.Handlers.{init, handle_effect, publish_all, publish_to}
use rem_poc.Context.PeerSet.{new_peer_set}
use rem_poc.Chain.{build_values}
use rem_poc.Chain.Builder.{idle}
use rem_poc.Prelude.Run.{Run, ok, err, panic, ◌>>=◌}
use rem_poc.System.{System, relay, poll_task, network, Reach, here, next, started}
use rem_poc.Task.{
  Meeting, new_task, valid, syncing, poll_insert, after_execution, await_replies, send_update,
  set_heads,
}
use rem_poc.Task.Poll.{poll, pass, receive, dispatch, drive, after_poll}
use rem_poc.Tests.{first_block, simple_malachite, simple_reth, served}
use rem_poc.Tests.OnRuns.{deciding}

abbrev value : DecisionStep simple_malachite ℕ
value = proposed (record {
  height = 3;
  round = 0;
  valid_round = 0;
  proposer = 1;
  value = record { id = 7; transactions = 10 ∷ 20 ∷ [] };
  validity = tt;
})

abbrev decision : DecisionStep simple_malachite ℕ
decision = finalized (record { peer = 0; value_id = 7; height = 3 })

abbrev channels : Channels simple_malachite ℕ
channels = record {
  network = [];
  decision_steps = value ∷ decision ∷ [];
  consumer_alive = true;
  proposals = [];
}

abbrev begun : System simple_reth deciding
begun = started simple_reth deciding [] channels (new_task (new first_block) [] true)

abbrev meetings : List (Meeting simple_reth)
meetings = record { lock_free = true; environment = served; replies = syncing ∷ valid ∷ [] } ∷ []

-- The set that was decided is executed, and its block is the best one.
executed_aside :
    (sim : Simulator deciding)
    → (s : System simple_reth deciding) × Reach simple_reth deciding sim [] begun s
      × (s.read ≡ value ∷ decision ∷ [])
      × (s.task.executed ≡ (10 ∷ 20 ∷ []) ∷ [])
      × (s.task.storage.best_block ≡ 6)
unfolding new_task new consume_step HashMap.get HashMap.insert HashMap.contains_key poll pass
    receive dispatch drive after_poll poll_insert after_execution await_replies send_update
    set_heads build_and_execute prepare complete insert_prepared build_header_template blooms
    insert_new_block
executed_aside sim = (
  _,
  next
      (next (next here (relay begun value (decision ∷ []) _ [] refl refl refl))
        (relay _ decision [] _ ((10 ∷ 20 ∷ []) ∷ []) refl refl refl))
      (poll_task _ 2 meetings _ (omega arith) refl),
  refl,
  refl,
  refl,
)

abbrev Holds : {E A : Type 0} → Run E A → (A → Type 0) → Type 0
Holds (ok a) P = P a
Holds (err e) P = ⊥
Holds panic P = ⊥

-- A node whose network has been made and initialized.
initialized : Run (Unit {0}) (Simulator deciding × System simple_reth deciding)
initialized = do
  (sim, states) ← Simulator.new deciding 9 4
  (sim', w) ← initialize_system deciding sim states idle
  ok (sim', started simple_reth deciding states w (new_task (new first_block) [] true))

-- The first peer starts, and takes the set that the pool has yielded by then.
first_proposed : Holds initialized (λ p.
    (s : System simple_reth deciding) × Reach simple_reth deciding p.0 ((10 ∷ []) ∷ []) p.1 s
    × (s.value_counter ≡ 1)
    × (s.channels.proposals ≡ []))
unfolding initialized Simulator.new initialize_system HashMap.get HashMap.insert
    HashMap.contains_key init send announce try_recv handle_effect publish_all publish_to
    new_peer_set Simulator.step build_values
first_proposed =
    (_, next here (network _ ((10 ∷ []) ∷ []) _ _ (mem-cons_self, tt) refl), refl, refl)
