-- ===== src/System/Invariant.antt =====
-- What every step of the jobs side by side keeps.
use mathlib.Core.List.{Mem}
use rem_poc.Prelude.{
  ℕ, ◌≡◌, refl, sym, subst, ◌∙◌, List, [], ◌∷◌, ◌++◌, append_assoc, append-nil, add_u64, All,
  All-of,
}
use rem_poc.Prelude.Run.{Run, ok, err, panic, ◌>>=◌, >>=-ok}
use rem_poc.Reth.{Reth, SealedHeader}
use rem_poc.Storage.{StorageInner, new}
use rem_poc.Context.Malachite.{Malachite}
use rem_poc.Context.Value.{BaseValue, DecisionStep}
use rem_poc.Application.Channels.{Channels}
use rem_poc.Chain.{build_values}
use rem_poc.Chain.Consumer.{Consumer, empty_consumer, consume_step, consume}
use rem_poc.Task.{MalachiteTask}
use rem_poc.Task.Life.{Lives, arrive, polled}
use rem_poc.Simulator.{Simulator, stepped, step, take_in}
use rem_poc.Simulator.Library.{Consensus, IsLawful, DecidesProposed, MakesNoValues}
use rem_poc.Simulator.Range.{InRange}
use rem_poc.Simulator.Routing.{IsWired, StepWell, step-StepWell}
use rem_poc.Simulator.Rule.{After, step-After}
use rem_poc.Simulator.Announce.{IsAnnounced}
use rem_poc.Simulator.Consumed.{IsSafe, IsSafe-Keeps}
use rem_poc.Simulator.Feeds.{take_in-IsSafe}
use rem_poc.Simulator.Values.{HasValues}
use rem_poc.Simulator.Pool.{AreValues, AreValues-Keeps, take_in-AreValues}
use rem_poc.Pipeline.FromPool.{FromPool}
use rem_poc.System.{System, SystemStep, network, relay, poll_task, Reach, here, next}
use rem_poc.System.Network.{Continues, Continues-Keeps}

module _ {M : Malachite} {Transaction : Type 0} where
  pub consume-snoc :
      (ds : List (DecisionStep M Transaction)) (d : DecisionStep M Transaction)
      (c : Consumer Transaction)
      → consume c (ds ++ d ∷ []) ≡ (consume c ds >>= λ c'. consume_step c' d)
  unfolding consume
  consume-snoc [] d c = >>=-ok (consume_step c d)
  consume-snoc (d' ∷ ds) d c = on (consume-snoc ds d) (consume_step c d')
    where
      on :
          ((c : Consumer Transaction)
            → consume c (ds ++ d ∷ []) ≡ (consume c ds >>= λ c'. consume_step c' d))
          → (r : Run (Unit {0}) (Consumer Transaction))
          → (r >>= λ c'. consume c' (ds ++ d ∷ []))
            ≡ ((r >>= λ c'. consume c' ds) >>= λ c'. consume_step c' d)
      on ih (ok c') = ih c'
      on ih (err e) = refl
      on ih panic = refl

module _ {R : Reth} where
  arrive_all :
      {s : StorageInner R} (sent : List (List R.Transaction)) (t : MalachiteTask R)
      (sets : List (List R.Transaction))
      → Lives s t sets
      → Lives s (record t { chain_rx = t.chain_rx ++ sent }) (sets ++ sent)
  arrive_all {s} [] t sets l =
      subst
        (λ (x : List (List R.Transaction) × List (List R.Transaction)).
          Lives s (record t { chain_rx = x.0 }) x.1)
        (λ i. (sym (append-nil t.chain_rx) i, sym (append-nil sets) i)) l
  arrive_all {s} (txs ∷ sent) t sets l =
      subst
        (λ (x : List (List R.Transaction) × List (List R.Transaction)).
          Lives s (record t { chain_rx = x.0 }) x.1)
        (λ i. (append_assoc t.chain_rx (txs ∷ []) sent i, append_assoc sets (txs ∷ []) sent i))
        (arrive_all sent (record t { chain_rx = t.chain_rx ++ txs ∷ [] }) (sets ++ txs ∷ [])
          (arrive l txs))

module _ {M : Malachite} (R : Reth) (C : Consensus M R.Transaction) (lawful : IsLawful C)
    (decides : DecidesProposed C) (makes : MakesNoValues C) (sim : Simulator C) (size : ℕ)
    (pool : List (List R.Transaction)) (b : SealedHeader) where
  -- The network is as its own steps keep it; the consumer has come through what it has read of its
  -- decision steps; and the task has lived with what the consumer has sent.
  pub record IsRunning (s : System R C) : Type 0 where
    pub wired : IsWired C sim s.states size
    pub range : InRange size s.channels
    pub safe : IsSafe C decides s.states s.channels
    pub values : AreValues C makes (FromPool pool) s.states s.channels
    pub behind : Continues s.read s.channels
    pub relayed : consume empty_consumer s.read ≡ ok s.consumer
    pub lives : Lives (new b) s.task s.consumer.to_task

  AllFrom :
      (counter : ℕ) (batches : List (List R.Transaction))
      → All (λ txs. Mem txs pool) batches
      → All (FromPool pool) (build_values counter batches)
  unfolding build_values
  AllFrom counter [] all = tt
  AllFrom counter (txs ∷ rest) all = (all.0, AllFrom (add_u64 counter 1) rest all.1)

  network-IsRunning :
      (s : System R C) (values : List (BaseValue R.Transaction)) (states' : List C.State)
      (w' : Channels M R.Transaction) (counter : ℕ)
      → All (FromPool pool) values
      → step C sim s.states (take_in C values s.channels) ≡ stepped states' w'
      → IsRunning s
      → IsRunning (record s { states = states'; channels = w'; value_counter = counter })
  network-IsRunning s values states' w' counter from e run =
      let w₁ = take_in C values s.channels in
      let any : All (λ _. Unit {0}) values = All-of (λ _. tt) values in
      let safe₁ = take_in-IsSafe C decides values s.states s.channels any run.safe in
      let values₁ =
        take_in-AreValues C makes (FromPool pool) values s.states s.channels from run.values in
      let (wired, range) : StepWell C sim s.states size w₁ (stepped states' w') =
        subst (StepWell C sim s.states size w₁) e
          (step-StepWell C lawful sim s.states size w₁ run.wired run.range) in
      record {
        wired = wired;
        range = range;
        safe = subst (After C (IsSafe C decides) (IsAnnounced [])) e (
            step-After C (IsSafe C decides) (IsAnnounced []) sim s.states size w₁ run.wired
              run.range (IsSafe-Keeps C decides s.states w₁ safe₁));
        values = subst (After C (AreValues C makes (FromPool pool)) (HasValues (FromPool pool))) e (
            step-After C (AreValues C makes (FromPool pool)) (HasValues (FromPool pool)) sim
              s.states size w₁ run.wired run.range
              (AreValues-Keeps C makes (FromPool pool) s.states w₁ values₁));
        behind = subst (After C (λ _. Continues s.read) (Continues s.read)) e (
            step-After C (λ _. Continues s.read) (Continues s.read) sim s.states size w₁ run.wired
              run.range (Continues-Keeps C lawful s.read s.states w₁ run.behind));
        relayed = run.relayed;
        lives = run.lives;
      }

  -- Every step of any of the jobs keeps it.
  pub SystemStep-IsRunning :
      {s t : System R C} → SystemStep R C sim pool s t → IsRunning s → IsRunning t
  SystemStep-IsRunning (network s batches states' w' from e) run =
      network-IsRunning s (build_values s.value_counter batches) states' w' _
        (AllFrom s.value_counter batches from) e run
  SystemStep-IsRunning (relay s d rest c sent at e sends) run = record {
    wired = run.wired;
    range = run.range;
    safe = run.safe;
    values = run.values;
    behind = (rest, at ∙ sym (append_assoc s.read (d ∷ []) rest));
    relayed = consume-snoc s.read d empty_consumer ∙ (rw run.relayed e);
    lives =
        subst (Lives (new b) (record (s.task) { chain_rx = s.task.chain_rx ++ sent })) (sym sends)
          (arrive_all sent s.task s.consumer.to_task run.lives);
  }
  SystemStep-IsRunning (poll_task s fuel ms t lt e) run = record {
    wired = run.wired;
    range = run.range;
    safe = run.safe;
    values = run.values;
    behind = run.behind;
    relayed = run.relayed;
    lives = polled run.lives fuel ms lt e;
  }

  pub Reach-IsRunning : {s t : System R C} → Reach R C sim pool s t → IsRunning s → IsRunning t
  Reach-IsRunning here run = run
  Reach-IsRunning (next r st) run = SystemStep-IsRunning st (Reach-IsRunning r run)
