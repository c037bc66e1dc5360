-- ===== src/System/Safe.antt =====
-- What holds however the jobs interleave.
use mathlib.Core.List.{Sublist, Mem, mem-map_of_mem}
use mathlib.Core.List.Sublist
use rem_poc.Prelude.{
  ℕ, ◌+◌, ◌<◌, ◌≤◌, ◌≡◌, refl, sym, subst, ◌∙◌, List, [], ◌∷◌, ◌++◌, append_assoc, map, some,
  length, All, All-map, All-prefix, u64_mod,
}
use rem_poc.Prelude.Run.{ok, Returns}
use rem_poc.Reth.{Reth, SealedHeader}
use rem_poc.Storage.{new}
use rem_poc.Storage.Chain.{CollisionFree}
use rem_poc.Context.Malachite.{Malachite}
use rem_poc.Context.Value.{DecisionStep}
use rem_poc.Application.Channels.{Channels}
use rem_poc.Chain.Builder.{idle}
use rem_poc.Chain.Consumer.{empty_consumer, consume_step, consume}
use rem_poc.Task.{MalachiteTask}
use rem_poc.Task.Life.{Lives}
use rem_poc.Simulator.{Simulator, initialize_system}
use rem_poc.Simulator.Library.{Consensus, IsLawful, DecidesProposed, MakesNoValues}
use rem_poc.Simulator.Range.{InRange}
use rem_poc.Simulator.Routing.{IsWired}
use rem_poc.Simulator.Announce.{IsAnnounced}
use rem_poc.Simulator.Consumed.{IsAnnounced-Consumed}
use rem_poc.Simulator.Feeds.{init-IsAnnounced, idle-IsAnnounced}
use rem_poc.Simulator.RunRule.{initialized}
use rem_poc.Simulator.Values.{HasValues, Announces}
use rem_poc.Simulator.Pool.{init-HasValues}
use rem_poc.Pipeline.{decided}
use rem_poc.Pipeline.FromPool.{FromPool, decided-FromPool}
use rem_poc.Pipeline.Served.{Fetches, sets_of, fetched-decided}
use rem_poc.System.{System, Reach, started}
use rem_poc.System.Invariant.{IsRunning, Reach-IsRunning, consume-snoc}

module _ {M : Malachite} (R : Reth) (C : Consensus M R.Transaction) where
  -- The consumer goes through the next decision step, if there is one; and what a peer can fetch from
  -- the client is, in its order, some of what was decided in the steps that the consumer has read, and
  -- comes from the pool.
  pub record IsServing (pool : List (List R.Transaction)) (b : SealedHeader) (s : System R C)
      : Type 0 where
    pub relays :
        (d : DecisionStep M R.Transaction) (rest : List (DecisionStep M R.Transaction))
        → s.channels.decision_steps ≡ s.read ++ d ∷ rest
        → Returns (consume_step s.consumer d)
    pub serves :
        b.header.number + length s.consumer.to_task + 1 < u64_mod
        → (limit random random' : ℕ)
        → Fetches s.task.storage (b.header.number + 1) limit random random' (λ bodies.
          Sublist (map some (sets_of bodies)) (decided s.read)
          × ((txs : List R.Transaction) → Mem txs (sets_of bodies) → Mem txs pool))

  module _ (lawful : IsLawful C) (decides : DecidesProposed C) (makes : MakesNoValues C)
      (free : CollisionFree R) (pool : List (List R.Transaction)) (b : SealedHeader)
      (sealed : R.hash_slow b.header ≡ b.hash) where
    IsRunning-IsServing :
        (sim : Simulator C) (size : ℕ) (s : System R C)
        → IsRunning R C lawful decides makes sim size pool b s
        → IsServing pool b s
    IsRunning-IsServing sim size s run = record {
      relays = λ d rest at.
          let (c, e) : Returns (consume empty_consumer (s.read ++ d ∷ [])) =
            IsAnnounced-Consumed [] s.channels run.safe.quiet (s.read ++ d ∷ []) rest
              (append_assoc s.read (d ∷ []) rest ∙ sym at) in
          (c, sym (consume-snoc s.read d empty_consumer ∙ rw run.relayed refl) ∙ e);
      serves = λ room limit random random'.
          let (hs, bodies, headers, served, sub) =
            fetched-decided free b s.read s.consumer sealed run.relayed room limit random random'
              s.task run.lives in
          let from : All (Announces (FromPool pool)) s.read =
            All-prefix (Announces (FromPool pool)) s.read run.behind.0
              (subst (All (Announces (FromPool pool))) run.behind.1 run.values.sent.announced) in
          (
            hs,
            bodies,
            headers,
            served,
            (
              sub,
              λ txs m.
                  decided-FromPool pool s.read txs from
                    (Sublist.subset sub (some txs) (mem-map_of_mem some m)),
            ),
          );
    }

    started-IsRunning :
        (sim : Simulator C) (size : ℕ) (states : List C.State) (w : Channels M R.Transaction)
        (t : MalachiteTask R)
        → Lives (new b) t []
        → IsWired C sim states size
        → InRange size w
        → All (λ s. (decides.known s ≡ []) × makes.Holds (FromPool pool) s) states
        → IsAnnounced [] w × HasValues (FromPool pool) w
        → IsRunning R C lawful decides makes sim size pool b (started R C states w t)
    unfolding consume
    started-IsRunning sim size states w t begun wired range fresh (quiet, has) = record {
      wired = wired;
      range = range;
      safe = record {
        quiet = quiet;
        learnt = All-map _ _ states (λ s e h i. absurd (rw e.0 at i)) fresh;
      };
      values = record { sent = has; held = All-map _ _ states (λ s e. e.1) fresh };
      behind = (w.decision_steps, refl);
      relayed = refl;
      lives = begun;
    }

    -- The jobs of a node side by side. Whatever the randomness, a network of 4 to 24 peers is made and
    -- initialized without a panic. Then the network takes steps, while the block builder sends it sets
    -- of transactions from the pool; the consumer reads the decision steps, in their order; and the
    -- execution task, which starts on the storage of a sealed header, is polled and does not panic; all
    -- this in any order. Whenever a decision step waits for the consumer, it goes through it without a
    -- panic. And a peer that asks the client for headers from the block after the first one on,
    -- up to any limit, and then for their bodies, is answered with bodies whose sets of transactions
    -- are, in this order, some of those that were decided in what the consumer has read, and all of
    -- them from the pool, as long as the heights stay below 2^64. The library is taken to keep the
    -- parameters of a state, to touch the channels through the handler alone, to decide only heights
    -- that the peer has received a value for or published a proposal for, and to make no values up; and
    -- headers at different heights are taken to have different hashes.
    pub Reach-IsServing :
        (random size : ℕ) (t : MalachiteTask R)
        → 4 ≤ size
        → size < 25
        → Lives (new b) t []
        → (sim : Simulator C) × (states : List C.State) × (sim' : Simulator C) × (w : Channels M
            R.Transaction)
          × (rem_poc.Simulator.new C random size ≡ ok (sim, states))
          × (initialize_system C sim states idle ≡ ok (sim', w))
          × ((s : System R C) → Reach R C sim' pool (started R C states w t) s → IsServing pool b s)
    Reach-IsServing random size t lo hi alive =
        let (sim, states, sim', w, made, begun, wired, range, fresh, has) =
          initialized C (λ w. IsAnnounced [] w × HasValues (FromPool pool) w)
            (λ s. (decides.known s ≡ []) × makes.Holds (FromPool pool) s) lawful
            (λ c p. (decides.known-new_state c p, makes.Holds-new_state (FromPool pool) c p))
            (λ app set w is. (
              init-IsAnnounced C app set w is.0,
              init-HasValues C makes (FromPool pool) app set w is.1,
            ))
            random size idle lo hi tt
            (idle-IsAnnounced C, record { waiting = tt; sent = tt; announced = tt }) in
        (
          sim,
          states,
          sim',
          w,
          made,
          begun,
          λ s reach. IsRunning-IsServing sim' size s (
              Reach-IsRunning R C lawful decides makes sim' size pool b reach
                (started-IsRunning sim' size states w t alive wired range fresh has)),
        )
