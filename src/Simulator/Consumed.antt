-- ===== src/Simulator/Consumed.antt =====
-- The simulator and the consumer of src/chain.rs together: what the peers announce never makes the
-- consumer panic.
use rem_poc.Prelude.{
  ℕ, ◌≡◌, ◌≢◌, subst, List, [], ◌∷◌, ◌++◌, append_assoc, All, All-set, All-map, All-get_elem?, IsIn,
  IsIn-left, IsIn-right,
}
use rem_poc.Prelude.Run.{Run, ok, err, panic, Returns}
use rem_poc.Context.Malachite.{Malachite}
use rem_poc.Context.Value.{DecisionStep}
use rem_poc.Chain.Consumer.{consume, empty_consumer}
use rem_poc.Chain.Progress.{consume_total}
use rem_poc.Chain.Announced.{proposed_heights, Timely-prefix}
use rem_poc.Application.Messages.{Envelope, Effect, Params}
use rem_poc.Application.Channels.{Channels}
use rem_poc.Application.Handlers.{Application, handle_effect}
use rem_poc.Simulator.{Step, settle, apply_input}
use rem_poc.Simulator.Library.{Consensus, DecidesProposed, received, published, Allowed}
use rem_poc.Simulator.Rule.{After, Keeps}
use rem_poc.Simulator.Announce.Handlers.{handle_effect-IsAnnounced}
use rem_poc.Simulator.Announce.{Announced, IsAnnounced, IsAnnounced-known, Announced-append, Sent}

module _ {M : Malachite} {Transaction : Type 0} where
  Allowed-more :
      (heights more : List ℕ) (e : Effect M Transaction)
      → Allowed heights e
      → Allowed (heights ++ more) e
  Allowed-more heights more (Effect.decide c) i = IsIn-left c.height heights more i
  Allowed-more heights more _ i = tt

  -- The consumer goes through the steps, and through as many of them as it has received so far.
  abbrev pub Consumed : List (DecisionStep M Transaction) → Type 0
  Consumed ds =
      (before after : List (DecisionStep M Transaction))
      → before ++ after ≡ ds
      → Returns (consume empty_consumer before)

  pub IsAnnounced-Consumed :
      (heights : List ℕ) (w : Channels M Transaction)
      → IsAnnounced heights w
      → Consumed w.decision_steps
  IsAnnounced-Consumed heights w is before after e =
      (consume_total before).0 (Timely-prefix [] before after (rw e is.timely))

module _ {M : Malachite} {Transaction : Type 0} (C : Consensus M Transaction)
    (decides : DecidesProposed C) where
  -- All is announced that the peers know, that is on the network, or that was decided.
  pub record IsSafe (states : List C.State) (w : Channels M Transaction) : Type 0 where
    pub quiet : IsAnnounced [] w
    pub learnt : All (λ s. Announced (decides.known s) w.decision_steps) states

  abbrev pub StepSafe : Step C → Type 0
  StepSafe = After C IsSafe (IsAnnounced [])

  apply_input-IsAnnounced :
      (app : Application) (p : Params M Transaction) (m : C.Metrics) (s : C.State)
      (e : Envelope M Transaction) (w : Channels M Transaction) (others : List ℕ)
      → p.address ≡ app.peer_id
      → p.initial_validator_set.peers ≢ []
      → IsAnnounced ((received e.payload ++ decides.known s) ++ others) w
      → let r = apply_input C app e.payload p m s (C.ctx s) w in
        IsAnnounced (decides.known r.1 ++ others) r.2
  unfolding apply_input
  apply_input-IsAnnounced app p m s e w others same some_peer is =
      decides.process_decides (λ heights w'. IsAnnounced (heights ++ others) w')
        (handle_effect app p (C.ctx s)) fewer handled e.payload s m w is
    where
      fewer :
          (heights few : List ℕ) (w' : Channels M Transaction)
          → ((h : ℕ) → IsIn h few → IsIn h heights)
          → IsAnnounced (heights ++ others) w'
          → IsAnnounced (few ++ others) w'
      fewer heights few w' sub is' =
          IsAnnounced-known (heights ++ others) (few ++ others) w'
            (Announced-append few others w'.decision_steps
              (λ h i. is'.knows h (IsIn-left h heights others (sub h i)))
              (λ h i. is'.knows h (IsIn-right h heights others i)))
            is'

      handled :
          (heights : List ℕ) (effect : Effect M Transaction) (w' : Channels M Transaction)
          → Allowed heights effect
          → IsAnnounced (heights ++ others) w'
          → IsAnnounced
              ((published effect ++ heights) ++ others)
              (handle_effect app p (C.ctx s) effect w').1
      handled heights effect w' allowed is' = rw (append_assoc (published effect) heights others) (
          handle_effect-IsAnnounced (heights ++ others) app p (C.ctx s) same some_peer effect w'
            (Allowed-more heights others effect allowed) is')

  settle-StepSafe :
      (states : List C.State) (i : ℕ) (ds : List (DecisionStep M Transaction))
      (r : Run C.Error (Unit {0}) × C.State × Channels M Transaction)
      → All (λ s. Announced (decides.known s) ds) states
      → IsAnnounced (decides.known r.1 ++ proposed_heights ds) r.2
      → StepSafe (settle C states i r)
  settle-StepSafe states i ds (ok u, s', w') all is = record {
    quiet = IsAnnounced-known _ [] w' (λ h i. absurd i) is;
    learnt =
        All-set _ states i s'
          (All-map _ _ states
            (λ s known h i. is.knows h (IsIn-right h (decides.known s') _ (known h i))) all)
          (λ h i. is.knows h (IsIn-left h (decides.known s') _ i));
  }
  settle-StepSafe states i ds (err x, s', w') all is =
      IsAnnounced-known _ [] w' (λ h i. absurd i) is
  settle-StepSafe states i ds (panic, s', w') all is =
      IsAnnounced-known _ [] w' (λ h i. absurd i) is

  -- Every step keeps it.
  pub IsSafe-Keeps :
      (states : List C.State) (w : Channels M Transaction)
      → IsSafe states w
      → Keeps C IsSafe (IsAnnounced []) states w
  IsSafe-Keeps states w safe e rest s p m app net es same some_peer =
      let sent : Sent w.decision_steps (e ∷ rest) =
        subst (Sent w.decision_steps) net safe.quiet.sent in
      let before : List ℕ = proposed_heights w.decision_steps in
      let w₀ : Channels M Transaction = record w { network = rest } in
      let knows : Announced (received e.payload ++ decides.known s) w.decision_steps =
        Announced-append (received e.payload) (decides.known s) w.decision_steps sent.0
          (All-get_elem? _ states e.destination s safe.learnt es) in
      let start : IsAnnounced ((received e.payload ++ decides.known s) ++ before) w₀ = record {
        alive = safe.quiet.alive;
        knows = Announced-append _ before w.decision_steps knows (λ h i. i);
        sent = sent.1;
        timely = safe.quiet.timely;
      } in
      settle-StepSafe states e.destination w.decision_steps
        (apply_input C app e.payload p m s (C.ctx s) w₀) safe.learnt
        (apply_input-IsAnnounced app p m s e w₀ before same some_peer start)
