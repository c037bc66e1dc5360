-- ===== src/Tests/OnSimulator.antt =====
-- Runs of the simulator, with a library that asks for a value when a height starts.
use rem_poc.Prelude.{
  ℕ, zero, suc, ◌≡◌, ◌≢◌, ◌<◌, refl, List, [], ◌∷◌, ◌++◌, some, true, arith, All, replicate,
}
use rem_poc.Prelude.HashMap
use rem_poc.Prelude.Run.{Run, ok, err, panic}
use rem_poc.Context.PeerSet.{new_peer_set}
use rem_poc.Context.Base.{BaseContext, new_context, shared_public_key}
use rem_poc.Application.Messages.{Params, Input, Effect, Resume}
use rem_poc.Application.Channels.{Channels, Action, HandlerError}
use rem_poc.Application.Handlers.{Application, handle_effect}
use rem_poc.Simulator.{Simulator, new, initialize_system, run}
use rem_poc.Simulator.Library.{Consensus, IsLawful}
use rem_poc.Simulator.Range.{InRange, handle_effect-InRange}
use rem_poc.Simulator.Routing.{IsWired}
use rem_poc.Simulator.Runs.{RunWell}
use rem_poc.Simulator.Whole.{run-RunWell}
use rem_poc.Simulator.Peers.{starts}
use rem_poc.Simulator.Wiring.{initialize_system-IsWired}
use rem_poc.Tests.{simple_malachite}

abbrev pub Peer : Type 0
Peer = BaseContext simple_malachite × Params simple_malachite ℕ

abbrev pub finish : Run HandlerError (Resume simple_malachite ℕ) → Run (Unit {0}) (Unit {0})
finish (ok r) = ok tt
finish (err e) = err tt
finish panic = panic

abbrev asking :
    (Effect simple_malachite ℕ → Action simple_malachite ℕ (Resume simple_malachite ℕ))
    → Input simple_malachite ℕ
    → Peer
    → Unit {0}
    → Channels simple_malachite ℕ
    → Run (Unit {0}) (Unit {0}) × Peer × Channels simple_malachite ℕ
asking handler (Input.start_height h set) s m w =
    let (r, w') = handler (Effect.get_value h 0) w in (finish r, s, w')
asking handler _ s m w = (ok tt, s, w)

abbrev simple_consensus : Consensus simple_malachite ℕ
simple_consensus = record {
  State = Peer;
  Metrics = Unit {0};
  Error = Unit {0};
  new_metrics = tt;
  new_state = λ c p. (c, p);
  params = λ s. s.1;
  ctx = λ s. s.0;
  process = asking;
}

asking_keeps :
    (P : Channels simple_malachite ℕ → Type 0)
    (handler : Effect simple_malachite ℕ → Action simple_malachite ℕ (Resume simple_malachite ℕ))
    → ((e : Effect simple_malachite ℕ) (w : Channels simple_malachite ℕ) → P w → P (handler e w).1)
    → (input : Input simple_malachite ℕ) (s : Peer) (m : Unit {0}) (w : Channels simple_malachite ℕ)
    → P w
    → P (asking handler input s m w).2
asking_keeps P handler keeps (Input.start_height h set) s m w p = keeps (Effect.get_value h 0) w p
asking_keeps P handler keeps (Input.timeout_elapsed t) s m w p = p
asking_keeps P handler keeps (Input.vote v) s m w p = p
asking_keeps P handler keeps (Input.proposal v) s m w p = p
asking_keeps P handler keeps (Input.proposed_value v o) s m w p = p
asking_keeps P handler keeps (Input.propose v) s m w p = p

simple_consensus-IsLawful : IsLawful simple_consensus
simple_consensus-IsLawful = record { params-new_state = λ c p. refl; process_keeps = asking_keeps }

abbrev quiet : Channels simple_malachite ℕ
quiet = record { network = []; decision_steps = []; consumer_alive = true; proposals = [] }

initialize_system-IsWired_example :
    let set = new_peer_set 4 (shared_public_key (new_context simple_malachite 9)) in
    (sim : Simulator simple_consensus) × (states : List Peer) × (sim' : Simulator simple_consensus)
    × (w' : Channels simple_malachite ℕ) × (new simple_consensus 9 4 ≡ ok (sim, states))
    × (initialize_system simple_consensus sim states quiet ≡ ok (sim', w'))
    × IsWired simple_consensus sim' states 4
    × (w'.network ≡ [] ++ starts set 4 0)
    × InRange 4 w'
initialize_system-IsWired_example =
    initialize_system-IsWired simple_consensus simple_consensus-IsLawful 9 4 quiet (omega arith)
      (omega arith) tt

-- A network of two peers; both are to start their first height, and there is one value to propose.
abbrev params_of : ℕ → Params simple_malachite ℕ
params_of a = record {
  initial_height = 0;
  initial_validator_set = record {
    peers =
        record { id = 0; public_key = record { key = 9 } }
        ∷ record { id = 1; public_key = record { key = 9 } }
        ∷ [];
  };
  address = a;
  threshold_params = tt;
  value_payload = tt;
}

abbrev context : BaseContext simple_malachite
context = record { signing_provider = record { private_key = record { key = 9 } } }

abbrev two_peers : Simulator simple_consensus
two_peers = record {
  params = (0, params_of 0) ∷ (1, params_of 1) ∷ [];
  metrics = (0, tt) ∷ (1, tt) ∷ [];
  apps = (0, record { peer_id = 0 }) ∷ (1, record { peer_id = 1 }) ∷ [];
}

abbrev two_states : List Peer
two_states = (context, params_of 0) ∷ (context, params_of 1) ∷ []

abbrev starting : Channels simple_malachite ℕ
starting = record quiet {
  network =
      record {
        source = 1;
        destination = 1;
        payload = Input.start_height 0 (params_of 1).initial_validator_set;
      }
      ∷ record {
        source = 0;
        destination = 0;
        payload = Input.start_height 0 (params_of 0).initial_validator_set;
      }
      ∷ [];
  proposals = record { id = 0; transactions = 10 ∷ [] } ∷ [];
}

two_params :
    (a : ℕ)
    → a < 2
    → (p : Params simple_malachite ℕ) × (HashMap.get two_peers.params a ≡ some p)
      × (p.address ≡ a)
      × All (λ v. v.id < 2) p.initial_validator_set.peers
      × (p.initial_validator_set.peers ≢ [])
unfolding HashMap.get
two_params zero lt = (params_of 0, refl, refl, (omega arith, (omega arith, tt)), λ e. cc)
two_params (suc zero) lt = (params_of 1, refl, refl, (omega arith, (omega arith, tt)), λ e. cc)
two_params (suc (suc a)) lt = absurd (omega (arith, lt))

two_metrics : (a : ℕ) → a < 2 → (m : Unit {0}) × (HashMap.get two_peers.metrics a ≡ some m)
unfolding HashMap.get
two_metrics zero lt = (tt, refl)
two_metrics (suc zero) lt = (tt, refl)
two_metrics (suc (suc a)) lt = absurd (omega (arith, lt))

two_apps :
    (a : ℕ)
    → a < 2
    → (app : Application) × (HashMap.get two_peers.apps a ≡ some app) × (app.peer_id ≡ a)
unfolding HashMap.get
two_apps zero lt = (record { peer_id = 0 }, refl, refl)
two_apps (suc zero) lt = (record { peer_id = 1 }, refl, refl)
two_apps (suc (suc a)) lt = absurd (omega (arith, lt))

two_peers-IsWired : IsWired simple_consensus two_peers two_states 2
two_peers-IsWired = record {
  sized = refl;
  has_params = two_params;
  has_metrics = two_metrics;
  has_app = two_apps;
}

handle_effect-InRange_example :
    InRange 2
      (handle_effect
        (record { peer_id = 1 })
        (params_of 1)
        context
        (Effect.get_value 0 0)
        starting).1
handle_effect-InRange_example =
    handle_effect-InRange 2 (record { peer_id = 1 }) (params_of 1) context (omega arith)
      (omega arith, (omega arith, tt)) (Effect.get_value 0 0) starting
      (omega arith, (omega arith, tt))

run-RunWell_example :
    (sim : Simulator simple_consensus) × (states : List Peer) × (sim' : Simulator simple_consensus)
    × (w' : Channels simple_malachite ℕ) × (new simple_consensus 9 4 ≡ ok (sim, states))
    × (initialize_system simple_consensus sim states quiet ≡ ok (sim', w'))
    × RunWell simple_consensus sim' states 4 w'
        (replicate 10 [])
        (run simple_consensus (replicate 10 []) sim states quiet)
run-RunWell_example =
    run-RunWell simple_consensus simple_consensus-IsLawful 9 4 (replicate 10 []) quiet (omega arith)
      (omega arith) tt
