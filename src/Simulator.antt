-- ===== src/Simulator.antt =====
-- src/chain/simulator.rs: the simulated network, which hands each envelope to the peer that it is for.
-- Waits and delays take no time here, and a receive on the empty network blocks.
pub mod Library
pub mod Range
pub mod Announce
pub mod Peers
pub mod Wiring
pub mod Routing
pub mod Runs
pub mod Rule
pub mod Consumed
pub mod Values
pub mod Whole
pub mod RunRule
pub mod Feeds
pub mod Pool
use rem_poc.Prelude.{
  ℕ, zero, suc, List, [], ◌∷◌, ◌++◌, none, some, ◌&&◌, if◌then◌else◌, leb, ltb, get_elem?, set,
}
use rem_poc.Prelude.HashMap
use rem_poc.Prelude.HashMap.{HashMap}
use rem_poc.Prelude.Run.{Run, ok, err, panic, ◌>>=◌, unwrap}
use rem_poc.Context.Malachite.{Malachite}
use rem_poc.Context.PeerSet.{new_peer_set}
use rem_poc.Context.Value.{BaseValue}
use rem_poc.Context.Base.{BaseContext, new_context, shared_public_key}
use rem_poc.Application.Messages.{ValidatorSet, Params, Input, Envelope}
use rem_poc.Application.Channels.{Channels}
use rem_poc.Application.Handlers.{Application, init, handle_effect}
use Library.{Consensus}

module _ {M : Malachite} {Transaction : Type 0} (C : Consensus M Transaction) where
  pub record Simulator : Type 0 where
    pub params : HashMap (Params M Transaction)
    pub metrics : HashMap C.Metrics
    pub apps : HashMap Application

  -- The loop of `Simulator::new`, with `rounds` peers to go from `i` on.
  unfoldable pub add_peers :
      BaseContext M
      → ValidatorSet M Transaction
      → ℕ
      → ℕ
      → Simulator × List C.State
      → Simulator × List C.State
  add_peers ctx val_set zero i made = made
  add_peers ctx val_set (suc rounds) i (sim, states) =
      let p : Params M Transaction = record {
        initial_height = 0;
        initial_validator_set = val_set;
        address = i;
        threshold_params = M.default_threshold_params;
        value_payload = M.proposal_only;
      } in
      add_peers ctx val_set rounds (suc i) (
        record sim {
          params = HashMap.insert sim.params i p;
          apps = HashMap.insert sim.apps i (record { peer_id = i });
        },
        states ++ C.new_state ctx p ∷ [],
      )

  -- `Simulator::new`, with the randomness for the context's key. The assertions come first.
  unfoldable pub new : ℕ → ℕ → Run (Unit {0}) (Simulator × List C.State)
  unfolding add_peers
  new random size =
      if leb 4 size && ltb size 25
      then (let ctx = new_context M random in
          ok (
            add_peers ctx (new_peer_set size (shared_public_key ctx)) size 0
              (record { params = []; metrics = []; apps = [] }, [])))
      else panic

  -- `initialize_system`, over the states that are left.
  unfoldable pub initialize_system :
      Simulator
      → List C.State
      → Channels M Transaction
      → Run (Unit {0}) (Simulator × Channels M Transaction)
  initialize_system sim [] w = ok (sim, w)
  initialize_system sim (state ∷ states) w = do
    let peer_addr = (C.params state).address
    peer_params ← unwrap (HashMap.get sim.params peer_addr)
    app ← unwrap (HashMap.get sim.apps peer_addr)
    initialize_system (record sim { metrics = HashMap.insert sim.metrics peer_addr C.new_metrics })
        states (init app peer_params.initial_validator_set w).1

  -- `Application::apply_input`
  unfoldable pub apply_input :
      Application
      → Input M Transaction
      → Params M Transaction
      → C.Metrics
      → C.State
      → BaseContext M
      → Channels M Transaction
      → Run C.Error (Unit {0}) × C.State × Channels M Transaction
  apply_input app input peer_params metrics state context w =
      C.process (handle_effect app peer_params context) input state metrics w

  -- The result of one step of the simulator: the peers' states and the channels that it leaves.
  pub data Step : Type 0 where
    blocked : Step
    stepped : List C.State → Channels M Transaction → Step
    crashed : Channels M Transaction → Step

  -- `expect` of the result that the library hands back.
  abbrev pub settle :
      List C.State → ℕ → Run C.Error (Unit {0}) × C.State × Channels M Transaction → Step
  settle states i (ok _, state, w) = stepped (set states i state) w
  settle states i (err e, state, w) = crashed w
  settle states i (panic, state, w) = crashed w

  -- What the step looks up for the envelope's destination.
  unfoldable pub find_peer :
      Simulator
      → List C.State
      → ℕ
      → Run (Unit {0}) (C.State × Params M Transaction × C.Metrics × Application)
  find_peer sim states peer_addr = do
    peer_state ← unwrap (get_elem? states peer_addr)
    params ← unwrap (HashMap.get sim.params peer_addr)
    metrics ← unwrap (HashMap.get sim.metrics peer_addr)
    application ← unwrap (HashMap.get sim.apps peer_addr)
    ok (peer_state, params, metrics, application)

  unfoldable pub step_with_envelope :
      Simulator → List C.State → Envelope M Transaction → Channels M Transaction → Step
  unfolding find_peer apply_input
  step_with_envelope sim states envelope w = elim (find_peer sim states envelope.destination) [
    | err e ↦ crashed w
    | panic ↦ crashed w
    | ok (peer_state, params, metrics, application) ↦
        settle states envelope.destination
          (apply_input application envelope.payload params metrics peer_state (C.ctx peer_state) w)
  ]

  unfoldable pub step : Simulator → List C.State → Channels M Transaction → Step
  unfolding step_with_envelope
  step sim states w = elim w.network [
    | [] ↦ blocked
    | envelope ∷ rest ↦ step_with_envelope sim states envelope (record w { network = rest })
  ]

  -- Values come in from the environment on the channel of proposals.
  abbrev pub take_in :
      List (BaseValue Transaction) → Channels M Transaction → Channels M Transaction
  take_in values w = record w { proposals = w.proposals ++ values }

  -- The loop of `run`: one step for each list of values, which have come in before it or come in
  -- while it takes place, until a step does not go through.
  unfoldable pub steps :
      List (List (BaseValue Transaction)) → Simulator → List C.State → Channels M Transaction → Step
  unfolding step
  steps [] sim states w = stepped states w
  steps (values ∷ arrivals) sim states w = elim (step sim states (take_in values w)) [
    | blocked ↦ blocked
    | crashed w' ↦ crashed w'
    | stepped states' w' ↦ steps arrivals sim states' w'
  ]

  -- `Simulator::run`, with a pass of its loop for each of the arrivals.
  unfoldable pub run :
      List (List (BaseValue Transaction)) → Simulator → List C.State → Channels M Transaction → Step
  unfolding initialize_system steps
  run arrivals sim states w = elim (initialize_system sim states w) [
    | ok (sim', w') ↦ steps arrivals sim' states w'
    | err e ↦ crashed w
    | panic ↦ crashed w
  ]
