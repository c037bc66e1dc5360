-- ===== src/Simulator/Routing.antt =====
-- Simulator::step hands an envelope to the peer that it is for: in a network that is wired up its
-- lookups never fail.
use rem_poc.Prelude.{
  ℕ, ◌≡◌, ◌≢◌, refl, ap, sym, subst, ◌<◌, ◌∙◌, List, [], ◌∷◌, some, arith, All, length, length-set,
  get_elem?, set, get_elem?-some,
}
use rem_poc.Prelude.HashMap
use rem_poc.Prelude.Run.{Run, ok, err, panic}
use rem_poc.Context.Malachite.{Malachite}
use rem_poc.Application.Messages.{Params, Envelope}
use rem_poc.Application.Channels.{Channels}
use rem_poc.Application.Handlers.{Application, handle_effect}
use rem_poc.Simulator.{
  Simulator, Step, blocked, stepped, crashed, settle, apply_input, find_peer, step_with_envelope,
  step,
}
use rem_poc.Simulator.Library.{Consensus, IsLawful}
use rem_poc.Simulator.Range.{InRange, handle_effect-InRange}

module _ {M : Malachite} {Transaction : Type 0} (C : Consensus M Transaction) where
  -- The network of `size` peers is wired up: each address has a state, metrics, an application of
  -- that address, and parameters of that address with validators, all of them peers of the network.
  pub record IsWired (sim : Simulator C) (states : List C.State) (size : ℕ) : Type 0 where
    pub sized : length states ≡ size
    pub has_params :
        (a : ℕ)
        → a < size
        → (p : Params M Transaction) × (HashMap.get sim.params a ≡ some p)
          × (p.address ≡ a)
          × All (λ v. v.id < size) p.initial_validator_set.peers
          × (p.initial_validator_set.peers ≢ [])
    pub has_metrics : (a : ℕ) → a < size → (m : C.Metrics) × (HashMap.get sim.metrics a ≡ some m)
    pub has_app :
        (a : ℕ)
        → a < size
        → (app : Application) × (HashMap.get sim.apps a ≡ some app) × (app.peer_id ≡ a)

  -- The library fails on the first envelope, at the state of the peer that it is for, which it is
  -- given with the parameters and the application of that address, and leaves the channels `w'`.
  abbrev pub LibraryFails : List C.State → Channels M Transaction → Channels M Transaction → Type 0
  LibraryFails states w w' =
      (e : Envelope M Transaction) × (rest : List (Envelope M Transaction)) × (s : C.State)
      × (p : Params M Transaction) × (m : C.Metrics) × (app : Application) × (w.network ≡ e ∷ rest)
      × (get_elem? states e.destination ≡ some s)
      × (p.address ≡ e.destination)
      × (app.peer_id ≡ e.destination)
      × (let r = apply_input C app e.payload p m s (C.ctx s) (record w { network = rest }) in
          (r.2 ≡ w') × ((u : Unit {0}) → r.0 ≢ ok u))

  step-network :
      (sim : Simulator C) (states : List C.State) (w : Channels M Transaction)
      (e : Envelope M Transaction) (rest : List (Envelope M Transaction))
      → w.network ≡ e ∷ rest
      → step C sim states w ≡ step_with_envelope C sim states e (record w { network = rest })
  unfolding step
  step-network sim states w e rest net = rw (net, step) refl

  find_peer-found :
      (sim : Simulator C) (states : List C.State) (d : ℕ) (s : C.State) (p : Params M Transaction)
      (m : C.Metrics) (app : Application)
      → get_elem? states d ≡ some s
      → HashMap.get sim.params d ≡ some p
      → HashMap.get sim.metrics d ≡ some m
      → HashMap.get sim.apps d ≡ some app
      → find_peer C sim states d ≡ ok (s, p, m, app)
  unfolding find_peer
  find_peer-found sim states d s p m app es ep em ea = rw (es, ep, em, ea) refl

  step_with_envelope-found :
      (sim : Simulator C) (states : List C.State) (e : Envelope M Transaction)
      (w : Channels M Transaction) (s : C.State) (p : Params M Transaction) (m : C.Metrics)
      (app : Application)
      → find_peer C sim states e.destination ≡ ok (s, p, m, app)
      → step_with_envelope C sim states e w
        ≡ settle C states e.destination (apply_input C app e.payload p m s (C.ctx s) w)
  unfolding step_with_envelope
  step_with_envelope-found sim states e w s p m app found = rw (found, step_with_envelope) refl

  pub step_routed_to :
      (sim : Simulator C) (states : List C.State) (size : ℕ) (w : Channels M Transaction)
      (e : Envelope M Transaction) (rest : List (Envelope M Transaction))
      → IsWired sim states size
      → w.network ≡ e ∷ rest
      → e.destination < size
      → (s : C.State) × (p : Params M Transaction) × (m : C.Metrics) × (app : Application)
        × (get_elem? states e.destination ≡ some s)
        × (p.address ≡ e.destination)
        × (app.peer_id ≡ e.destination)
        × All (λ v. v.id < size) p.initial_validator_set.peers
        × (p.initial_validator_set.peers ≢ [])
        × (step C sim states w
            ≡ settle C states e.destination
                (apply_input C app e.payload p m s (C.ctx s) (record w { network = rest })))
  step_routed_to sim states size w e rest wired net lt =
      let (s, es) = get_elem?-some states e.destination (omega (arith, wired.sized, lt)) in
      let (p, ep, here, inside, some_peer) = wired.has_params e.destination lt in
      let (m, em) = wired.has_metrics e.destination lt in
      let (app, ea, same) = wired.has_app e.destination lt in
      (
        s,
        p,
        m,
        app,
        es,
        here,
        same,
        inside,
        some_peer,
        step-network sim states w e rest net
            ∙ step_with_envelope-found sim states e (record w { network = rest }) s p m app
                (find_peer-found sim states e.destination s p m app es ep em ea),
      )

  -- How a step ends: it blocks on the empty network, or leaves a network that is wired up, with
  -- envelopes for its peers alone, or the library fails.
  abbrev pub StepWell : Simulator C → List C.State → ℕ → Channels M Transaction → Step C → Type 0
  StepWell sim states size w blocked = w.network ≡ []
  StepWell sim states size w (stepped states' w') = IsWired sim states' size × InRange size w'
  StepWell sim states size w (crashed w') = LibraryFails states w w'

  pub IsWired-set :
      (sim : Simulator C) (states : List C.State) (size i : ℕ) (s : C.State)
      → IsWired sim states size
      → IsWired sim (set states i s) size
  IsWired-set sim states size i s wired = record {
    sized = length-set states i s ∙ wired.sized;
    has_params = wired.has_params;
    has_metrics = wired.has_metrics;
    has_app = wired.has_app;
  }

  pub step-blocked :
      (sim : Simulator C) (states : List C.State) (w : Channels M Transaction)
      → w.network ≡ []
      → step C sim states w ≡ blocked
  unfolding step
  step-blocked sim states w net = rw (net, step) refl

  settle-StepWell :
      (sim : Simulator C) (states : List C.State) (size : ℕ) (w : Channels M Transaction)
      → IsWired sim states size
      → (e : Envelope M Transaction) (rest : List (Envelope M Transaction))
      → (s : C.State) (p : Params M Transaction) (m : C.Metrics) (app : Application)
      → w.network ≡ e ∷ rest
      → get_elem? states e.destination ≡ some s
      → p.address ≡ e.destination
      → app.peer_id ≡ e.destination
      → (r : Run C.Error (Unit {0}) × C.State × Channels M Transaction)
      → apply_input C app e.payload p m s (C.ctx s) (record w { network = rest }) ≡ r
      → InRange size r.2
      → StepWell sim states size w (settle C states e.destination r)
  settle-StepWell sim states size w wired e rest s p m app net es here same (ok u, s', w') is
        range =
      (IsWired-set sim states size e.destination s' wired, range)
  settle-StepWell sim states size w wired e rest s p m app net es here same (err x, s', w') is
        range =
      (
        e,
        rest,
        s,
        p,
        m,
        app,
        net,
        es,
        here,
        same,
        (ap (λ (r : Run C.Error (Unit {0}) × C.State × Channels M Transaction). r.2) is, λ u q. cc),
      )
  settle-StepWell sim states size w wired e rest s p m app net es here same (panic, s', w') is
        range =
      (
        e,
        rest,
        s,
        p,
        m,
        app,
        net,
        es,
        here,
        same,
        (ap (λ (r : Run C.Error (Unit {0}) × C.State × Channels M Transaction). r.2) is, λ u q. cc),
      )

  pub step-StepWell :
      (lawful : IsLawful C) (sim : Simulator C) (states : List C.State) (size : ℕ)
      (w : Channels M Transaction)
      → IsWired sim states size
      → InRange size w
      → StepWell sim states size w (step C sim states w)
  step-StepWell lawful sim states size w wired range = on w.network refl
    where
      on :
          (net : List (Envelope M Transaction))
          → w.network ≡ net
          → StepWell sim states size w (step C sim states w)
      on [] net = rw (step-blocked sim states w net) net
      on (e ∷ rest) net =
          let all : All (λ (e : Envelope M Transaction). e.destination < size) (e ∷ rest) =
            subst (All (λ e. e.destination < size)) net range in
          let (s, p, m, app, es, here, same, inside, some_peer, is) =
            step_routed_to sim states size w e rest wired net all.0 in
          let w₀ : Channels M Transaction = record w { network = rest } in
          let kept : InRange size (apply_input C app e.payload p m s (C.ctx s) w₀).2 =
            unfold apply_input in
            lawful.process_keeps (InRange size) (handle_effect app p (C.ctx s))
              (handle_effect-InRange size app p (C.ctx s) (omega (arith, same, all.0)) inside)
              e.payload s m w₀ all.1 in
          subst (StepWell sim states size w) (sym is) (
            settle-StepWell sim states size w wired e rest s p m app net es here same
              (apply_input C app e.payload p m s (C.ctx s) w₀) refl kept)
