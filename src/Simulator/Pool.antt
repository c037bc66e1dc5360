-- ===== src/Simulator/Pool.antt =====
-- The simulator and the block builder together: the peers announce no values but the block builder's.
use rem_poc.Prelude.{
  ℕ, ◌≡◌, subst, ◌≤◌, ◌<◌, List, [], ◌∷◌, All, All-append, All-set, All-get_elem?, set,
}
use rem_poc.Prelude.Run.{Run, ok, err, panic}
use rem_poc.Context.Malachite.{Malachite}
use rem_poc.Context.Value.{BaseValue}
use rem_poc.Application.Messages.{Envelope, ValidatorSet}
use rem_poc.Application.Channels.{Channels, send}
use rem_poc.Application.Handlers.{Application, init, handle_effect}
use rem_poc.Chain.Builder.{idle}
use rem_poc.Simulator.{
  Simulator, Step, blocked, stepped, crashed, new, run, settle, apply_input, take_in,
}
use rem_poc.Simulator.Runs.{Arrivals}
use rem_poc.Simulator.Library.{Consensus, IsLawful, MakesNoValues, Brings}
use rem_poc.Simulator.Values.{Announces, HasValues, handle_effect-HasValues}
use rem_poc.Simulator.Rule.{After, Keeps}
use rem_poc.Simulator.RunRule.{run-After}

module _ {M : Malachite} {Transaction : Type 0} (C : Consensus M Transaction)
    (makes : MakesNoValues C) (V : BaseValue Transaction → Type 0) where
  -- The values on the channels and those that the peers hold.
  pub record AreValues (states : List C.State) (w : Channels M Transaction) : Type 0 where
    pub sent : HasValues V w
    pub held : All (makes.Holds V) states

  settle-After :
      (states : List C.State) (i : ℕ)
      (r : Run C.Error (Unit {0}) × C.State × Channels M Transaction)
      → All (makes.Holds V) states
      → makes.Holds V r.1 × HasValues V r.2
      → After C AreValues (HasValues V) (settle C states i r)
  settle-After states i (ok u, s', w') all (holds, has) = record {
    sent = has;
    held = All-set (makes.Holds V) states i s' all holds;
  }
  settle-After states i (err x, s', w') all (holds, has) = has
  settle-After states i (panic, s', w') all (holds, has) = has

  pub AreValues-Keeps :
      (states : List C.State) (w : Channels M Transaction)
      → AreValues states w
      → Keeps C AreValues (HasValues V) states w
  unfolding apply_input
  AreValues-Keeps states w are e rest s p m app net es same some_peer =
      let sent : All (λ (e : Envelope M Transaction). Brings V e.payload) (e ∷ rest) =
        subst (All (λ e. Brings V e.payload)) net are.sent.sent in
      let start : HasValues V (record w { network = rest }) = record {
        waiting = are.sent.waiting;
        sent = sent.1;
        announced = are.sent.announced;
      } in
      settle-After states e.destination _ are.held (
        makes.process_passes V (HasValues V) (handle_effect app p (C.ctx s))
          (handle_effect-HasValues V app p (C.ctx s)) e.payload s m (record w { network = rest })
          sent.0 (All-get_elem? (makes.Holds V) states e.destination s are.held es) start)

  pub init-HasValues :
      (app : Application) (set : ValidatorSet M Transaction) (w : Channels M Transaction)
      → HasValues V w
      → HasValues V (init app set w).1
  unfolding init send
  init-HasValues app set w has = record {
    waiting = has.waiting;
    sent =
        All-append (λ (e : Envelope M Transaction). Brings V e.payload) w.network (_ ∷ []) has.sent
          (tt, tt);
    announced = has.announced;
  }

  pub take_in-AreValues :
      (values : List (BaseValue Transaction)) (states : List C.State) (w : Channels M Transaction)
      → All V values
      → AreValues states w
      → AreValues states (take_in C values w)
  take_in-AreValues values states w all are = record {
    sent = record {
      waiting = All-append V w.proposals values are.sent.waiting all;
      sent = are.sent.sent;
      announced = are.sent.announced;
    };
    held = are.held;
  }

  -- All values that a run leaves announced are as `V` says.
  abbrev pub RunAnnounces : Step C → Type 0
  RunAnnounces blocked = Unit
  RunAnnounces (stepped states w) = All (Announces V) w.decision_steps
  RunAnnounces (crashed w) = All (Announces V) w.decision_steps

  After-RunAnnounces : (r : Step C) → After C AreValues (HasValues V) r → RunAnnounces r
  After-RunAnnounces blocked h = tt
  After-RunAnnounces (stepped states w) h = h.sent.announced
  After-RunAnnounces (crashed w) h = h.announced

  -- A simulator of 4 to 24 peers, made whatever the randomness and run for any number of steps from
  -- empty channels, announces no values but those that come in, whenever they do: what holds of each of
  -- them holds of each value that was announced as proposed, whether the last step goes through or
  -- crashes. The library is taken to keep the parameters of a state, to touch the channels through the
  -- handler alone, and to make no values up.
  pub run-RunAnnounces :
      (lawful : IsLawful C) (random size : ℕ) (arrivals : Arrivals C)
      → 4 ≤ size
      → size < 25
      → All (All V) arrivals
      → (sim : Simulator C) × (states : List C.State) × (new C random size ≡ ok (sim, states))
        × RunAnnounces (run C arrivals sim states idle)
  run-RunAnnounces lawful random size arrivals lo hi all =
      let (sim, states, made, h) =
        run-After C AreValues (HasValues V) (HasValues V) (makes.Holds V) V lawful AreValues-Keeps
          take_in-AreValues (makes.Holds-new_state V) init-HasValues
          (λ states w held sent. record { sent = sent; held = held }) random size arrivals idle lo
          hi tt all (record { waiting = tt; sent = tt; announced = tt }) in
      (sim, states, made, After-RunAnnounces (run C arrivals sim states idle) h)
