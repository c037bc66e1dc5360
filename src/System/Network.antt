-- ===== src/System/Network.antt =====
-- A step of the network only adds to the decision steps.
use rem_poc.Prelude.{ℕ, ◌≡◌, ap, ◌∙◌, List, [], ◌∷◌, ◌++◌, append_assoc, All-of}
use rem_poc.Prelude.Run.{Run, ok, err, panic}
use rem_poc.Context.Malachite.{Malachite}
use rem_poc.Context.Value.{DecisionStep}
use rem_poc.Application.Channels.{Channels}
use rem_poc.Application.Handlers.{handle_effect}
use rem_poc.Application.Rule.{Permits, any-Publishes, handle_effect-keeps}
use rem_poc.Simulator.{settle, apply_input}
use rem_poc.Simulator.Library.{Consensus, IsLawful}
use rem_poc.Simulator.Rule.{After, Keeps}

module _ {M : Malachite} {Transaction : Type 0} (read : List (DecisionStep M Transaction)) where
  -- The decision steps begin with those that were read.
  abbrev pub Continues : Channels M Transaction → Type 0
  Continues w = (rest : List (DecisionStep M Transaction)) × (w.decision_steps ≡ read ++ rest)

  Continues-Permits : Permits Continues (λ d. Unit {0}) (λ input. Unit {0}) (λ d. Unit {0})
  Continues-Permits = record {
    timeouts = λ t. tt;
    starts = λ h set. tt;
    votes = λ sv. tt;
    finals = λ f. tt;
    sends = λ e w to is h. h;
    announces =
        λ d w is h. (h.0 ++ d ∷ [], ap (λ l. l ++ d ∷ []) h.1 ∙ append_assoc read h.0 (d ∷ []));
    receives = λ w v vs e h. (h, λ height r r'. tt);
  }

module _ {M : Malachite} {Transaction : Type 0} (C : Consensus M Transaction) (lawful : IsLawful C)
    (read : List (DecisionStep M Transaction)) where
  settle-Continues :
      (states : List C.State) (i : ℕ)
      (r : Run C.Error (Unit {0}) × C.State × Channels M Transaction)
      → Continues read r.2
      → After C (λ _. Continues read) (Continues read) (settle C states i r)
  settle-Continues states i (ok u, s', w') h = h
  settle-Continues states i (err x, s', w') h = h
  settle-Continues states i (panic, s', w') h = h

  -- Every step keeps it.
  pub Continues-Keeps :
      (states : List C.State) (w : Channels M Transaction)
      → Continues read w
      → Keeps C (λ _. Continues read) (Continues read) states w
  unfolding apply_input
  Continues-Keeps states w h e rest s p m app net es same some_peer =
      settle-Continues states e.destination _ (
        lawful.process_keeps (Continues read) (handle_effect app p (C.ctx s))
          (λ effect w' is.
            handle_effect-keeps (Continues read) (λ d. Unit {0}) (λ input. Unit {0}) (λ d. Unit {0})
              (Continues-Permits read) app p (C.ctx s) effect w' tt
              (All-of (λ p. tt) p.initial_validator_set.peers) (any-Publishes effect) is)
          e.payload s m (record w { network = rest }) h)
