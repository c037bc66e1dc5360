-- ===== src/Simulator/Wiring.antt =====
-- Simulator::new and Simulator::initialize_system wire the network up.
use rem_poc.Prelude.{
  ℕ, suc, zero, ◌+◌, ◌≡◌, ◌≢◌, refl, sym, ap, ◌∙◌, subst, ◌≤◌, ◌<◌, List, [], ◌∷◌, ◌++◌, append-nil,
  append_assoc, some, arith, All, All-append, if_true, leb, ltb, ◌&&◌, length, inl, inr, Bool-cases,
  ◌==◌,
}
use rem_poc.Prelude.HashMap
use rem_poc.Prelude.HashMap.{get-insert}
use rem_poc.Prelude.Run.{Run, ok}
use rem_poc.Context.Malachite.{Malachite}
use rem_poc.Context.PeerSet.{BasePeerSet, new_peer_set}
use rem_poc.Context.Signing.{PublicKey}
use rem_poc.Context.Base.{new_context, shared_public_key}
use rem_poc.Application.Messages.{Envelope}
use rem_poc.Application.Channels.{Channels, send}
use rem_poc.Application.Handlers.{init}
use rem_poc.Simulator.{Simulator, new, add_peers, initialize_system}
use rem_poc.Simulator.Library.{Consensus, IsLawful}
use rem_poc.Simulator.Range.{InRange}
use rem_poc.Simulator.Routing.{IsWired}
use rem_poc.Simulator.Peers.{
  HasPeers, Addressed, add_peers_lem, peers_from-All, peers_from-nonempty, start_of, starts,
}

module _ {M : Malachite} {Transaction : Type 0} (C : Consensus M Transaction) where
  HasMetrics : Simulator C → ℕ → Type 0
  HasMetrics sim n = (a : ℕ) → a < n → (m : C.Metrics) × (HashMap.get sim.metrics a ≡ some m)

  -- The simulator with metrics for address `i`.
  abbrev measured : Simulator C → ℕ → Simulator C
  measured sim i = record sim { metrics = HashMap.insert sim.metrics i C.new_metrics }

  HasMetrics-measured :
      (sim : Simulator C) (i : ℕ) → HasMetrics sim i → HasMetrics (measured sim i) (suc i)
  unfolding HasMetrics
  HasMetrics-measured sim i has a lt = elim (Bool-cases (i == a)) [
    | inl hit ↦ (C.new_metrics, get-insert sim.metrics i a C.new_metrics ∙ rw hit refl)
    | inr miss ↦
        let (m, e) = has a (ground (arith, lt, miss)) in
        (m, get-insert sim.metrics i a C.new_metrics ∙ rw miss e)
  ]

  -- What the initialization of the states from `i` on comes to.
  abbrev Initialized :
      BasePeerSet (PublicKey M)
      → ℕ
      → ℕ
      → ℕ
      → Channels M Transaction
      → Run (Unit {0}) (Simulator C × Channels M Transaction)
      → Type 0
  Initialized set size rounds i w r =
      (sim' : Simulator C) × (w' : Channels M Transaction) × (r ≡ ok (sim', w'))
      × HasPeers C sim' set size
      × HasMetrics sim' (i + rounds)
      × (w'.network ≡ w.network ++ starts set rounds i)

  initialize_one :
      (set : BasePeerSet (PublicKey M)) (size i : ℕ) (sim : Simulator C) (s : C.State)
      (states : List C.State) (w : Channels M Transaction)
      → HasPeers C sim set size
      → i < size
      → (C.params s).address ≡ i
      → initialize_system C sim (s ∷ states) w
        ≡ initialize_system C
            (measured sim i)
            states
            (record w { network = w.network ++ start_of set i ∷ [] })
  unfolding initialize_system init send
  initialize_one set size i sim s states w has lt at =
      let (p, ep, here, vs) = has.params i lt in rw (at, ep, has.apps i lt, vs) refl

  initialize_lem :
      (set : BasePeerSet (PublicKey M)) (size : ℕ) (states : List C.State) (i : ℕ)
      (sim : Simulator C) (w : Channels M Transaction)
      → HasPeers C sim set size
      → HasMetrics sim i
      → Addressed C i states
      → i + length states ≤ size
      → Initialized set size (length states) i w (initialize_system C sim states w)
  unfolding Addressed initialize_system
  initialize_lem set size [] i sim w has ms at le =
      (sim, w, refl, has, subst (HasMetrics sim) (omega arith) ms, sym (append-nil w.network))
  initialize_lem set size (s ∷ states) i sim w has ms (here, at) le =
      let w₁ : Channels M Transaction = record w { network = w.network ++ start_of set i ∷ [] } in
      let has₁ : HasPeers C (measured sim i) set size = record {
        params = has.params;
        apps = has.apps;
      } in
      let (sim', w', e, h, m, net) =
        initialize_lem set size states (suc i) (measured sim i) w₁ has₁
          (HasMetrics-measured sim i ms) at (omega (arith, le)) in
      (
        sim',
        w',
        initialize_one set size i sim s states w has (omega (arith, le)) here ∙ e,
        h,
        subst (HasMetrics sim') (omega arith) m,
        net ∙ append_assoc w.network (start_of set i ∷ []) _,
      )

  starts-InRange :
      (set : BasePeerSet (PublicKey M)) (size rounds i : ℕ)
      → i + rounds ≤ size
      → All (λ (e : Envelope M Transaction). e.destination < size) (starts set rounds i)
  starts-InRange set size zero i le = tt
  starts-InRange set size (suc rounds) i le =
      (omega (arith, le), starts-InRange set size rounds (suc i) (omega (arith, le)))

  IsWired-up :
      (set : BasePeerSet (PublicKey M)) (size : ℕ) (sim : Simulator C) (states : List C.State)
      → HasPeers C sim set size
      → HasMetrics sim size
      → length states ≡ size
      → All (λ v. v.id < size) set.peers
      → set.peers ≢ []
      → IsWired C sim states size
  unfolding HasMetrics
  IsWired-up set size sim states has ms len inside some_peer = record {
    sized = len;
    has_params = λ a lt.
        let (p, e, here, vs) = has.params a lt in
        (
          p,
          e,
          here,
          subst (λ (v : BasePeerSet (PublicKey M)). All (λ v. v.id < size) v.peers) (sym vs) inside,
          λ none_left.
              some_peer (ap (λ (v : BasePeerSet (PublicKey M)). v.peers) (sym vs) ∙ none_left),
        );
    has_metrics = ms;
    has_app = λ a lt. (record { peer_id = a }, has.apps a lt, refl);
  }

  -- A simulator of 4 to 24 peers is made and initialized without a panic, whatever the randomness.
  -- The network is then wired up, and each peer in turn has put on the network the envelope that
  -- starts its first height, with the whole peer set for its validators; and all envelopes are for
  -- peers of the network, where those that were there before are. A state of the library is taken
  -- to keep its parameters.
  pub initialize_system-IsWired :
      (lawful : IsLawful C) (random size : ℕ) (w : Channels M Transaction)
      → 4 ≤ size
      → size < 25
      → InRange size w
      → let set = new_peer_set size (shared_public_key (new_context M random)) in
        (sim : Simulator C) × (states : List C.State) × (sim' : Simulator C) × (w' : Channels M
          Transaction)
        × (new C random size ≡ ok (sim, states))
        × (initialize_system C sim states w ≡ ok (sim', w'))
        × IsWired C sim' states size
        × (w'.network ≡ w.network ++ starts set size 0)
        × InRange size w'
  unfolding new
  initialize_system-IsWired lawful random size w lo hi range =
      let ctx = new_context M random in
      let set = new_peer_set size (shared_public_key ctx) in
      let none_yet : Simulator C = record { params = []; metrics = []; apps = [] } in
      let made = add_peers C ctx set size 0 (none_yet, []) in
      let empty : HasPeers C none_yet set 0 = record {
        params = λ a lt. absurd (omega (arith, lt));
        apps = λ a lt. absurd (omega (arith, lt));
      } in
      let (has₀, at, len₀) =
        add_peers_lem C lawful ctx set size 0 none_yet [] empty (unfold Addressed in tt) refl in
      let has : HasPeers C made.0 set size = subst (HasPeers C made.0 set) (omega arith) has₀ in
      let len : length made.1 ≡ size = omega (arith, len₀) in
      let no_metrics : HasMetrics made.0 0 =
        unfold HasMetrics in λ a lt. absurd (omega (arith, lt)) in
      let (sim', w', e, has', ms₀, net₀) =
        initialize_lem set size made.1 0 made.0 w has no_metrics at (omega (arith, len)) in
      let ms : HasMetrics sim' size = subst (HasMetrics sim') (omega (arith, len)) ms₀ in
      let net : w'.network ≡ w.network ++ starts set size 0 =
        net₀ ∙ ap (λ n. w.network ++ starts set n 0) len in
      let inside : All (λ v. v.id < size) set.peers =
        unfold new_peer_set in peers_from-All (shared_public_key ctx) size size 0 (omega arith) in
      let some_peer : set.peers ≢ [] =
        unfold new_peer_set in
        peers_from-nonempty (shared_public_key ctx) size 0 (omega (arith, lo)) in
      let range' : InRange size w' =
        subst (All (λ (e : Envelope M Transaction). e.destination < size)) (sym net) (
          All-append (λ (e : Envelope M Transaction). e.destination < size) w.network
            (starts set size 0) range (starts-InRange set size size 0 (omega arith))) in
      (
        made.0,
        made.1,
        sim',
        w',
        if_true (leb 4 size && ltb size 25) _ _ (ground (arith, lo, hi)),
        e,
        IsWired-up set size sim' made.1 has' ms len inside some_peer,
        net,
        range',
      )
