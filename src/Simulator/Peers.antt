-- ===== src/Simulator/Peers.antt =====
-- Simulator::new makes parameters, applications and states for one address after the other.
use rem_poc.Prelude.{
  ℕ, suc, zero, ◌+◌, ◌≡◌, ◌≢◌, refl, ap, ◌∙◌, subst, ◌≤◌, ◌<◌, List, [], ◌∷◌, ◌++◌, some, arith,
  All, length, length-append, inl, inr, Bool-cases, ◌==◌, ==_iff,
}
use rem_poc.Prelude.HashMap
use rem_poc.Prelude.HashMap.{get-insert}
use rem_poc.Context.Malachite.{Malachite}
use rem_poc.Context.PeerSet.{BasePeerSet, peers_from}
use rem_poc.Context.Signing.{PublicKey}
use rem_poc.Context.Base.{BaseContext}
use rem_poc.Application.Messages.{Params, Envelope, Input, ValidatorSet}
use rem_poc.Simulator.{Simulator, add_peers}
use rem_poc.Simulator.Library.{Consensus, IsLawful}

pub peers_from-All :
    {PublicKey : Type 0} (key : PublicKey) (size rounds i : ℕ)
    → i + rounds ≤ size
    → All (λ v. v.id < size) (peers_from key rounds i)
unfolding peers_from
peers_from-All key size zero i le = tt
peers_from-All key size (suc rounds) i le =
    (omega (arith, le), peers_from-All key size rounds (suc i) (omega (arith, le)))

pub peers_from-nonempty :
    {PublicKey : Type 0} (key : PublicKey) (rounds i : ℕ)
    → 0 < rounds
    → peers_from key rounds i ≢ []
unfolding peers_from
peers_from-nonempty key zero i lt = absurd (omega (arith, lt))
peers_from-nonempty key (suc rounds) i lt = λ e. cc

module _ {M : Malachite} {Transaction : Type 0} where
  -- The envelope with which peer `a` starts the first height, and those of `rounds` peers from `i` on.
  abbrev pub start_of : BasePeerSet (PublicKey M) → ℕ → Envelope M Transaction
  start_of set a = record { source = a; destination = a; payload = Input.start_height 0 set }

  abbrev pub starts : BasePeerSet (PublicKey M) → ℕ → ℕ → List (Envelope M Transaction)
  starts set zero i = []
  starts set (suc rounds) i = start_of set i ∷ starts set rounds (suc i)

module _ {M : Malachite} {Transaction : Type 0} (C : Consensus M Transaction) where
  -- The first `size` addresses have parameters, with `set` for validators, and applications.
  pub record HasPeers (sim : Simulator C) (set : BasePeerSet (PublicKey M)) (size : ℕ)
      : Type 0 where
    pub params :
        (a : ℕ)
        → a < size
        → (p : Params M Transaction) × (HashMap.get sim.params a ≡ some p)
          × (p.address ≡ a)
          × (p.initial_validator_set ≡ set)
    pub apps : (a : ℕ) → a < size → HashMap.get sim.apps a ≡ some (record { peer_id = a })

  -- The states are those of the addresses from `i` on.
  unfoldable pub Addressed : ℕ → List C.State → Type 0
  Addressed i [] = Unit
  Addressed i (s ∷ ss) = ((C.params s).address ≡ i) × Addressed (suc i) ss

  Addressed-append :
      (i : ℕ) (ss : List C.State) (s : C.State)
      → Addressed i ss
      → (C.params s).address ≡ i + length ss
      → Addressed i (ss ++ s ∷ [])
  unfolding Addressed
  Addressed-append i [] s h e = (omega (arith, e), tt)
  Addressed-append i (t ∷ ss) s (e, h) at = (e, Addressed-append (suc i) ss s h (omega (arith, at)))

  HasPeers-insert :
      (set : ValidatorSet M Transaction) (i : ℕ) (sim : Simulator C) (p : Params M Transaction)
      → HasPeers sim set i
      → p.address ≡ i
      → p.initial_validator_set ≡ set
      → HasPeers
          (record sim {
            params = HashMap.insert sim.params i p;
            apps = HashMap.insert sim.apps i (record { peer_id = i });
          })
          set
          (suc i)
  HasPeers-insert set i sim p has addr vals = record {
    params = λ a lt. elim (Bool-cases (i == a)) [
      | inl hit ↦ (
        p,
        get-insert sim.params i a p ∙ rw hit refl,
        omega (arith, addr, (==_iff i a).0 hit),
        vals,
      )
      | inr miss ↦
          let (q, e, here, vs) = has.params a (ground (arith, lt, miss)) in
          (q, get-insert sim.params i a p ∙ rw miss e, here, vs)
    ];
    apps = λ a lt. elim (Bool-cases (i == a)) [
      | inl hit ↦
          get-insert sim.apps i a (record { peer_id = i })
          ∙ rw hit (ap (λ n. some (record { peer_id = n })) ((==_iff i a).0 hit))
      | inr miss ↦
          get-insert sim.apps i a (record { peer_id = i })
          ∙ rw miss (has.apps a (ground (arith, lt, miss)))
    ];
  }

  pub add_peers_lem :
      (lawful : IsLawful C) (ctx : BaseContext M) (set : ValidatorSet M Transaction) (rounds i : ℕ)
      (sim : Simulator C) (states : List C.State)
      → HasPeers sim set i
      → Addressed 0 states
      → length states ≡ i
      → let (sim', states') = add_peers C ctx set rounds i (sim, states) in
        HasPeers sim' set (i + rounds) × Addressed 0 states' × (length states' ≡ i + rounds)
  unfolding add_peers
  add_peers_lem lawful ctx set zero i sim states has at len =
      (subst (HasPeers sim set) (omega arith) has, at, omega (arith, len))
  add_peers_lem lawful ctx set (suc rounds) i sim states has at len =
      let p : Params M Transaction = record {
        initial_height = 0;
        initial_validator_set = set;
        address = i;
        threshold_params = M.default_threshold_params;
        value_payload = M.proposal_only;
      } in
      let sim₁ : Simulator C = record sim {
        params = HashMap.insert sim.params i p;
        apps = HashMap.insert sim.apps i (record { peer_id = i });
      } in
      let s = C.new_state ctx p in
      let has₁ : HasPeers sim₁ set (suc i) = HasPeers-insert set i sim p has refl refl in
      let at₁ : Addressed 0 (states ++ s ∷ []) = Addressed-append 0 states s at (
        omega (
          arith,
          ap (λ (q : Params M Transaction). q.address) (lawful.params-new_state ctx p),
          len,
        )) in
      let len₁ : length (states ++ s ∷ []) ≡ suc i =
        omega (arith, length-append states (s ∷ []), len) in
      let (h, a, l) =
        add_peers_lem lawful ctx set rounds (suc i) sim₁ (states ++ s ∷ []) has₁ at₁ len₁ in
      (subst (HasPeers _ set) (omega arith) h, a, omega (arith, l))
