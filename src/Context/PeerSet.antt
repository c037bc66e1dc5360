-- ===== src/Context/PeerSet.antt =====
-- src/chain/context/peer.rs and src/chain/context/peer_set.rs.
use rem_poc.Prelude.{
  ℕ, zero, suc, ◌+◌, ◌≤◌, ◌<◌, ◌≡◌, refl, List, [], ◌∷◌, Option, none, some, arith, if◌then◌else◌,
  ◌==◌, ltb, leb, ◌&&◌, length, get_elem?,
}
use rem_poc.Context.Height.{BasePeerAddress}

abbrev pub base_voting_power : ℕ
base_voting_power = 1

module _ (PublicKey : Type 0) where
  pub record BasePeer : Type 0 where
    pub id : BasePeerAddress
    pub public_key : PublicKey

  pub record BasePeerSet : Type 0 where
    pub peers : List BasePeer

module _ {PublicKey : Type 0} where
  -- `Validator::voting_power`: all peers have the same power.
  unfoldable pub voting_power : BasePeer PublicKey → ℕ
  voting_power peer = base_voting_power

  -- `BasePeerSet::new`: `for i in 0..size`, with `rounds` peers to go from `i` on.
  unfoldable pub peers_from : PublicKey → ℕ → ℕ → List (BasePeer PublicKey)
  peers_from key zero i = []
  peers_from key (suc rounds) i =
      record { id = i; public_key = key } ∷ peers_from key rounds (suc i)

  -- `From<Vec<BasePeer>>`
  abbrev peer_set_of : List (BasePeer PublicKey) → BasePeerSet PublicKey
  peer_set_of value = record { peers = value }

  unfoldable pub new_peer_set : ℕ → PublicKey → BasePeerSet PublicKey
  unfolding peers_from
  new_peer_set size key = peer_set_of (peers_from key size 0)

  unfoldable pub count : BasePeerSet PublicKey → ℕ
  count set = length set.peers

  unfoldable pub total_voting_power : BasePeerSet PublicKey → ℕ
  unfolding count
  total_voting_power set = count set

  find_peer : List (BasePeer PublicKey) → BasePeerAddress → Option (BasePeer PublicKey)
  find_peer [] address = none
  find_peer (v ∷ vs) address = if v.id == address then some v else find_peer vs address

  unfoldable pub get_by_address :
      BasePeerSet PublicKey → BasePeerAddress → Option (BasePeer PublicKey)
  unfolding find_peer
  get_by_address set address = find_peer set.peers address

  unfoldable pub get_by_index : BasePeerSet PublicKey → ℕ → Option (BasePeer PublicKey)
  get_by_index set index = get_elem? set.peers index

  pub sum_voting_power : List (BasePeer PublicKey) → ℕ
  unfolding voting_power
  sum_voting_power [] = 0
  sum_voting_power (v ∷ vs) = voting_power v + sum_voting_power vs

  length-sum_voting_power : (vs : List (BasePeer PublicKey)) → length vs ≡ sum_voting_power vs
  unfolding sum_voting_power
  length-sum_voting_power [] = refl
  length-sum_voting_power (v ∷ vs) = omega (arith, length-sum_voting_power vs)

  -- The total voting power, which the code takes to be the number of peers, is the sum of the voting
  -- powers of the peers.
  total_voting_power_lem :
      (set : BasePeerSet PublicKey) → total_voting_power set ≡ sum_voting_power set.peers
  unfolding total_voting_power
  total_voting_power_lem set = length-sum_voting_power set.peers

  length-peers_from : (key : PublicKey) (rounds i : ℕ) → length (peers_from key rounds i) ≡ rounds
  unfolding peers_from
  length-peers_from key zero i = refl
  length-peers_from key (suc rounds) i = omega (arith, length-peers_from key rounds (suc i))

  peers_from-index :
      (key : PublicKey) (rounds i k : ℕ)
      → k < rounds
      → get_elem? (peers_from key rounds i) k ≡ some (record { id = i + k; public_key = key })
  unfolding peers_from
  peers_from-index key zero i k lt = absurd (omega arith)
  peers_from-index key (suc rounds) i zero lt = ground arith
  peers_from-index key (suc rounds) i (suc k) lt =
      ground (arith, peers_from-index key rounds (suc i) k)

  peers_from-beyond :
      (key : PublicKey) (rounds i k : ℕ) → rounds ≤ k → get_elem? (peers_from key rounds i) k ≡ none
  unfolding peers_from
  peers_from-beyond key zero i k le = refl
  peers_from-beyond key (suc rounds) i zero le = absurd (omega arith)
  peers_from-beyond key (suc rounds) i (suc k) le =
      peers_from-beyond key rounds (suc i) k (omega arith)

  peers_from-address :
      (key : PublicKey) (rounds i a : ℕ)
      → find_peer (peers_from key rounds i) a ≡ (
          if leb i a && ltb a (i + rounds)
          then some (record { id = a; public_key = key })
          else none)
  unfolding peers_from find_peer
  peers_from-address key zero i a = ground arith
  peers_from-address key (suc rounds) i a = ground (arith, peers_from-address key rounds (suc i) a)

  -- A new peer set has as many peers as were asked for, with as much voting power; the peer at each
  -- index is the one with that address, with the shared key; and there is no other address.
  pub new_peer_set_lem :
      (size : ℕ) (key : PublicKey)
      → let set = new_peer_set size key in
        (count set ≡ size)
        × (total_voting_power set ≡ size)
        × ((a : ℕ)
            → a < size
            → (get_by_index set a ≡ some (record { id = a; public_key = key }))
              × (get_by_address set a ≡ get_by_index set a))
        × ((a : ℕ) → size ≤ a → (get_by_index set a ≡ none) × (get_by_address set a ≡ none))
  unfolding new_peer_set total_voting_power get_by_index get_by_address
  new_peer_set_lem size key = (
    length-peers_from key size 0,
    length-peers_from key size 0,
    (λ a lt. (
      ground (arith, peers_from-index key size 0 a lt),
      ground (arith, peers_from-address key size 0 a, peers_from-index key size 0 a lt),
    )),
    (λ a le. (peers_from-beyond key size 0 a le, ground (arith, peers_from-address key size 0 a))),
  )
