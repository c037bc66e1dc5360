-- ===== src/Task/Complete.antt =====
-- The task when nothing goes wrong: every set of transactions that waits becomes a block.
use rem_poc.Prelude.{
  ℕ, zero, suc, ◌+◌, ◌<◌, ◌≡◌, refl, sym, ap, ◌∙◌, subst, List, [], ◌∷◌, ◌++◌, append_assoc,
  append-nil, none, true, arith, length, length-append, length-map, u64_mod,
}
use mathlib.Core.List.{map-append}
use rem_poc.Prelude.Run.{Run, ok, err, panic, Returns}
use rem_poc.Reth.{Reth, SealedHeader}
use rem_poc.Storage.{StorageInner, build_and_execute}
use rem_poc.Storage.Chain.{CollisionFree, IsChain}
use rem_poc.Storage.Execute.{build_and_execute-IsChain}
use rem_poc.Storage.Represents.{Block, transactions_of, Represents, Grown, build_and_execute-Grown}
use rem_poc.Task.{MalachiteTask, Meeting}
use rem_poc.Task.Poll.{again, stop, returned, poll, pass, receive, dispatch}
use rem_poc.Task.Healthy.{AllHealthy, IsHealthy-Returns, pass-HasExecuted}

nothing_left : {A : Type 0} (xs ys : List A) → xs ++ ys ≡ [] → (xs ≡ []) × (ys ≡ [])
nothing_left [] ys e = (refl, e)
nothing_left (x ∷ xs) ys e = cc

-- The storage is a well-formed chain from `base`, and the sets of transactions of its blocks above
-- `base` are exactly these.
pub record IsComplete {R : Reth} (base : ℕ) (s : StorageInner R) (sets : List (List R.Transaction))
    : Type 0 where
  pub chain : IsChain s base
  pub blocks : List (Block R)
  pub held : Represents s base blocks
  pub same : transactions_of blocks ≡ sets

module _ {R : Reth} (free : CollisionFree R) (base : ℕ) where
  pub room_in :
      (s : StorageInner R) (sets : List (List R.Transaction)) (complete : IsComplete base s sets)
      (n : ℕ)
      → base + (length sets + suc n) < u64_mod
      → s.best_block + 1 < u64_mod
  room_in s sets complete n room = omega (
    arith,
    room,
    complete.held.extent,
    ap length complete.same,
    length-map (λ (b : Block R). b.1.transactions) complete.blocks,
  )

  pub built :
      (s : StorageInner R) (sets : List (List R.Transaction)) (txs : List R.Transaction)
      (room : s.best_block + 1 < u64_mod) (complete : IsComplete base s sets)
      (x : Run R.ExecutionError (SealedHeader × R.Outcome) × StorageInner R)
      → Returns x.0
      → IsChain x.1 base
      → Grown free s base txs room complete.chain complete.blocks x
      → IsComplete base x.1 (sets ++ txs ∷ [])
  built s sets txs room complete (ok (h, o), t) is chain (b, held, same) = record {
    chain = chain;
    blocks = complete.blocks ++ (h.header, b) ∷ [];
    held = held;
    same =
        map-append (λ (b : Block R). b.1.transactions) complete.blocks ((h.header, b) ∷ [])
        ∙ rw (complete.same, same) refl;
  }
  built s sets txs room complete (err e, t) (a, is) chain held = cc
  built s sets txs room complete (panic, t) (a, is) chain held = cc

  poll-again :
      (fuel : ℕ) (t t' : MalachiteTask R) (ms ms' : List (Meeting R))
      → pass t ms ≡ again t' ms'
      → poll (suc fuel) t ms ≡ poll fuel t' ms'
  unfolding poll
  poll-again fuel t t' ms ms' e = rw (e, poll) refl

  poll-stop :
      (fuel : ℕ) (t : MalachiteTask R) (ms : List (Meeting R))
      → pass t ms ≡ stop t
      → poll (suc fuel) t ms ≡ returned t
  unfolding poll
  poll-stop fuel t ms e = rw (e, poll) refl

  pass-stop :
      (t : MalachiteTask R) (ms : List (Meeting R))
      → t.insert_task ≡ none
      → t.chain_open ≡ true
      → t.queued ≡ []
      → t.chain_rx ≡ []
      → pass t ms ≡ stop t
  unfolding pass receive dispatch
  pass-stop t ms idle live eq ex = rw (ex, live, idle, eq) refl

  -- A poll, with fuel for more passes than there are sets and a healthy meeting for each, that finds no future at hand and the channel open: it returns, nothing waits any more, every set that waited
  -- was executed, in its order, and the storage has one block for each set, besides those it had.
  pub poll-IsComplete :
      (sets : List (List R.Transaction)) (fuel : ℕ) (t : MalachiteTask R) (ms : List (Meeting R))
      → t.queued ++ t.chain_rx ≡ sets
      → t.insert_task ≡ none
      → t.chain_open ≡ true
      → AllHealthy t.storage sets ms
      → length sets < fuel
      → base + (length t.executed + length sets) < u64_mod
      → IsComplete base t.storage t.executed
      → (t' : MalachiteTask R) × (poll fuel t ms ≡ returned t')
        × (t'.executed ≡ t.executed ++ sets)
        × (t'.insert_task ≡ none)
        × (t'.queued ++ t'.chain_rx ≡ [])
        × IsComplete base t'.storage (t.executed ++ sets)
  poll-IsComplete [] zero t ms waits idle live healthy fueled room complete =
      absurd (omega (arith, fueled))
  poll-IsComplete [] (suc fuel) t ms waits idle live healthy fueled room complete =
      let (no_queue, no_rx) = nothing_left t.queued t.chain_rx waits in
      (
        t,
        poll-stop fuel t ms (pass-stop t ms idle live no_queue no_rx),
        sym (append-nil t.executed),
        idle,
        waits,
        subst (IsComplete base t.storage) (sym (append-nil t.executed)) complete,
      )
  poll-IsComplete (txs ∷ sets) fuel t [] waits idle live healthy fueled room complete =
      absurd healthy
  poll-IsComplete (txs ∷ sets) zero t ms waits idle live healthy fueled room complete =
      absurd (omega (arith, fueled))
  poll-IsComplete (txs ∷ sets) (suc fuel) t (m ∷ ms) waits idle live healthy fueled room complete =
      let (t₁, p, h) =
        pass-HasExecuted t m ms txs sets t.queued t.chain_rx healthy.0 idle live refl refl waits in
      let one : t.storage.best_block + 1 < u64_mod =
        room_in t.storage t.executed complete (length sets) room in
      let next : IsComplete base t₁.storage t₁.executed =
        rw (h.storage, h.executed)
          (built t.storage t.executed txs one complete
            (build_and_execute m.environment t.storage txs [])
            (IsHealthy-Returns m t.storage txs healthy.0)
            (build_and_execute-IsChain free m.environment t.storage base txs [] one complete.chain)
            (build_and_execute-Grown free t.storage base txs one complete.chain complete.blocks
              m.environment [] complete.held)) in
      let (t', q, executed, idle', waits', done) =
        poll-IsComplete sets fuel t₁ ms h.waits h.idle h.chain_open
          (subst (λ s. AllHealthy s sets ms) (sym h.storage) healthy.1) (omega (arith, fueled))
          (omega (arith, room, ap length h.executed, length-append t.executed (txs ∷ []))) next in
      let all : t₁.executed ++ sets ≡ t.executed ++ txs ∷ sets =
        ap (λ l. l ++ sets) h.executed ∙ append_assoc t.executed (txs ∷ []) sets in
      (
        t',
        poll-again fuel t t₁ (m ∷ ms) ms p ∙ q,
        executed ∙ all,
        idle',
        waits',
        subst (IsComplete base t'.storage) all done,
      )
