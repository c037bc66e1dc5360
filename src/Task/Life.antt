-- ===== src/Task/Life.antt =====
-- The life of the task: sets of transactions arrive on its channel between its polls, which the runtime
-- makes in any number.
use mathlib.Core.List.Sublist
use rem_poc.Prelude.{
  ℕ, ◌+◌, ◌<◌, ◌≡◌, refl, sym, ap, subst, ◌∙◌, List, [], ◌∷◌, ◌++◌, append_assoc, true, arith,
  length, length-append, u64_mod,
}
use rem_poc.Reth.{Reth, SealedHeader}
use rem_poc.Storage.{StorageInner, new}
use rem_poc.Storage.Chain.{CollisionFree, new-IsChain}
use rem_poc.Storage.Represents.{new-Represents}
use rem_poc.Task.{MalachiteTask, Meeting, new_task, set_pipeline_events}
use rem_poc.Task.Poll.{Outcome, returned, poll}
use rem_poc.Task.Work.{work, unexecuted, backlog}
use rem_poc.Task.Order.{PollWell, poll-PollWell}
use rem_poc.Task.Rule.{waiting, left}
use rem_poc.Task.Ledger.{IsBuilt, HasRoom, poll-HasRoom}

-- `Lives s t sets`: a task made with the storage `s` has come to be `t`, and these sets have arrived
-- since, in this order. A poll has all the fuel that it needs, and returns.
pub data Lives {R : Reth} (s : StorageInner R)
    : MalachiteTask R → List (List R.Transaction) → Type 0 where
  start : Lives s (new_task s [] true) []
  listen :
      {t : MalachiteTask R} {sets : List (List R.Transaction)}
      → Lives s t sets
      → (events : R.PipelineEvents) → Lives s (set_pipeline_events t events) sets
  arrive :
      {t : MalachiteTask R} {sets : List (List R.Transaction)}
      → Lives s t sets
      → (txs : List R.Transaction)
      → Lives s (record t { chain_rx = t.chain_rx ++ txs ∷ [] }) (sets ++ txs ∷ [])
  polled :
      {t t' : MalachiteTask R} {sets : List (List R.Transaction)}
      → Lives s t sets
      → (fuel : ℕ) (ms : List (Meeting R)) → backlog t < fuel
      → poll fuel t ms ≡ returned t'
      → Lives s t' sets

module _ {R : Reth} where
  returned_work :
      (w : List (List R.Transaction)) (o : Outcome R) (t : MalachiteTask R)
      → o ≡ returned t
      → PollWell w o
      → work t ≡ w
  returned_work w o t e well = (subst (PollWell w) e well).0

  pub work-Lives :
      {s : StorageInner R} {t : MalachiteTask R} {sets : List (List R.Transaction)}
      → Lives s t sets
      → work t ≡ sets
  unfolding new_task set_pipeline_events
  work-Lives start = refl
  work-Lives (listen l events) = work-Lives l
  work-Lives (arrive {t} l txs) =
      ap (λ r. t.executed ++ r)
        (ap (λ r. unexecuted t.insert_task ++ r)
          (sym (append_assoc t.queued t.chain_rx (txs ∷ []))))
      ∙ (ap (λ r. t.executed ++ r)
            (sym (append_assoc (unexecuted t.insert_task) (t.queued ++ t.chain_rx) (txs ∷ [])))
          ∙ (sym (append_assoc t.executed _ (txs ∷ [])) ∙ ap (λ r. r ++ txs ∷ []) (work-Lives l)))
  work-Lives (polled {t} {t'} l fuel ms lt e) =
      returned_work (work t) (poll fuel t ms) t' e (poll-PollWell fuel t ms lt) ∙ work-Lives l

  pub length-work : (t : MalachiteTask R) → length (work t) ≡ length t.executed + waiting t
  length-work t = omega (
    arith,
    length-append t.executed (unexecuted t.insert_task ++ (t.queued ++ t.chain_rx)),
    length-append (unexecuted t.insert_task) (t.queued ++ t.chain_rx),
    length-append t.queued t.chain_rx,
  )

  pub Lives-IsBuilt :
      (free : CollisionFree R) (b : SealedHeader)
      → R.hash_slow b.header ≡ b.hash
      → {t : MalachiteTask R} {sets : List (List R.Transaction)} → Lives (new b) t sets
      → b.header.number + length sets < u64_mod
      → IsBuilt b.header.number t.storage t.executed t.removed
  unfolding new_task set_pipeline_events
  Lives-IsBuilt free b sealed start room = record {
    chain = new-IsChain R b sealed;
    blocks = [];
    held = new-Represents b;
    ran = Sublist.refl [];
    fewer = omega arith;
    removals_same = refl;
    exact = λ all. refl;
  }
  Lives-IsBuilt free b sealed (listen l events) room = Lives-IsBuilt free b sealed l room
  Lives-IsBuilt free b sealed (arrive {t} {sets} l txs) room =
      Lives-IsBuilt free b sealed l (omega (arith, room, length-append sets (txs ∷ [])))
  Lives-IsBuilt free b sealed (polled {t} {t'} {sets} l fuel ms lt e) room =
      let built = Lives-IsBuilt free b sealed l room in
      let before : HasRoom free b.header.number t.storage t.executed t.removed (waiting t) =
        (built, omega (arith, room, length-work t, ap length (work-Lives l))) in
      subst
        (λ (o : Outcome R).
          IsBuilt b.header.number (left o).storage (left o).executed (left o).removed)
        e (poll-HasRoom free b.header.number fuel t ms before).0
