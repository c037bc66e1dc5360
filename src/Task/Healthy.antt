-- ===== src/Task/Healthy.antt =====
-- A pass of the task when nothing goes wrong.
use rem_poc.Prelude.{
  ◌≡◌, refl, sym, ap, ◌∙◌, subst, List, [], ◌∷◌, ◌++◌, append_assoc, append-nil, none, true,
}
use rem_poc.Prelude.Run.{Returns}
use rem_poc.Reth.{Reth}
use rem_poc.Storage.{StorageInner, build_and_execute}
use rem_poc.Storage.Served.{IsServed, build_and_execute-IsServed}
use rem_poc.Task.Conclusive.{IsConclusive, after_execution-ready}
use rem_poc.Task.{MalachiteTask, Meeting, poll_insert}
use rem_poc.Task.Poll.{again, pass, receive, dispatch, drive, after_poll}

-- A poll of the insert future that is to execute these transactions on this storage meets a free lock,
-- services that answer on the block that is to be built, and a conclusive reply.
pub record IsHealthy {R : Reth} (s : StorageInner R) (txs : List R.Transaction) (m : Meeting R)
    : Type 0 where
  pub free : m.lock_free ≡ true
  pub serves : IsServed m.environment s txs []
  pub conclusive : IsConclusive m.replies

-- So it is for each of the sets, on the storage that the execution of those before it has left.
abbrev pub AllHealthy :
    {R : Reth} → StorageInner R → List (List R.Transaction) → List (Meeting R) → Type 0
AllHealthy s [] ms = Unit
AllHealthy s (txs ∷ sets) [] = ⊥
AllHealthy s (txs ∷ sets) (m ∷ ms) =
    IsHealthy s txs m × AllHealthy (build_and_execute m.environment s txs []).1 sets ms

pub IsHealthy-Returns :
    {R : Reth} (m : Meeting R) (s : StorageInner R) (txs : List R.Transaction)
    → IsHealthy s txs m
    → Returns (build_and_execute m.environment s txs []).0
IsHealthy-Returns m s txs healthy =
    (build_and_execute-IsServed m.environment s txs []).0.1 healthy.serves

cons_path : {A : Type 0} (a b : A) (xs ys : List A) → a ∷ xs ≡ b ∷ ys → (a ≡ b) × (xs ≡ ys)
cons_path a b xs ys e = (cc, cc)

module _ {R : Reth} where
  -- What a pass has done that executed a set of transactions: `queued` and `chain_rx` are left.
  record IsExecuted (m : Meeting R) (txs : List R.Transaction)
      (queued chain_rx : List (List R.Transaction)) (t t' : MalachiteTask R) : Type 0 where
    idle : t'.insert_task ≡ none
    storage : t'.storage ≡ (build_and_execute m.environment t.storage txs []).1
    executed : t'.executed ≡ t.executed ++ txs ∷ []
    left_queued : t'.queued ≡ queued
    left_rx : t'.chain_rx ≡ chain_rx
    chain_open : t'.chain_open ≡ t.chain_open

  dispatch-IsExecuted :
      (t : MalachiteTask R) (m : Meeting R) (ms : List (Meeting R)) (txs : List R.Transaction)
      (rest : List (List R.Transaction))
      → IsHealthy t.storage txs m
      → (t' : MalachiteTask R) × (dispatch t (m ∷ ms) none (txs ∷ rest) ≡ again t' ms)
        × IsExecuted m txs rest t.chain_rx t t'
  unfolding dispatch drive poll_insert after_poll
  dispatch-IsExecuted t m ms txs rest healthy =
      let t₁ : MalachiteTask R = record t {
        insert_task = none;
        storage = (build_and_execute m.environment t.storage txs []).1;
        executed = t.executed ++ txs ∷ [];
        queued = rest;
        pipe_line_events = none;
      } in
      let (t', events', e, f) =
        after_execution-ready t₁ txs t.pipe_line_events m.replies
          (build_and_execute m.environment t.storage txs []).0
          (IsHealthy-Returns m t.storage txs healthy) healthy.conclusive in
      (
        record t' { pipe_line_events = events' },
        rw (healthy.free, e) refl,
        record {
          idle = f.insert_task;
          storage = f.storage;
          executed = f.executed;
          left_queued = f.queued;
          left_rx = f.chain_rx;
          chain_open = f.chain_open;
        },
      )

  -- A pass of the loop where a set waits, on the queue or on the channel.
  pub record HasExecuted (m : Meeting R) (txs : List R.Transaction)
      (rest : List (List R.Transaction)) (t t' : MalachiteTask R) : Type 0 where
    pub idle : t'.insert_task ≡ none
    pub storage : t'.storage ≡ (build_and_execute m.environment t.storage txs []).1
    pub executed : t'.executed ≡ t.executed ++ txs ∷ []
    pub waits : t'.queued ++ t'.chain_rx ≡ rest
    pub chain_open : t'.chain_open ≡ true

  first-IsHealthy :
      (s : StorageInner R) (q txs : List R.Transaction) (waits rest : List (List R.Transaction))
      (m : Meeting R)
      → q ∷ waits ≡ txs ∷ rest
      → IsHealthy s txs m
      → IsHealthy s q m
  first-IsHealthy s q txs waits rest m e healthy =
      subst (λ x. IsHealthy s x m) (sym (cons_path q txs waits rest e).0) healthy

  -- The task when it has received: it is idle, and `txs` is the oldest set on its queue.
  abbrev ready_task :
      MalachiteTask R
      → List R.Transaction
      → List (List R.Transaction)
      → List (List R.Transaction)
      → MalachiteTask R
  ready_task t txs queued chain_rx = record t {
    insert_task = none;
    chain_open = true;
    chain_rx = chain_rx;
    queued = txs ∷ queued;
  }

  dispatched :
      (t t' : MalachiteTask R) (m : Meeting R) (q txs : List R.Transaction)
      (queued chain_rx rest waits : List (List R.Transaction))
      → IsExecuted m q queued chain_rx (ready_task t q queued chain_rx) t'
      → queued ++ chain_rx ≡ waits
      → q ∷ waits ≡ txs ∷ rest
      → HasExecuted m txs rest t t'
  dispatched t t' m q txs queued chain_rx rest waits h same e =
      let (first, others) = cons_path q txs waits rest e in
      let left : t'.queued ++ t'.chain_rx ≡ queued ++ chain_rx =
        rw (h.left_queued, h.left_rx) refl in
      subst (λ x. HasExecuted m x rest t t') first
        (record {
          idle = h.idle;
          storage = h.storage;
          executed = h.executed;
          waits = left ∙ (same ∙ others);
          chain_open = h.chain_open;
        })

  pub pass-HasExecuted :
      (t : MalachiteTask R) (m : Meeting R) (ms : List (Meeting R)) (txs : List R.Transaction)
      (rest queued chain_rx : List (List R.Transaction))
      → IsHealthy t.storage txs m
      → t.insert_task ≡ none
      → t.chain_open ≡ true
      → t.queued ≡ queued
      → t.chain_rx ≡ chain_rx
      → queued ++ chain_rx ≡ txs ∷ rest
      → (t' : MalachiteTask R) × (pass t (m ∷ ms) ≡ again t' ms) × HasExecuted m txs rest t t'
  unfolding pass receive
  pass-HasExecuted t m ms txs rest [] [] healthy idle live eq ex e = cc
  pass-HasExecuted t m ms txs rest (q ∷ qs) [] healthy idle live eq ex e =
      let (t', p, h) =
        dispatch-IsExecuted (ready_task t q qs []) m ms q qs
          (first-IsHealthy t.storage q txs (qs ++ []) rest m e healthy) in
      (
        t',
        rw (ex, live, idle, eq) p,
        dispatched t t' m q txs qs [] rest qs h (append-nil qs)
            (ap (λ l. q ∷ l) (sym (append-nil qs)) ∙ e),
      )
  pass-HasExecuted t m ms txs rest [] (v ∷ vs) healthy idle live eq ex e =
      let (t', p, h) =
        dispatch-IsExecuted (ready_task t v [] vs) m ms v []
          (first-IsHealthy t.storage v txs vs rest m e healthy) in
      (t', rw (ex, live, idle, eq) p, dispatched t t' m v txs [] vs rest vs h refl e)
  pass-HasExecuted t m ms txs rest (q ∷ qs) (v ∷ vs) healthy idle live eq ex e =
      let (t', p, h) =
        dispatch-IsExecuted (ready_task t q (qs ++ v ∷ []) vs) m ms q (qs ++ v ∷ [])
          (first-IsHealthy t.storage q txs (qs ++ v ∷ vs) rest m e healthy) in
      (
        t',
        rw (ex, live, idle, eq) p,
        dispatched t t' m q txs (qs ++ v ∷ []) vs rest (qs ++ v ∷ vs) h
            (append_assoc qs (v ∷ []) vs) e,
      )
