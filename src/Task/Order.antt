-- ===== src/Task/Order.antt =====
-- Each pass of the loop, and so each poll, keeps the work of the task as it is, and every poll ends.
use rem_poc.Prelude.{
  ℕ, zero, suc, ◌<◌, ◌≡◌, refl, ap, subst, List, [], ◌∷◌, append_assoc, Option, none, some, Bool,
  true, false, arith, length, length-append,
}
use rem_poc.Reth.{Reth}
use rem_poc.Task.{
  MalachiteTask, Meeting, Insert, locking, Polled, ready, pending, panicked, poll_insert,
}
use rem_poc.Task.Poll.{
  Pass, again, stop, crash, Outcome, returned, crashed, out_of_fuel, receive, after_poll, drive,
  dispatch, pass, poll,
}
use rem_poc.Task.Work.{work, backlog, PolledWell, poll_insert-PolledWell}

module _ {R : Reth} where
  PassWell : List (List R.Transaction) → ℕ → Pass R → Type 0
  PassWell w b (again t ms) = (work t ≡ w) × (suc (backlog t) ≡ b)
  PassWell w b (stop t) =
      (work t ≡ w) × (t.insert_task ≡ none → (t.queued ≡ []) × (t.chain_rx ≡ []))
  PassWell w b (crash t) = work t ≡ w

  after_poll-PassWell :
      (w : List (List R.Transaction)) (left : ℕ) (p : Polled R) (ms : List (Meeting R))
      → PolledWell w left p
      → PassWell w (suc left) (after_poll p ms)
  unfolding after_poll PassWell
  after_poll-PassWell w left (ready t events) ms (same, e) = (same, omega (arith, e))
  after_poll-PassWell w left (pending t fut) ms (same, e) = (same, λ impossible. cc)
  after_poll-PassWell w left (panicked t) ms same = same

  drive-PassWell :
      (t : MalachiteTask R) (ms : List (Meeting R)) (fut : Insert R)
      → PassWell
          (work (record t { insert_task = some fut }))
          (suc (backlog (record t { insert_task = none })))
          (drive t ms fut)
  unfolding drive PassWell
  drive-PassWell t [] fut = (refl, λ impossible. cc)
  drive-PassWell t (m ∷ ms) fut =
      after_poll-PassWell _ _ (poll_insert (record t { insert_task = none }) m fut) ms
        (poll_insert-PolledWell (record t { insert_task = none }) m fut refl)

  PassWell-eq :
      (w w' : List (List R.Transaction)) (b b' : ℕ) (p : Pass R)
      → w ≡ w'
      → b ≡ b'
      → PassWell w b p
      → PassWell w' b' p
  PassWell-eq w w' b b' p e f h = subst (λ x. PassWell w' x p) f (subst (λ x. PassWell x b p) e h)

  dispatch-PassWell :
      (t : MalachiteTask R) (ms : List (Meeting R)) (fut : Option (Insert R))
      (queued : List (List R.Transaction))
      → t.insert_task ≡ fut
      → t.queued ≡ queued
      → (fut ≡ none → queued ≡ [] → t.chain_rx ≡ [])
      → PassWell (work t) (backlog t) (dispatch t ms fut queued)
  unfolding dispatch PassWell
  dispatch-PassWell t ms (some fut) queued e q idle =
      PassWell-eq _ _ _ _ (drive t ms fut) (rw e refl) (rw e (omega arith))
        (drive-PassWell t ms fut)
  dispatch-PassWell t ms none [] e q idle = (refl, λ _. (q, idle refl refl))
  dispatch-PassWell t ms none (txs ∷ rest) e q idle =
      let t' : MalachiteTask R = record t { queued = rest; pipe_line_events = none } in
      let fut : Insert R = locking txs t.pipe_line_events in
      PassWell-eq _ _ _ _ (drive t' ms fut) (rw (e, q) refl) (rw (e, q) (omega arith))
        (drive-PassWell t' ms fut)

  Received : MalachiteTask R → Option (MalachiteTask R) → Type 0
  Received t none = Unit
  Received t (some t') =
      (work t' ≡ work t)
      × (backlog t' ≡ backlog t)
      × (t'.insert_task ≡ none → t'.queued ≡ [] → t'.chain_rx ≡ [])

  receive-Received :
      (t : MalachiteTask R) (rx : List (List R.Transaction)) (alive : Bool)
      → t.chain_rx ≡ rx
      → Received t (receive t rx alive)
  unfolding receive Received
  receive-Received t [] true e = (rw e refl, rw e refl, λ _ _. e)
  receive-Received t [] false e = tt
  receive-Received t (v ∷ vs) alive e = (
    rw (e, append_assoc) refl,
    rw e (omega (arith, length-append t.queued (v ∷ []))),
    λ _ q. absurd (omega (arith, ap length q, length-append t.queued (v ∷ []))),
  )

  pass-PassWell :
      (t : MalachiteTask R) (ms : List (Meeting R)) → PassWell (work t) (backlog t) (pass t ms)
  pass-PassWell t ms =
      go (receive t t.chain_rx t.chain_open) refl (receive-Received t t.chain_rx t.chain_open refl)
    where
      go :
          (o : Option (MalachiteTask R))
          → receive t t.chain_rx t.chain_open ≡ o
          → Received t o
          → PassWell (work t) (backlog t) (pass t ms)
      go none e h = unfold pass PassWell in rw (e, pass) refl
      go (some t') e h =
          unfold pass Received in
          rw (e, pass)
            (PassWell-eq _ _ _ _ (dispatch t' ms t'.insert_task t'.queued) h.0 h.1
              (dispatch-PassWell t' ms t'.insert_task t'.queued refl refl h.2))

  -- How a poll ends: the work is what it was, and a task that returns with no future at hand has
  -- nothing left in its queue or on the channel.
  abbrev pub PollWell : List (List R.Transaction) → Outcome R → Type 0
  PollWell w (returned t) =
      (work t ≡ w) × (t.insert_task ≡ none → (t.queued ≡ []) × (t.chain_rx ≡ []))
  PollWell w (crashed t) = work t ≡ w
  PollWell w (out_of_fuel t) = ⊥

  -- With more fuel than sets in the backlog a poll ends, whatever it meets. It keeps the sets that were
  -- executed, are held and wait on the channel, taken together, as they were and in their order, also
  -- where it panics; and if it returns with no future at hand, nothing is left to do.
  pub poll-PollWell :
      (fuel : ℕ) (t : MalachiteTask R) (ms : List (Meeting R))
      → backlog t < fuel
      → PollWell (work t) (poll fuel t ms)
  unfolding poll PassWell
  poll-PollWell zero t ms lt = absurd (omega arith)
  poll-PollWell (suc fuel) t ms lt = go (poll-PollWell fuel) (pass t ms) refl (pass-PassWell t ms)
    where
      go :
          ((t' : MalachiteTask R) (ms' : List (Meeting R))
            → backlog t' < fuel
            → PollWell (work t') (poll fuel t' ms'))
          → (p : Pass R) → pass t ms ≡ p
          → PassWell (work t) (backlog t) p
          → PollWell (work t) (poll (suc fuel) t ms)
      go ih (again t' ms') e h =
          rw (e, poll)
            (subst (λ w. PollWell w (poll fuel t' ms')) h.0 (ih t' ms' (omega (arith, h.1))))
      go ih (stop t') e h = rw (e, poll) h
      go ih (crash t') e h = rw (e, poll) h
