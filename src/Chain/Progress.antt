-- ===== src/Chain/Progress.antt =====
-- When the consumer goes through all the steps that it receives, and when it panics.
use rem_poc.Prelude.{
  ℕ, ◌≡◌, ◌↔◌, refl, sym, subst, inl, inr, List, [], ◌∷◌, ◌++◌, some, true, arith, ◌==◌, Bool-cases,
  Option-cases, IsIn,
}
use rem_poc.Prelude.HashMap
use rem_poc.Prelude.HashMap.{HashMap, get-insert}
use rem_poc.Prelude.Run.{ok, Returns, bind_returned}
use rem_poc.Context.Malachite.{Malachite}
use rem_poc.Context.Value.{BaseValue, Decision, ProposedValue, DecisionStep, proposed, finalized}
use rem_poc.Chain.Consumer.{Consumer, empty_consumer, relay, consume_step, consume}

module _ {Transaction : Type 0} where
  -- The heights `seen` are those that have a value.
  abbrev Known : List ℕ → HashMap (BaseValue Transaction) → Type 0
  Known seen m =
      ((h : ℕ) → IsIn h seen → (v : BaseValue Transaction) × (HashMap.get m h ≡ some v))
      × ((h : ℕ) (v : BaseValue Transaction) → HashMap.get m h ≡ some v → IsIn h seen)

  Known-insert :
      (seen : List ℕ) (m : HashMap (BaseValue Transaction)) (k : ℕ) (v : BaseValue Transaction)
      → Known seen m
      → Known (k ∷ seen) (HashMap.insert m k v)
  Known-insert seen m k v (has, only) = (has', only')
    where
      has' :
          (h : ℕ)
          → IsIn h (k ∷ seen)
          → (w : BaseValue Transaction) × (HashMap.get (HashMap.insert m k v) h ≡ some w)
      has' h (inl e) = (v, ground (arith, get-insert m k h v))
      has' h (inr i) = elim (Bool-cases (k == h)) [
        | inl hit ↦ (v, ground (arith, get-insert m k h v))
        | inr miss ↦ let (w, e) = has h i in (w, ground (arith, get-insert m k h v))
      ]

      only' :
          (h : ℕ) (w : BaseValue Transaction)
          → HashMap.get (HashMap.insert m k v) h ≡ some w
          → IsIn h (k ∷ seen)
      only' h w e = elim (Bool-cases (k == h)) [
        | inl hit ↦ inl (ground arith)
        | inr miss ↦ inr (only h w (ground (arith, get-insert m k h v)))
      ]

  Known-again :
      (seen : List ℕ) (m : HashMap (BaseValue Transaction)) (k : ℕ) (v : BaseValue Transaction)
      → HashMap.get m k ≡ some v
      → Known seen m
      → Known (k ∷ seen) m
  Known-again seen m k v at (has, only) = (has', λ h w e. inr (only h w e))
    where
      has' : (h : ℕ) → IsIn h (k ∷ seen) → (w : BaseValue Transaction) × (HashMap.get m h ≡ some w)
      has' h (inl e) = (v, rw e at)
      has' h (inr i) = has h i

module _ {M : Malachite} {Transaction : Type 0} where
  -- Peer 0 finalizes only heights that a value was proposed for before, or that are `seen`.
  abbrev pub Timely : List ℕ → List (DecisionStep M Transaction) → Type 0
  Timely seen [] = Unit
  Timely seen (proposed p ∷ ds) = Timely (p.height ∷ seen) ds
  Timely seen (finalized f ∷ ds) = (f.peer ≡ 0 → IsIn f.height seen) × Timely seen ds

module _ (M : Malachite) {Transaction : Type 0} where
  proposed_step :
      (p : ProposedValue M Transaction) (c : Consumer Transaction) (seen : List ℕ)
      → c.task_alive ≡ true
      → Known seen c.decisions
      → (c' : Consumer Transaction) × (consume_step c (proposed p) ≡ ok c')
        × (c'.task_alive ≡ true)
        × Known (p.height ∷ seen) c'.decisions
  unfolding consume_step HashMap.contains_key
  proposed_step p c seen alive holds = elim (Option-cases (HashMap.get c.decisions p.height)) [
    | inr (v, at) ↦ (c, ground arith, alive, Known-again seen c.decisions p.height v at holds)
    | inl free ↦ (
      record c { decisions = HashMap.insert c.decisions p.height p.value },
      ground arith,
      alive,
      Known-insert seen c.decisions p.height p.value holds,
    )
  ]

  finalized_step :
      (f : Decision) (c : Consumer Transaction) (seen : List ℕ)
      → c.task_alive ≡ true
      → Known seen c.decisions
      → (f.peer ≡ 0 → IsIn f.height seen)
      → (c' : Consumer Transaction) × (consume_step {M = M} c (finalized f) ≡ ok c')
        × (c'.task_alive ≡ true)
        × (c'.decisions ≡ c.decisions)
  unfolding consume_step relay
  finalized_step f c seen alive holds timely = elim (Bool-cases (f.peer == 0)) [
    | inr miss ↦ (c, ground arith, alive, refl)
    | inl hit ↦
        let (v, at) = holds.0 f.height (timely (ground arith)) in
        (record c { to_task = c.to_task ++ v.transactions ∷ [] }, ground arith, alive, refl)
  ]

  finalized-Timely :
      (f : Decision) (c c' : Consumer Transaction) (seen : List ℕ)
      → Known seen c.decisions
      → consume_step {M = M} c (finalized f) ≡ ok c'
      → f.peer ≡ 0
      → IsIn f.height seen
  unfolding consume_step
  finalized-Timely f c c' seen known e zero_peer =
      elim (Option-cases (HashMap.get c.decisions f.height)) [
        | inl missing ↦ absurd (ground arith)
        | inr (v, at) ↦ known.1 f.height v at
      ]

  kept :
      (f : Decision) (c c' : Consumer Transaction)
      → consume_step {M = M} c (finalized f) ≡ ok c'
      → c'.decisions ≡ c.decisions
  unfolding consume_step
  kept f c c' e = ground arith

  kept_alive :
      (f : Decision) (c c' : Consumer Transaction)
      → c.task_alive ≡ true
      → consume_step {M = M} c (finalized f) ≡ ok c'
      → c'.task_alive ≡ true
  unfolding consume_step
  kept_alive f c c' alive e = ground arith

  consume_from :
      (ds : List (DecisionStep M Transaction)) (c : Consumer Transaction) (seen : List ℕ)
      → c.task_alive ≡ true
      → Known seen c.decisions
      → Timely seen ds
      → Returns (consume c ds)
  unfolding consume
  consume_from [] c seen alive holds timely = (c, refl)
  consume_from (proposed p ∷ ds) c seen alive holds timely =
      let (c', e, alive', holds') = proposed_step p c seen alive holds in
      rw e (consume_from ds c' (p.height ∷ seen) alive' holds' timely)
  consume_from (finalized f ∷ ds) c seen alive holds timely =
      let (c', e, alive', kept) = finalized_step f c seen alive holds timely.0 in
      rw e (consume_from ds c' seen alive' (subst (Known seen) (sym kept) holds) timely.1)

  Timely-from :
      (ds : List (DecisionStep M Transaction)) (c : Consumer Transaction) (seen : List ℕ)
      → c.task_alive ≡ true
      → Known seen c.decisions
      → Returns (consume c ds)
      → Timely seen ds
  unfolding consume
  Timely-from [] c seen alive known returns = tt
  Timely-from (proposed p ∷ ds) c seen alive known returns =
      let (c', e, alive', known') = proposed_step p c seen alive known in
      Timely-from ds c' (p.height ∷ seen) alive' known' (rw e at returns)
  Timely-from (finalized f ∷ ds) c seen alive known (t, returns) =
      let (c', e, later) =
        bind_returned (consume_step c (finalized f)) (λ c'. consume c' ds) t returns in
      (
        finalized-Timely f c c' seen known e,
        Timely-from ds c' seen (kept_alive f c c' alive e)
            (subst (Known seen) (sym (kept f c c' e)) known) (t, later),
      )

module _ {M : Malachite} {Transaction : Type 0} where
  -- The consumer, while the task receives, goes through the steps without a panic exactly if peer 0
  -- finalizes only heights that a value was proposed for before.
  pub consume_total :
      (ds : List (DecisionStep M Transaction)) → Timely [] ds ↔ Returns (consume empty_consumer ds)
  unfolding HashMap.get
  consume_total ds =
      let known : Known {Transaction = Transaction} [] [] = ((λ h i. absurd i), (λ h v e. cc)) in
      (
        consume_from M ds empty_consumer [] refl known,
        Timely-from M ds empty_consumer [] refl known,
      )
