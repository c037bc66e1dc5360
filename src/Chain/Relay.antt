-- ===== src/Chain/Relay.antt =====
-- What the consumer relays, against a description of the steps that it received.
use mathlib.Core.Option
use mathlib.Core.List.{map-append}
use mathlib.Core.Path.{fun_ext}
use rem_poc.Prelude.{
  ℕ, ◌≡◌, refl, sym, ap, ◌∙◌, inl, inr, List, [], ◌∷◌, ◌++◌, map, append_assoc, append-nil, Option,
  none, some, true, arith, if◌then◌else◌, ◌==◌, Bool-cases, Option-cases,
}
use rem_poc.Prelude.HashMap
use rem_poc.Prelude.HashMap.{get-insert}
use rem_poc.Prelude.Run.{ok, bind_returned}
use rem_poc.Context.Malachite.{Malachite}
use rem_poc.Context.Value.{BaseValue, Decision, DecisionStep, proposed, finalized}
use rem_poc.Chain.Consumer.{Consumer, empty_consumer, consume_step, consume}

abbrev or_else {ℓ} : {A : Type ℓ} → Option A → Option A → Option A
or_else none o = o
or_else (some v) o = some v

module _ {Transaction : Type 0} where
  -- The transactions of the value that the consumer holds for a height.
  abbrev relayed : Consumer Transaction → ℕ → Option (List Transaction)
  relayed c h = Option.map (λ v. v.transactions) (HashMap.get c.decisions h)

module _ (M : Malachite) {Transaction : Type 0} where
  finalized_by_zero :
      (c t : Consumer Transaction) (f : Decision)
      → (f.peer == 0) ≡ true
      → consume_step {M = M} c (finalized f) ≡ ok t
      → (v : BaseValue Transaction) × (HashMap.get c.decisions f.height ≡ some v)
        × (t.decisions ≡ c.decisions)
        × (t.to_task ≡ c.to_task ++ v.transactions ∷ [])
  unfolding consume_step
  finalized_by_zero c t f hit e = elim (Option-cases (HashMap.get c.decisions f.height)) [
    | inl missing ↦ absurd (ground arith)
    | inr (v, at) ↦ (v, at, ground arith, ground arith)
  ]

module _ {M : Malachite} {Transaction : Type 0} where
  -- The value that was proposed first for a height.
  unfoldable pub first_proposal :
      List (DecisionStep M Transaction) → ℕ → Option (BaseValue Transaction)
  first_proposal [] h = none
  first_proposal (proposed p ∷ ds) h = if p.height == h then some p.value else first_proposal ds h
  first_proposal (finalized f ∷ ds) h = first_proposal ds h

  -- The heights that peer 0 finalized, in order.
  pub finalized_heights : List (DecisionStep M Transaction) → List ℕ
  finalized_heights [] = []
  finalized_heights (proposed p ∷ ds) = finalized_heights ds
  finalized_heights (finalized f ∷ ds) =
      let rest = finalized_heights ds in if f.peer == 0 then f.height ∷ rest else rest

  decisions-consume_step :
      (c t : Consumer Transaction) (d : DecisionStep M Transaction) (h : ℕ)
      → consume_step c d ≡ ok t
      → HashMap.get t.decisions h ≡ or_else (HashMap.get c.decisions h) (first_proposal (d ∷ []) h)
  unfolding consume_step first_proposal HashMap.contains_key
  decisions-consume_step c t (proposed p) h e =
      ground (arith, get-insert c.decisions p.height h p.value)
  decisions-consume_step c t (finalized f) h e = ground arith

  first_proposal-cons :
      (d : DecisionStep M Transaction) (ds : List (DecisionStep M Transaction)) (h : ℕ)
      → first_proposal (d ∷ ds) h ≡ or_else (first_proposal (d ∷ []) h) (first_proposal ds h)
  unfolding first_proposal
  first_proposal-cons (proposed p) ds h = ground arith
  first_proposal-cons (finalized f) ds h = refl

  decisions-consume :
      (c t : Consumer Transaction) (ds : List (DecisionStep M Transaction)) (h : ℕ)
      → consume c ds ≡ ok t
      → HashMap.get t.decisions h ≡ or_else (HashMap.get c.decisions h) (first_proposal ds h)
  unfolding consume first_proposal
  decisions-consume c t [] h e = ground arith
  decisions-consume c t (d ∷ ds) h e =
      let (c', first, later) = bind_returned (consume_step c d) (λ c'. consume c' ds) t e in
      ground (
        arith,
        decisions-consume_step c c' d h first,
        decisions-consume c' t ds h later,
        first_proposal-cons d ds h,
      )

  -- One step sends what the heights that it finalizes hold, now and in any later state `u`.
  to_task-consume_step :
      (c t u : Consumer Transaction) (d : DecisionStep M Transaction)
      → ((h : ℕ) (v : BaseValue Transaction)
          → HashMap.get t.decisions h ≡ some v
          → HashMap.get u.decisions h ≡ some v)
      → consume_step c d ≡ ok t
      → map some t.to_task ≡ map some c.to_task ++ map (relayed u) (finalized_heights (d ∷ []))
  unfolding finalized_heights
  to_task-consume_step c t u (proposed p) keep e =
      let same : t.to_task ≡ c.to_task = unfold consume_step in ground arith in
      rw same (sym (append-nil (map some c.to_task)))
  to_task-consume_step c t u (finalized f) keep e = elim (Bool-cases (f.peer == 0)) [
    | inr miss ↦
        let same : t.to_task ≡ c.to_task = unfold consume_step in ground arith in
        rw (miss, same) (sym (append-nil (map some c.to_task)))
    | inl hit ↦
        let (v, at, kept, sent) = finalized_by_zero M c t f hit e in
        let later : HashMap.get u.decisions f.height ≡ some v = keep f.height v (rw kept at) in
        rw (hit, sent, later) (map-append some c.to_task (v.transactions ∷ []))
  ]

  finalized_heights-cons :
      (d : DecisionStep M Transaction) (ds : List (DecisionStep M Transaction))
      → finalized_heights (d ∷ ds) ≡ finalized_heights (d ∷ []) ++ finalized_heights ds
  unfolding finalized_heights
  finalized_heights-cons (proposed p) ds = refl
  finalized_heights-cons (finalized f) ds = elim (Bool-cases (f.peer == 0)) [
    | inl hit ↦ rw hit
    | inr miss ↦ rw miss
  ]

  to_task-consume :
      (c t : Consumer Transaction) (ds : List (DecisionStep M Transaction))
      → consume c ds ≡ ok t
      → map some t.to_task ≡ map some c.to_task ++ map (relayed t) (finalized_heights ds)
  unfolding finalized_heights
  to_task-consume c t [] e =
      let same : t.to_task ≡ c.to_task = unfold consume in ground arith in
      rw same (sym (append-nil (map some c.to_task)))
  to_task-consume c t (d ∷ ds) e =
      let (c', first, later) =
        bind_returned (consume_step c d) (λ c'. consume c' ds) t (unfold consume in e) in
      let keep = λ (h : ℕ) (v : BaseValue Transaction) (at : HashMap.get c'.decisions h ≡ some v).
        decisions-consume c' t ds h later ∙ ap (λ o. or_else o (first_proposal ds h)) at in
      to_task-consume c' t ds later
      ∙ (ap (λ l. l ++ map (relayed t) (finalized_heights ds))
            (to_task-consume_step c c' t d keep first)
          ∙ rw (finalized_heights-cons d ds, map-append, append_assoc) refl)

  -- What the consumer has sent when it has gone through the steps: for each height that peer 0
  -- finalized, in that order, the transactions of the value that was proposed first for that height.
  pub consume_relays :
      (t : Consumer Transaction) (ds : List (DecisionStep M Transaction))
      → consume empty_consumer ds ≡ ok t
      → map some t.to_task
        ≡ map (λ h. Option.map (λ v. v.transactions) (first_proposal ds h)) (finalized_heights ds)
  unfolding HashMap.get
  consume_relays t ds e =
      to_task-consume empty_consumer t ds e
      ∙ ap (λ f. map f (finalized_heights ds))
          (fun_ext
            λ h. ap (Option.map (λ v. v.transactions)) (decisions-consume empty_consumer t ds h e))
