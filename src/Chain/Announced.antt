-- ===== src/Chain/Announced.antt =====
-- The heights that values were proposed for among the decision steps, and steps announced at the end.
use rem_poc.Prelude.{ℕ, ◌⊎◌, inl, inr, List, [], ◌∷◌, ◌++◌, IsIn}
use rem_poc.Context.Malachite.{Malachite}
use rem_poc.Context.Value.{Decision, DecisionStep, proposed, finalized}
use rem_poc.Chain.Progress.{Timely}

module _ {M : Malachite} {Transaction : Type 0} where
  abbrev pub proposed_heights : List (DecisionStep M Transaction) → List ℕ
  proposed_heights [] = []
  proposed_heights (proposed p ∷ ds) = p.height ∷ proposed_heights ds
  proposed_heights (finalized f ∷ ds) = proposed_heights ds

  pub proposed_heights-append :
      (ds es : List (DecisionStep M Transaction)) (h : ℕ)
      → IsIn h (proposed_heights ds)
      → IsIn h (proposed_heights (ds ++ es))
  proposed_heights-append [] es h i = elim i [ ]
  proposed_heights-append (proposed p ∷ ds) es h (inl here) = inl here
  proposed_heights-append (proposed p ∷ ds) es h (inr there) =
      inr (proposed_heights-append ds es h there)
  proposed_heights-append (finalized f ∷ ds) es h i = proposed_heights-append ds es h i

  pub proposed_heights-last :
      (ds es : List (DecisionStep M Transaction)) (h : ℕ)
      → IsIn h (proposed_heights es)
      → IsIn h (proposed_heights (ds ++ es))
  proposed_heights-last [] es h i = i
  proposed_heights-last (proposed p ∷ ds) es h i = inr (proposed_heights-last ds es h i)
  proposed_heights-last (finalized f ∷ ds) es h i = proposed_heights-last ds es h i

  -- Steps that only propose stay timely, and so does a decision for a height proposed before.
  pub Timely-append :
      (seen : List ℕ) (ds es : List (DecisionStep M Transaction))
      → ((more : List ℕ) → Timely more es)
      → Timely seen ds
      → Timely seen (ds ++ es)
  Timely-append seen [] es later timely = later seen
  Timely-append seen (proposed p ∷ ds) es later timely =
      Timely-append (p.height ∷ seen) ds es later timely
  Timely-append seen (finalized f ∷ ds) es later timely =
      (timely.0, Timely-append seen ds es later timely.1)

  pub Timely-decided :
      (seen : List ℕ) (ds : List (DecisionStep M Transaction)) (f : Decision)
      → IsIn f.height seen ⊎ IsIn f.height (proposed_heights ds)
      → Timely seen ds
      → Timely seen (ds ++ finalized f ∷ [])
  Timely-decided seen [] f (inl i) timely = ((λ _. i), tt)
  Timely-decided seen [] f (inr i) timely = absurd i
  Timely-decided seen (proposed p ∷ ds) f (inl i) timely =
      Timely-decided (p.height ∷ seen) ds f (inl (inr i)) timely
  Timely-decided seen (proposed p ∷ ds) f (inr (inl here)) timely =
      Timely-decided (p.height ∷ seen) ds f (inl (inl here)) timely
  Timely-decided seen (proposed p ∷ ds) f (inr (inr there)) timely =
      Timely-decided (p.height ∷ seen) ds f (inr there) timely
  Timely-decided seen (finalized g ∷ ds) f i timely =
      (timely.0, Timely-decided seen ds f i timely.1)

  -- What is timely is so up to any point.
  pub Timely-prefix :
      (seen : List ℕ) (ds es : List (DecisionStep M Transaction))
      → Timely seen (ds ++ es)
      → Timely seen ds
  Timely-prefix seen [] es timely = tt
  Timely-prefix seen (proposed p ∷ ds) es timely = Timely-prefix (p.height ∷ seen) ds es timely
  Timely-prefix seen (finalized f ∷ ds) es timely = (timely.0, Timely-prefix seen ds es timely.1)
