-- ===== src/Task/Ledger.antt =====
-- Which blocks the task builds: those of the sets that it executes, in their order.
use mathlib.Core.List.Sublist
use mathlib.Core.List.{Sublist, sublist-append_left, map-append}
use rem_poc.Prelude.{
  ℕ, suc, ◌+◌, ◌<◌, ◌≤◌, ◌≡◌, true, sym, ap, refl, map, ◌∙◌, subst, List, [], ◌∷◌, ◌++◌, arith,
  length, length-append, u64_mod,
}
use rem_poc.Prelude.Run.{Run, ok, err, panic}
use rem_poc.Reth.{Reth, SealedHeader}
use rem_poc.Storage.{StorageInner, build_and_execute}
use rem_poc.Storage.Chain.{CollisionFree, IsChain}
use rem_poc.Storage.Execute.{build_and_execute-IsChain}
use rem_poc.Storage.Represents.{Block, transactions_of, Represents, Grown, build_and_execute-Grown}
use rem_poc.Task.{MalachiteTask, Meeting}
use rem_poc.Task.Poll.{poll}
use rem_poc.Task.Rule.{waiting, left, removals, poll-Holds}

-- The storage is a well-formed chain from `base`; the sets of transactions of its blocks above `base`
-- are some of those that were executed, in their order, and are what was removed from the pool; and if
-- there are as many of them, they are all.
pub record IsBuilt {R : Reth} (base : ℕ) (s : StorageInner R) (executed : List (List R.Transaction))
    (removed : List (List ℕ)) : Type 0 where
  pub chain : IsChain s base
  pub blocks : List (Block R)
  pub held : Represents s base blocks
  pub ran : Sublist (transactions_of blocks) executed
  pub fewer : length blocks ≤ length executed
  pub removals_same : map (map R.transaction_hash) (transactions_of blocks) ≡ removed
  pub exact : length executed ≤ length blocks → transactions_of blocks ≡ executed

module _ {R : Reth} (free : CollisionFree R) (base : ℕ) where
  -- Invariant of a poll: as above, with room for a block for each set that waits.
  abbrev pub HasRoom : StorageInner R → List (List R.Transaction) → List (List ℕ) → ℕ → Type 0
  HasRoom s executed removed n =
      IsBuilt base s executed removed × (base + (length executed + n) < u64_mod)

  Grown-IsBuilt :
      (s : StorageInner R) (executed : List (List R.Transaction)) (removed : List (List ℕ))
      (txs : List R.Transaction) (room : s.best_block + 1 < u64_mod)
      (built : IsBuilt base s executed removed)
      (x : Run R.ExecutionError (SealedHeader × R.Outcome) × StorageInner R)
      → IsChain x.1 base
      → Grown free s base txs room built.chain built.blocks x
      → IsBuilt base x.1 (executed ++ txs ∷ []) (removals R x.0 txs removed)
  Grown-IsBuilt s executed removed txs room built (ok (h, o), t) chain (b, held, same) = record {
    chain = chain;
    blocks = built.blocks ++ (h.header, b) ∷ [];
    held = held;
    ran =
        subst (λ l. Sublist l (executed ++ txs ∷ []))
          (sym (map-append (λ (b : Block R). b.1.transactions) built.blocks ((h.header, b) ∷ [])))
          (subst
            (λ (x : List R.Transaction).
              Sublist (transactions_of built.blocks ++ x ∷ []) (executed ++ txs ∷ []))
            (sym same) (Sublist.append built.ran (Sublist.refl (txs ∷ []))));
    fewer = omega (
      arith,
      built.fewer,
      length-append built.blocks ((h.header, b) ∷ []),
      length-append executed (txs ∷ []),
    );
    removals_same =
        ap (map (map R.transaction_hash))
          (map-append (λ (b : Block R). b.1.transactions) built.blocks ((h.header, b) ∷ []))
        ∙ (map-append (map R.transaction_hash) (transactions_of built.blocks) (b.transactions ∷ [])
            ∙ rw (built.removals_same, same) refl);
    exact = λ all.
        map-append (λ (b : Block R). b.1.transactions) built.blocks ((h.header, b) ∷ [])
        ∙ rw
            (
              same,
              built.exact (
                  omega (
                    arith,
                    all,
                    length-append built.blocks ((h.header, b) ∷ []),
                    length-append executed (txs ∷ []),
                  )),
            )
            refl;
  }
  Grown-IsBuilt s executed removed txs room built (err e, t) chain held = record {
    chain = chain;
    blocks = built.blocks;
    held = held;
    ran = Sublist.trans built.ran (sublist-append_left executed (txs ∷ []));
    fewer = omega (arith, built.fewer, length-append executed (txs ∷ []));
    removals_same = built.removals_same;
    exact = λ all. absurd (omega (arith, all, built.fewer, length-append executed (txs ∷ [])));
  }
  Grown-IsBuilt s executed removed txs room built (panic, t) chain held = record {
    chain = chain;
    blocks = built.blocks;
    held = held;
    ran = Sublist.trans built.ran (sublist-append_left executed (txs ∷ []));
    fewer = omega (arith, built.fewer, length-append executed (txs ∷ []));
    removals_same = built.removals_same;
    exact = λ all. absurd (omega (arith, all, built.fewer, length-append executed (txs ∷ [])));
  }

  execution-HasRoom :
      (m : Meeting R) (s : StorageInner R) (executed : List (List R.Transaction))
      (removed : List (List ℕ)) (txs : List R.Transaction) (n : ℕ)
      → m.lock_free ≡ true
      → HasRoom s executed removed (suc n)
      → let r = build_and_execute m.environment s txs [] in
        HasRoom r.1 (executed ++ txs ∷ []) (removals R r.0 txs removed) n
  execution-HasRoom m s executed removed txs n locked (built, room) =
      let one : s.best_block + 1 < u64_mod = omega (arith, room, built.held.extent, built.fewer) in
      (
        Grown-IsBuilt s executed removed txs one built (build_and_execute m.environment s txs [])
            (build_and_execute-IsChain free m.environment s base txs [] one built.chain)
            (build_and_execute-Grown free s base txs one built.chain built.blocks m.environment []
              built.held),
        omega (arith, room, length-append executed (txs ∷ [])),
      )

  pub poll-HasRoom :
      (fuel : ℕ) (t : MalachiteTask R) (ms : List (Meeting R))
      → HasRoom t.storage t.executed t.removed (waiting t)
      → let t' = left (poll fuel t ms) in HasRoom t'.storage t'.executed t'.removed (waiting t')
  poll-HasRoom fuel t ms = poll-Holds HasRoom execution-HasRoom fuel t ms
