-- ===== src/Storage/Served.antt =====
-- When `build_and_execute` returns, and what it then builds.
use rem_poc.Prelude.{ℕ, ◌≡◌, ◌↔◌, refl, ap, List, [], ◌∷◌, Option, some, none, map}
use rem_poc.Prelude.Run.{
  Run, ok, err, panic, ◌>>=◌, map_err, ok_or, unwrap, Returns, bind_returned, map_err-ok,
}
use rem_poc.Reth.{Reth, Header, SealedHeader, BlockBody, BlockWithSenders, ExecutionOutput}
use rem_poc.Storage.Defs.{StorageInner, insert_new_block}
use rem_poc.Storage.Build.{
  Environment, build_header_template, prepare, build_and_execute, blooms, fold_blooms, complete,
  insert_prepared, then_some, unwrap_or,
}

module _ {R : Reth} (env : Environment R) (s : StorageInner R) (txs : List R.Transaction)
    (ommers : List Header) where
  -- The block that is to be executed, once its senders are known.
  abbrev block_of : List ℕ → BlockWithSenders R
  block_of senders =
      let timestamp = unwrap_or env.now 0 in
      let withdrawals =
        then_some (R.is_shanghai_active_at_timestamp timestamp) R.default_withdrawals in
      let requests = then_some (R.is_prague_active_at_timestamp timestamp) R.default_requests in
      record {
        header = build_header_template s timestamp txs ommers withdrawals requests;
        body = txs;
        ommers = ommers;
        withdrawals = withdrawals;
        requests = requests;
        senders = senders;
      }

  abbrev pub outcome_of : List ℕ → ExecutionOutput R → R.Outcome
  outcome_of senders output =
      R.new_outcome output.state output.receipts (block_of senders).header.number
        (output.requests ∷ [])

  -- The services answer on this one block: its senders are recovered, the provider has a state, the
  -- block executes on it, and its outcome has a state root, no missing receipt, and a receipts root.
  pub record IsServed : Type 0 where
    pub senders : List ℕ
    pub database : R.Database
    pub output : ExecutionOutput R
    pub state_root : ℕ
    pub receipts : List R.Receipt
    pub receipts_root : ℕ
    pub recovered : R.recover_signers txs ≡ some senders
    pub latest : env.latest ≡ ok database
    pub executed : env.execute database (block_of senders) 0 ≡ ok output
    pub rooted : R.state_root database (R.outcome_state (outcome_of senders output)) ≡ ok state_root
    pub present :
        R.receipts_by_block (outcome_of senders output) (block_of senders).header.number
        ≡ map some receipts
    pub receipts_rooted :
        R.receipts_root_slow (outcome_of senders output) (block_of senders).header.number
        ≡ some receipts_root

  -- The header of the block when its execution is accounted for.
  abbrev pub header_of : IsServed → Header
  header_of x = record (block_of x.senders).header {
    state_root = x.state_root;
    gas_used = x.output.gas_used;
    logs_bloom = fold_blooms 0 (map R.bloom_slow x.receipts);
    receipts_root = x.receipts_root;
  }

  abbrev pub built_body : IsServed → BlockBody R
  built_body x = record {
    transactions = txs;
    ommers = ommers;
    withdrawals = (block_of x.senders).withdrawals;
    requests = (block_of x.senders).requests;
  }

module _ {ℓ κ} {E : Type κ} {A : Type ℓ} where
  ok_or-ok : (o : Option A) (e : E) (a : A) → ok_or o e ≡ ok a → o ≡ some a
  ok_or-ok none e a h = cc
  ok_or-ok (some b) e a h = cc

  unwrap-ok : (o : Option A) (a : A) → unwrap {E = E} o ≡ ok a → o ≡ some a
  unwrap-ok none a h = cc
  unwrap-ok (some b) a h = cc

module _ (R : Reth) where
  blooms-some :
      (receipts : List R.Receipt) → blooms R (map some receipts) ≡ ok (map R.bloom_slow receipts)
  unfolding blooms
  blooms-some [] = refl
  blooms-some (r ∷ rs) = rw (blooms-some rs) refl

  blooms-ok :
      (rs : List (Option R.Receipt)) (bs : List ℕ)
      → blooms R rs ≡ ok bs
      → (receipts : List R.Receipt) × (rs ≡ map some receipts)
  unfolding blooms
  blooms-ok [] bs e = ([], refl)
  blooms-ok (none ∷ rs) bs e = cc
  blooms-ok (some r ∷ rs) bs e =
      let (rest, is, _) = bind_returned (blooms R rs) (λ rest. ok (R.bloom_slow r ∷ rest)) bs e in
      let (receipts, same) = blooms-ok rs rest is in (r ∷ receipts, ap (λ l. some r ∷ l) same)

  -- What is found in the outcome of an execution, if the rest returns.
  accounted :
      {A P : Type 0} (r : Run P ℕ) (f : P → R.ExecutionError) (rs : List (Option R.Receipt))
      (o : Option ℕ) (k : ℕ → List ℕ → ℕ → Run R.ExecutionError A) (a : A)
      → (map_err f r >>= λ root.
          blooms R rs >>= λ bs. unwrap o >>= λ receipts_root. k root bs receipts_root)
        ≡ ok a
      → (root : ℕ) × (receipts : List R.Receipt) × (receipts_root : ℕ) × (r ≡ ok root)
        × (rs ≡ map some receipts)
        × (o ≡ some receipts_root)
  accounted r f rs o k a e =
      let (root, rooted, e₁) =
        bind_returned (map_err f r)
          (λ root. blooms R rs >>= λ bs. unwrap o >>= λ receipts_root. k root bs receipts_root) a
          e in
      let (bs, bloomed, e₂) =
        bind_returned (blooms R rs) (λ bs. unwrap o >>= λ receipts_root. k root bs receipts_root) a
          e₁ in
      let (receipts_root, found, e₃) =
        bind_returned (unwrap o) (λ receipts_root. k root bs receipts_root) a e₂ in
      let (receipts, present) = blooms-ok rs bs bloomed in
      (
        root,
        receipts,
        receipts_root,
        map_err-ok f r root rooted,
        present,
        unwrap-ok o receipts_root found,
      )

module _ {R : Reth} (env : Environment R) (s : StorageInner R) (txs : List R.Transaction)
    (ommers : List Header) where
  insert_prepared-Returns :
      (r : Run R.ExecutionError (Header × BlockBody R × R.Outcome))
      → Returns (insert_prepared s r).0
      → Returns r
  unfolding insert_prepared
  insert_prepared-Returns (ok x) h = (x, refl)
  insert_prepared-Returns (err x) (a, e) = cc
  insert_prepared-Returns panic (a, e) = cc

  prepare-IsServed : Returns (prepare env s txs ommers) → IsServed env s txs ommers
  unfolding prepare complete
  prepare-IsServed (x, e) =
      let (senders, recovered, e₁) = bind_returned (ok_or (R.recover_signers txs) _) _ x e in
      let (database, latest, e₂) = bind_returned (map_err _ env.latest) _ x e₁ in
      let (output, executed, e₃) = bind_returned (env.execute database _ 0) _ x e₂ in
      let o = outcome_of env s txs ommers senders output in
      let n = (block_of env s txs ommers senders).header.number in
      let (root, receipts, receipts_root, rooted, present, receipts_rooted) =
        accounted R (R.state_root database (R.outcome_state o)) R.provider_error
          (R.receipts_by_block o n) (R.receipts_root_slow o n) _ x e₃ in
      record {
        senders = senders;
        database = database;
        output = output;
        state_root = root;
        receipts = receipts;
        receipts_root = receipts_root;
        recovered = ok_or-ok (R.recover_signers txs) _ senders recovered;
        latest = map_err-ok R.latest_block_error env.latest database latest;
        executed = executed;
        rooted = rooted;
        present = present;
        receipts_rooted = receipts_rooted;
      }

  IsServed-prepare :
      (x : IsServed env s txs ommers)
      → prepare env s txs ommers
        ≡ ok (
          header_of env s txs ommers x,
          built_body env s txs ommers x,
          outcome_of env s txs ommers x.senders x.output,
        )
  unfolding prepare complete
  IsServed-prepare x =
      rw (x.recovered, x.latest, x.executed, x.rooted, x.present, blooms-some, x.receipts_rooted)
        refl

  -- A call returns exactly if the services answer on the block that it builds: the senders of the
  -- transactions are recovered, the provider has a state, this block executes on it, and the outcome
  -- has a state root, no missing receipt and a receipts root. Then the block that is inserted into the
  -- storage has the header of the template, with that state root and receipts root, the gas used and
  -- the blooms of the receipts, and the given transactions and ommers for its body; and the header and
  -- the outcome are returned, with the hash of the new best block.
  pub build_and_execute-IsServed :
      (Returns (build_and_execute env s txs ommers).0 ↔ IsServed env s txs ommers)
      × ((x : IsServed env s txs ommers)
          → let header = header_of env s txs ommers x in
            let t = insert_new_block s header (built_body env s txs ommers x) in
            build_and_execute env s txs ommers ≡ (
              ok (
                record { header = header; hash = t.best_hash },
                outcome_of env s txs ommers x.senders x.output,
              ),
              t,
            ))
  unfolding build_and_execute
  build_and_execute-IsServed =
      let builds = λ (x : IsServed env s txs ommers). ap (insert_prepared s) (IsServed-prepare x) in
      (
        (
          (λ h. prepare-IsServed (insert_prepared-Returns (prepare env s txs ommers) h)),
          λ x. (
            _,
            ap (λ (r : Run R.ExecutionError (SealedHeader × R.Outcome) × StorageInner R). r.0)
                (builds x),
          ),
        ),
        builds,
      )
