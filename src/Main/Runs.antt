-- ===== src/Main/Runs.antt =====
-- What a run of src/main.rs comes to.
use rem_poc.Prelude.{ℕ, ◌≡◌, ◌↔◌, refl, ap, List, [], ◌∷◌, map, length, arith}
use rem_poc.Prelude.Run.{Run, ok, err, panic, Returns, ◌>>=◌}
use rem_poc.Reth.{Reth}
use rem_poc.Launcher.{NodeHandle}
use rem_poc.Launcher.Library.{Node}
use rem_poc.Mac.{Checked}
use rem_poc.Main.{
  Stream, ended, pending, next, Line, created, submitted, executed, Status, watching, custom_chain,
  node_config, launch, submit, watch, report, main,
}
use rem_poc.Main.Constants.{raw_tx, expected}
use rem_poc.Main.Library.{Host, KeepsDev}
use rem_poc.Main.Starts.{Starts, launch-Starts}

module _ {A : Type 0} where
  -- What a stream has brought, and whether more may come.
  abbrev pub seen : Stream A → List A
  seen ended = []
  seen pending = []
  seen (next a s) = a ∷ seen s

  abbrev pub IsOpen : Stream A → Type 0
  IsOpen ended = ⊥
  IsOpen pending = Unit
  IsOpen (next a s) = IsOpen s

module _ {R : Reth} {N : Node R} {K : Checked} (H : Host N K) where
  -- The line for a notification.
  abbrev pub line : H.Notification → Line
  line head = executed (H.tip_number head) (length (H.tip_body head))

  watch_lines : (s : Stream H.Notification) → (watch H s).1 ≡ map line (seen s)
  unfolding watch
  watch_lines ended = refl
  watch_lines pending = refl
  watch_lines (next head s) = ap (λ l. line head ∷ l) (watch_lines s)

  watch_status : (s : Stream H.Notification) → ((watch H s).0 ≡ watching) ↔ IsOpen s
  unfolding watch
  watch_status ended = (λ e. cc, λ h. absurd h)
  watch_status pending = (λ e. tt, λ h. refl)
  watch_status (next head s) = watch_status s

  submit_lem :
      (h : NodeHandle N) (hash : ℕ)
      → submit H h ≡ ok hash
      → (H.send_raw_transaction h.node.rpc_registry raw_tx ≡ ok expected) × (hash ≡ expected)
  unfolding submit
  submit_lem h hash e = ground arith

  submitted_lem :
      (h : NodeHandle N)
      → H.send_raw_transaction h.node.rpc_registry raw_tx ≡ ok expected
      → submit H h ≡ ok expected
  unfolding submit
  submitted_lem h e = rw e refl

  -- What is known of a run that is still on, from the result of the launch.
  abbrev pub IsWatching :
      Run N.Error (NodeHandle N) → Stream H.Notification → Status N.Error × List Line → Type 0
  IsWatching launched s r =
      ((r.0 ≡ watching) ↔ (
        (handle : NodeHandle N) × (launched ≡ ok handle)
        × (H.send_raw_transaction handle.node.rpc_registry raw_tx ≡ ok expected)
        × IsOpen s))
      × (r.0 ≡ watching → Returns launched × (r.1 ≡ submitted expected ∷ map line (seen s)))

  report-IsWatching :
      (launched : Run N.Error (NodeHandle N)) (s : Stream H.Notification)
      → IsWatching launched s (report H (launched >>= submit H) s)
  unfolding report
  report-IsWatching (err e) s = ((λ h. cc, λ (handle, is, sent, open_still). cc), λ h. cc)
  report-IsWatching panic s = ((λ h. cc, λ (handle, is, sent, open_still). cc), λ h. cc)
  report-IsWatching (ok handle) s = on (submit H handle) refl
    where
      on :
          (r : Run N.Error ℕ)
          → submit H handle ≡ r
          → IsWatching (ok handle) s (report H (submit H handle) s)
      on (ok hash) e =
          let (sent, same) = submit_lem handle hash e in
          rw (e, same)
            (
              (
                (λ h. (handle, refl, sent, (watch_status s).0 h)),
                λ (other, is, sent', open_still). (watch_status s).1 open_still,
              ),
              λ h. ((handle, refl), ap (λ l. submitted expected ∷ l) (watch_lines s)),
            )
      on (err x) e =
          rw e ((λ h. cc, λ (other, is, sent, open_still). cc (submitted_lem other sent)), λ h. cc)
      on panic e =
          rw e ((λ h. cc, λ (other, is, sent, open_still). cc (submitted_lem other sent)), λ h. cc)

  -- A run of the program, where its genesis can be read. Whatever happens it has spawned, in this order
  -- and from the first one on, the jobs of a node in dev mode: the chain, the consumer, the mining task,
  -- the task that handles the events, the consensus engine and the debug clients that the configuration
  -- asks for. It is still on exactly if the launch has returned a node, this has accepted the
  -- transaction and answered with its hash, and the stream of notifications has not ended. Then all of
  -- these jobs have been spawned; and it has printed that the configuration was made and the
  -- transaction submitted, and the number and the count of transactions of each block that it was
  -- notified of, in their order. A chain that was spawned has the pool of the launch context, and a
  -- consumer starts empty; and a mining task starts its life on the storage of the provider's latest header, or of the genesis header where there is none.
  -- The execution client is taken to keep in its launch context that the configuration asks for dev
  -- mode.
  pub main_lem :
      (keeps : KeepsDev H) (spec : K.ChainSpec)
      → custom_chain H ≡ ok spec
      → (notifications : Stream H.Notification)
      → let p = main H notifications in
        let launched = (launch H (node_config H spec)).0 in
        Starts H launched p.jobs
        × ((p.status ≡ watching) ↔ (
            (handle : NodeHandle N) × (launched ≡ ok handle)
            × (H.send_raw_transaction handle.node.rpc_registry raw_tx ≡ ok expected)
            × IsOpen notifications))
        × (p.status ≡ watching
            → Returns launched
              × (p.lines ≡ created ∷ submitted expected ∷ map line (seen notifications)))
  unfolding main
  main_lem keeps spec e notifications =
      let launched = (launch H (node_config H spec)).0 in
      let (still, done) = report-IsWatching launched notifications in
      rw (e, main)
        (
          launch-Starts H keeps spec,
          still,
          λ h. let (returned, lines) = done h in (returned, ap (λ l. created ∷ l) lines),
        )
