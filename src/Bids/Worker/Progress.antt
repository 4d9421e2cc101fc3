-- ===== src/Bids/Worker/Progress.antt =====
-- One success catches up: which messages the commits of the worker cover.
use awa_platform.Prelude.{
  ◌+◌, ◌<◌, ◌≡◌, refl, sym, ap, subst, ◌∙◌, ℕ, Bool, true, false, List, [], ◌∷◌, ◌++◌, ◌==◌, ◌&&◌,
  arith, if_split, if◌then◌else◌, ==_iff,
}
use awa_platform.Prelude.Lists.{All, All-map, All-append}
use awa_platform.Bids.Decide.{Driver}
use awa_platform.Bids.World.{World}
use awa_platform.Bids.Envelope.{Stdlib}
use awa_platform.Bids.Worker.{
  ConsumerApi, Message, process, commits, stops, commit_offsets, round, run_worker,
}

-- In one partition, the later message has the higher offset.
abbrev pub Follows : {Bytes : Type 0} → Message Bytes → Message Bytes → Type 0
Follows m n = m.partition ≡ n.partition → m.offset < n.offset

-- The messages of each partition come in the order of their offsets.
abbrev pub AreOrdered : {Bytes : Type 0} → List (Message Bytes) → Type 0
AreOrdered [] = Unit
AreOrdered (m ∷ ms) = All (Follows m) ms × AreOrdered ms

-- No shutdown signal arrives, and no commit raises.
abbrev pub AreRunning : {Bytes : Type 0} → List (Message Bytes) → Type 0
AreRunning = All λ m. (m.shutdown ≡ false) × (m.commit_fails ≡ false)

module _ {Bytes C : Type 0} (lib : Stdlib Bytes) (api : ConsumerApi C) (driver : Driver) where
  -- The position of the consumer is behind the message.
  abbrev IsPast : C → Message Bytes → Type 0
  IsPast c n = n.offset < api.position c n.partition

  IsPast-deliver :
      (n m : Message Bytes) (c : C)
      → Follows n m
      → IsPast c n
      → IsPast (api.deliver c m.partition m.offset) n
  IsPast-deliver n m c f h = rw (api.position_deliver c m.partition m.offset n.partition) (
      if_split (λ k. n.offset < k) (n.partition == m.partition) (m.offset + 1)
        (api.position c n.partition) (λ e. omega (arith, f ((==_iff n.partition m.partition).0 e)))
        (λ e. h))

  own-deliver : (m : Message Bytes) (c : C) → IsPast (api.deliver c m.partition m.offset) m
  own-deliver m c =
      rw
        (
          api.position_deliver c m.partition m.offset m.partition,
          (==_iff m.partition m.partition).1 refl,
        )
        (omega arith)

  -- Committing moves no position.
  committing :
      (b : Bool) (n m : Message Bytes) (c : C)
      → m.commit_fails ≡ false
      → IsPast c n
      → IsPast (if b then commit_offsets lib api driver m c else c) n
  committing true n m c e h = rw (e, api.position_commit c n.partition) h
  committing false n m c e h = h

  IsPast-round :
      (n m : Message Bytes) (c : C) (w : World)
      → m.commit_fails ≡ false
      → IsPast (api.deliver c m.partition m.offset) n
      → IsPast (round lib api driver m (c, w)).0 n
  unfolding round
  IsPast-round n m c w e h =
      committing (commits (process lib api driver m w).0) n m (api.deliver c m.partition m.offset) e
        h

  run_worker-next :
      (m : Message Bytes) (ms : List (Message Bytes)) (s : C × World)
      → (m.shutdown ≡ false) × (m.commit_fails ≡ false)
      → run_worker lib api driver (m ∷ ms) s
        ≡ run_worker lib api driver ms (round lib api driver m s)
  unfolding run_worker stops
  run_worker-next m ms s (e, k) =
      ap
        (λ b.
          if b
          then (api.deliver s.0 m.partition m.offset, s.1)
          else (if m.commit_fails && commits (process lib api driver m s.1).0
              then round lib api driver m s
              else run_worker lib api driver ms (round lib api driver m s)))
        e
      ∙ ap
          (λ b.
            if b && commits (process lib api driver m s.1).0
            then round lib api driver m s
            else run_worker lib api driver ms (round lib api driver m s))
          k

  IsPast-run :
      (n : Message Bytes) (ms : List (Message Bytes)) (c : C) (w : World)
      → AreRunning ms
      → All (Follows n) ms
      → IsPast c n
      → IsPast (run_worker lib api driver ms (c, w)).0 n
  unfolding run_worker
  IsPast-run n [] c w r f h = h
  IsPast-run n (m ∷ ms) c w (r, rs) (f, fs) h =
      let s = round lib api driver m (c, w) in
      subst (λ (t : C × World). IsPast t.0 n) (sym (run_worker-next m ms (c, w) r))
        (IsPast-run n ms s.0 s.1 rs fs (IsPast-round n m c w r.1 (IsPast-deliver n m c f h)))

  All-IsPast :
      (ms : List (Message Bytes)) (c : C) (w : World)
      → AreRunning ms
      → AreOrdered ms
      → All (IsPast (run_worker lib api driver ms (c, w)).0) ms
  All-IsPast [] c w r o = tt
  All-IsPast (m ∷ ms) c w (r, rs) (o, os) =
      let s = round lib api driver m (c, w) in
      subst (λ t. IsPast t.0 m × All (IsPast t.0) ms) (sym (run_worker-next m ms (c, w) r))
        (
          IsPast-run m ms s.0 s.1 rs o (IsPast-round m m c w r.1 (own-deliver m c)),
          All-IsPast ms s.0 s.1 rs os,
        )

  run_worker-append :
      (ms : List (Message Bytes)) (m : Message Bytes) (s : C × World)
      → AreRunning ms
      → (m.shutdown ≡ false) × (m.commit_fails ≡ false)
      → run_worker lib api driver (ms ++ (m ∷ [])) s
        ≡ round lib api driver m (run_worker lib api driver ms s)
  unfolding run_worker
  run_worker-append [] m s r e = run_worker-next m [] s e
  run_worker-append (n ∷ ms) m s (r, rs) e =
      run_worker-next n (ms ++ (m ∷ [])) s r
      ∙ run_worker-append ms m (round lib api driver n s) rs e
      ∙ ap (round lib api driver m) (sym (run_worker-next n ms s r))

  committed-round :
      (m : Message Bytes) (s : C × World) (q : ℕ)
      → m.commit_fails ≡ false
      → commits (process lib api driver m s.1).0 ≡ true
      → api.committed (round lib api driver m s).0 q ≡ api.position (round lib api driver m s).0 q
  unfolding round
  committed-round m (c, w) q k e = rw (e, k, api.committed_commit, api.position_commit) refl

  -- Without a shutdown, without an exception of a commit, and with each partition in the order of its
  -- offsets, the loop gets past every message, whatever the processing raises; and once the last message is processed without an exception,
  -- the committed offsets lie past all of them.
  pub one_success_commits-All :
      (ms : List (Message Bytes)) (m : Message Bytes) (c : C) (w : World)
      → AreRunning ms
      → (m.shutdown ≡ false) × (m.commit_fails ≡ false)
      → AreOrdered (ms ++ (m ∷ []))
      → commits (process lib api driver m (run_worker lib api driver ms (c, w)).1).0 ≡ true
      → let c' = (run_worker lib api driver (ms ++ (m ∷ [])) (c, w)).0 in
        All (λ (n : Message Bytes). n.offset < api.committed c' n.partition) (ms ++ (m ∷ []))
  one_success_commits-All ms m c w r e o h =
      let s = run_worker lib api driver ms (c, w) in
      let same = run_worker-append ms m (c, w) r e in
      All-map (IsPast (run_worker lib api driver (ms ++ (m ∷ [])) (c, w)).0)
        (λ (n : Message Bytes).
          n.offset
          < api.committed (run_worker lib api driver (ms ++ (m ∷ [])) (c, w)).0 n.partition)
        (ms ++ (m ∷ []))
        (λ n past.
          subst (λ k. n.offset < k)
            (ap (λ t. api.position t.0 n.partition) same
              ∙ sym (committed-round m s n.partition e.1 h)
              ∙ ap (λ t. api.committed t.0 n.partition) (sym same))
            past)
        (All-IsPast (ms ++ (m ∷ [])) c w
          (All-append (λ (n : Message Bytes). (n.shutdown ≡ false) × (n.commit_fails ≡ false)) ms
            (m ∷ []) r (e, tt))
          o)
