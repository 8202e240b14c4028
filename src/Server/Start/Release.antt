-- ===== src/Server/Start/Release.antt =====
-- The resources and the connections of server_start of src/server.c at its end.
use in_mem_db.Server.Pool.{serve_round-keeps}
use in_mem_db.Server.Start.{PoolLaws}
use in_mem_db.Base.{
  ℕ, ◌+◌, ◌-◌, Bool, true, false, ◌&&◌, Option, none, some, List, [], ◌∷◌, Bytes, ◌≡◌, ◌⊎◌, inl,
  inr, ◌∙◌, ap, refl, arith, length, All, Bool-cases, Option-cases, map, subst, if◌then◌else◌, ◌++◌,
  sym, append-nil, append_assoc,
}
use in_mem_db.World.{World}
use in_mem_db.WorkerPool.Queue.Cells.{IsQueue}
use in_mem_db.WorkerPool.Life.{Resource, descriptor, release, Answers, WorkerPool}
use in_mem_db.WorkerPool.Life.Balance.{
  acquired, worker_pool_init-acquired, worker_pool_destroy-acquired, ==-refl,
}
use in_mem_db.Server.{
  strchr, Client, Output, Serving, reset, hang_up, dismiss, serve_round, max_clients, buffer_size,
}
use in_mem_db.Server.Buffer.{reset-fd}
use in_mem_db.Server.Slots.{
  IsKept, IsAbsent, IsUnique, taken, slots_of, taken_in, amount, amount-append,
}
use in_mem_db.Server.Table.{IsServing}
use in_mem_db.Server.Rounds.{Keeps, IsShort, serve_round-Keeps}
use in_mem_db.Server.Start.{
  Preparation, Selected, interrupted, failed, round, quiet, leave, close_all, Workers, serve_all,
  shut_down, server_start,
}

-- The arrays, as they are declared: 16 slots, 1024 bytes each, with any content.
abbrev pub IsStack : List Client → Type 0
IsStack stack = (length stack ≡ max_clients) × All (λ c. length c.buffer ≡ buffer_size) stack

-- The descriptors of the connections of the rounds before `select` fails, and whether it does.
abbrev pub connections : List Selected → List ℕ
connections [] = []
connections (interrupted ∷ selected) = connections selected
connections (failed ∷ selected) = []
connections (round ready ∷ selected) = taken_in ready.connection ++ connections selected

abbrev pub ends : List Selected → Bool
ends [] = false
ends (interrupted ∷ selected) = ends selected
ends (failed ∷ selected) = true
ends (round ready ∷ selected) = ends selected

close_all-closed :
    (x : ℕ) (clients : List Client) (out : Output)
    → amount x (close_all clients out).closed ≡ slots_of x clients + amount x out.closed
close_all-closed x [] out = omega arith
close_all-closed x (c ∷ clients) out = elim (Option-cases c.fd) [
  | inl free ↦ rw free (close_all-closed x clients out ∙ omega arith)
  | inr (fd, there) ↦ rw there (
      close_all-closed x clients (hang_up fd out)
      ∙ omega (arith, amount-append x out.closed (fd ∷ [])))
]

reset-fresh :
    (fd : Option ℕ) (n : ℕ) (buffer : Bytes)
    → length buffer ≡ buffer_size
    → IsKept (reset none (record { fd = fd; buffer = buffer; length = n }))
unfolding reset strchr
reset-fresh fd n [] h = absurd (omega (arith, h))
reset-fresh fd n (c ∷ buffer) h = record {
  text = [];
  holds = record { junk = buffer; shape = refl; size = omega (arith, h); filled = refl };
  no_line = refl;
  same = refl;
}

-- The arrays behind the loop that clears them.
fresh-slots :
    (stack : List Client)
    → All (λ c. length c.buffer ≡ buffer_size) stack
    → All IsKept (map (reset none) stack)
      × IsUnique (map (reset none) stack)
      × (length (map (reset none) stack) ≡ length stack)
      × ((x : ℕ) → slots_of x (map (reset none) stack) ≡ 0)
fresh-slots [] h = (tt, tt, refl, λ x. refl)
fresh-slots (c ∷ stack) h =
    let (kept, unique, size, free) = fresh-slots stack h.1 in
    (
      (reset-fresh c.fd c.length c.buffer h.0, kept),
      (λ fd e. absurd (ground (arith, e, reset-fd none c)), unique),
      omega (arith, size),
      λ x. omega (arith, free x, ap (taken x) (reset-fd none c)),
    )

pub fresh-IsServing :
    (stack : List Client) → IsStack stack → IsServing [] (map (reset none) stack) quiet
fresh-IsServing stack h =
    let (kept, unique, size, free) = fresh-slots stack h.1 in
    record { kept = kept; unique = unique; size = size ∙ h.0; count = λ x. omega (arith, free x) }

release-top :
    (n : ℕ) (held : List Resource) → release (descriptor n) (descriptor n ∷ held) ≡ some held
unfolding release
release-top n held = rw (==-refl n, release)

leave-held :
    (result : Bool) (server_fd : ℕ) (out : Output) (held : List Resource)
    → leave result server_fd out (descriptor server_fd ∷ held) ≡ some (result, held, out)
leave-held result server_fd out held =
    ap
      (λ (o : Option (List Resource)). elim o [
        | none ↦ none
        | some held' ↦ some (result, held', out)
      ])
      (release-top server_fd held)

module _ {P : Type 0} (workers : Workers P) where
  -- What the rounds rely on: `recv` fills at most 1023 bytes, and `accept` returns a descriptor that no
  -- slot has.
  abbrev pub Behaves : List Selected → Serving P → Type 0
  Behaves [] s = Unit
  Behaves (interrupted ∷ selected) s = Behaves selected s
  Behaves (failed ∷ selected) s = Unit
  Behaves (round ready ∷ selected) s =
      IsShort ready
      × ((fd : ℕ) → ready.connection ≡ some fd → IsAbsent fd (dismiss ready.notified s).clients)
      × Behaves selected (serve_round workers.submit ready s)

  serve_all-Keeps :
      (I : P → Type 0)
      → PoolLaws workers I
      → (selected : List Selected) (n : List ℕ) (s : Serving P) → Keeps n s
      → I s.pool
      → Behaves selected s
      → ((ends selected ≡ false) × (serve_all workers selected s ≡ none))
        ⊎ ((ends selected ≡ true)
            × (s' : Serving P) × (serve_all workers selected s ≡ some s')
            × Keeps (n ++ connections selected) s'
            × I s'.pool)
  unfolding serve_all
  serve_all-Keeps I laws [] n s h p b = inl (refl, refl)
  serve_all-Keeps I laws (interrupted ∷ selected) n s h p b =
      serve_all-Keeps I laws selected n s h p b
  serve_all-Keeps I laws (failed ∷ selected) n s h p b =
      inr (refl, s, refl, subst (λ k. Keeps k s) (sym (append-nil n)) h, p)
  serve_all-Keeps I laws (round ready ∷ selected) n s h p b =
      elim (serve_all-Keeps I laws selected (n ++ taken_in ready.connection)
        (serve_round workers.submit ready s) (serve_round-Keeps workers.submit ready n s h b.0 b.1)
        (serve_round-keeps workers.submit I laws.submits ready s p) b.2) [
          | inl on ↦ inl on
          | inr (e, s', ran, h', p') ↦
              inr (e, s', ran, subst (λ k. Keeps k s') (append_assoc n _ _) h', p')
        ]

  shut_down-held :
      (server_fd : ℕ) (pool : WorkerPool) (held : List Resource) (s : Serving P) (w : World)
      → IsQueue (workers.settle s.pool) []
      → shut_down workers server_fd pool (acquired pool (descriptor server_fd ∷ held)) s w
        ≡ (some (true, held, close_all s.clients s.out), w)
  unfolding shut_down
  shut_down-held server_fd pool held s w settled =
      let (pool', destroyed, _) =
        worker_pool_destroy-acquired 1 (record pool { queue = workers.settle s.pool })
          (descriptor server_fd ∷ held) [] w settled (omega arith) in
      let same : record w { live = w.live - 0 } ≡ w =
        ap (λ n. record w { live = n }) (omega arith) in
      ap
        (λ (q : Option (WorkerPool × List Resource) × World). (
          elim q.0 [
            | none ↦ none
            | some (_, held') ↦ leave true server_fd (close_all s.clients s.out) held'
          ],
          q.1,
        ))
        destroyed
      ∙ ap (λ o. (o, record w { live = w.live - 0 }))
          (leave-held true server_fd (close_all s.clients s.out) held)
      ∙ ap (λ w'. (some (true, held, close_all s.clients s.out), w')) same

  -- On arrays of 16 slots of 1024 bytes with any content, server_start keeps nothing, on every
  -- path: it serves for as long as `select` does not fail; when it returns, with 1 or with 0, it
  -- holds the descriptors, locks and threads that it held before, and each descriptor has been closed
  -- as often as `accept` returned it, while none was closed if it returns 0. It relies on a pool with an invariant that holds
  -- at its beginning, that each submission keeps, and that makes the queue empty when the workers
  -- have been joined; and in each round on `recv` filling at most 1023 bytes and on `accept`
  -- returning a descriptor that no slot has.
  pub server_start-held :
      (prepared : Preparation) (answers : Answers) (selected : List Selected) (stack : List Client)
      (held : List Resource) (w : World)
      → IsStack stack
      → (I : P → Type 0) → PoolLaws workers I
      → ((pool : WorkerPool)
          → Behaves selected
              (record { clients = map (reset none) stack; pool = workers.begin pool; out = quiet }))
      → ((ends selected ≡ false)
          × (server_start workers prepared answers selected stack held w ≡ (none, w)))
        ⊎ ((result : Bool) × (out : Output) × (server_start workers prepared answers selected stack
                held w
              ≡ (some (result, held, out), w))
            × ((x : ℕ)
                → amount x out.closed ≡ amount x (if result then connections selected else [])))
  unfolding server_start
  server_start-held prepared answers selected stack held w stacked I laws behaves =
      elim (Option-cases prepared.socket) [
        | inl no_socket ↦ inr (false, quiet, rw no_socket, λ x. refl)
        | inr (server_fd, socket) ↦
            let listening =
              prepared.setsockopt && prepared.inet_pton && prepared.bind && prepared.listen in
            elim (Bool-cases listening) [
              | inr deaf ↦ inr (
                false,
                quiet,
                rw (socket, deaf) (ap (λ o. (o, w)) (leave-held false server_fd quiet held)),
                λ x. refl,
              )
              | inl ready ↦ elim (worker_pool_init-acquired answers (descriptor server_fd ∷ held)) [
                | inl (pool, no_pool) ↦ inr (
                  false,
                  quiet,
                  rw (socket, ready, no_pool)
                      (ap (λ o. (o, w)) (leave-held false server_fd quiet held)),
                  λ x. refl,
                )
                | inr (pool, started, queue, running) ↦
                    let first : Serving P = record {
                      clients = map (reset none) stack;
                      pool = workers.begin pool;
                      out = quiet;
                    } in
                    elim (serve_all-Keeps I laws selected [] first (fresh-IsServing stack stacked)
                      (laws.begins pool queue running) (behaves pool)) [
                        | inl (on, serving) ↦ inl (on, rw (socket, ready, started, serving))
                        | inr (_, s, served, h, p) ↦ inr (
                          true,
                          close_all s.clients s.out,
                          rw (socket, ready, started, served)
                              (shut_down-held server_fd pool held s w (laws.settles s.pool p)),
                          λ x. close_all-closed x s.clients s.out ∙ h.count x,
                        )
                      ]
              ]
            ]
      ]
