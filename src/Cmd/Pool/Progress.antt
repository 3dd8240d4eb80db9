-- ===== src/Cmd/Pool/Progress.antt =====
-- The pool never blocks before all jobs are printed.
use diffmantic.Base.{
  ℕ, zero, suc, ◌+◌, ◌-◌, ◌<◌, ◌≡◌, refl, subst, ap, arith, true, false, Bool-cases, ◌⊎◌, inl, inr,
  List, [], ◌∷◌, ◌++◌, length, length-append, Option-cases, dec_lt,
}
use diffmantic.Engine.LineDiff.Marking.{mem}
use diffmantic.Cmd.Pool.{
  Feeder, waiting, permitted, queued, PoolState, num_workers, max_in_flight, Step, take_permit,
  send_work, send_in_flight, start_job, finish_job, receive, print_job, release_permit, Reachable,
}
use diffmantic.Cmd.Pool.Order.{
  first_jobs, held, pending, unreleased, IsOrdered, Reachable-IsOrdered,
}
use diffmantic.Cmd.Pool.Tracking.{IsKnown, AllKnown, IsTracked, Reachable-IsTracked}

List-cases : (xs : List ℕ) → (xs ≡ []) ⊎ ((x : ℕ) × ((rest : List ℕ) × (xs ≡ x ∷ rest)))
List-cases [] = inl refl
List-cases (x ∷ xs) = inr (x, (xs, refl))

Feeder-cases : (f : Feeder) → (f ≡ waiting) ⊎ ((f ≡ permitted) ⊎ (f ≡ queued))
Feeder-cases waiting = inl refl
Feeder-cases permitted = inr (inl refl)
Feeder-cases queued = inr (inr refl)

module _ (jobs workers : ℕ) where
  -- A step other than the cancellation.
  abbrev pub CanStep : PoolState → Type 0
  CanStep s = (t : PoolState) × (Step jobs workers s t × (t.cancelled ≡ s.cancelled))

  module _ (s : PoolState) (some_workers : 0 < num_workers jobs workers) where
    running_moves : (j : ℕ) (rest : List ℕ) → s.running ≡ j ∷ rest → CanStep s
    running_moves j rest e = (_, (finish_job [] rest j e, refl))

    queue_moves : (j : ℕ) (rest : List ℕ) → s.work_queue ≡ j ∷ rest → CanStep s
    queue_moves j rest e = elim (List-cases s.running) [
      | inl idle ↦ (_, (start_job j rest e (omega (arith, ap length idle)), refl))
      | inr (k, (others, f)) ↦ running_moves k others f
    ]

    -- A job that is known is finished, or something moves.
    known_moves : (j : ℕ) → IsKnown s j → (mem j s.finished ≡ true) ⊎ CanStep s
    known_moves j known = elim known [
      | inl waits ↦ elim (List-cases s.work_queue) [
        | inl e ↦ absurd (ground (arith, ap (mem j) e))
        | inr (k, (others, e)) ↦ inr (queue_moves k others e)
      ]
      | inr other ↦ elim other [
        | inl runs ↦ elim (List-cases s.running) [
          | inl e ↦ absurd (ground (arith, ap (mem j) e))
          | inr (k, (others, e)) ↦ inr (running_moves k others e)
        ]
        | inr finished ↦ inl finished
      ]
    ]

    main_moves :
        IsTracked s
        → s.releasing ≡ false
        → s.cancelled ≡ false
        → 0 < length (held s.current) + length s.in_flight
        → CanStep s
    main_moves v idle live some_job = elim (Option-cases s.current) [
      | inl e ↦ elim (List-cases s.in_flight) [
        | inl f ↦ absurd (omega (arith, ap length f, ap (λ c. length (held c)) e))
        | inr (j, (rest, f)) ↦ (_, (receive j rest e idle f, refl))
      ]
      | inr (j, e) ↦
          let (known, rest) = subst (λ c. AllKnown s (held c)) e v.current in
          elim (known_moves j known) [
            | inl finished ↦ (_, (print_job j e idle finished live, refl))
            | inr moves ↦ moves
          ]
    ]

length-first_jobs : (n : ℕ) → length (first_jobs n) ≡ n
unfolding first_jobs
length-first_jobs zero = refl
length-first_jobs (suc n) =
    omega (arith, length-append (first_jobs n) (n ∷ []), length-first_jobs n)

module _ (jobs workers : ℕ) (s : PoolState) where
  -- A printed job's permit finds room in the semaphore.
  releasing_moves :
      IsOrdered (max_in_flight jobs workers) s → s.releasing ≡ true → CanStep jobs workers s
  releasing_moves o busy =
      (_, (release_permit busy (omega (arith, o.permits, ap unreleased busy)), refl))

  printing_moves :
      IsTracked s
      → IsOrdered (max_in_flight jobs workers) s
      → s.cancelled ≡ false
      → s.releasing ≡ false
      → length s.printed < jobs
      → 0 < num_workers jobs workers
      → CanStep jobs workers s
  printing_moves v o live idle unprinted some_workers =
      let fed : length s.printed + (length (held s.current) + length s.in_flight) ≡ s.next = omega (
        arith,
        ap length o.order,
        length-first_jobs s.next,
        length-append s.printed (held s.current ++ s.in_flight),
        length-append (held s.current) s.in_flight,
      ) in
      elim (Feeder-cases s.feeder) [
        | inl waits ↦ elim (dec_lt 0 s.permits) [
          | no exhausted ↦
              main_moves jobs workers s some_workers v idle live
                (omega (arith, o.permits, ap pending waits, ap unreleased idle))
          | yes free ↦ elim (dec_lt s.next jobs) [
            | yes more ↦
                let one : s.permits ≡ suc (s.permits - 1) = omega arith in
                (_, (take_permit (s.permits - 1) waits more one, refl))
            | no all ↦ main_moves jobs workers s some_workers v idle live (omega arith)
          ]
        ]
        | inr other ↦ elim other [
          | inl permitted_now ↦ elim (dec_lt (length s.work_queue) (max_in_flight jobs workers)) [
            | yes room ↦ (_, (send_work permitted_now room, refl))
            | no full ↦ elim (List-cases s.work_queue) [
              | inl e ↦ absurd (omega (arith, ap length e))
              | inr (j, (rest, e)) ↦ queue_moves jobs workers s some_workers j rest e
            ]
          ]
          | inr queued_now ↦ (
            _,
            (send_in_flight queued_now (omega (arith, o.permits, ap pending queued_now)), refl),
          )
        ]
      ]

-- With a worker, in every state that the pool reaches and that is not cancelled: while a job is not
-- printed, or the main loop sends the permit of a printed one back to the semaphore, some goroutine
-- can take a step other than the cancellation, so the channels, the semaphore's included, never
-- block all of them; and when the main loop sends a permit back, the semaphore has room for it.
pub pool_progress :
    (jobs workers : ℕ) (s : PoolState)
    → 0 < workers
    → Reachable jobs workers s
    → s.cancelled ≡ false
    → (s.releasing ≡ true) ⊎ (length s.printed < jobs)
    → CanStep jobs workers s × ((s.releasing ≡ false) ⊎ (s.permits < max_in_flight jobs workers))
pool_progress jobs workers s some_worker reachable live busy =
    let v = Reachable-IsTracked jobs workers s reachable in
    let o = Reachable-IsOrdered jobs workers s reachable in
    (
      elim (Bool-cases s.releasing) [
        | inl r ↦ releasing_moves jobs workers s o r
        | inr idle ↦ elim busy [
          | inl r ↦ absurd (ground arith)
          | inr unprinted ↦ printing_moves jobs workers s v o live idle unprinted (omega arith)
        ]
      ],
      elim (Bool-cases s.releasing) [
        | inl r ↦ inr (omega (arith, o.permits, ap unreleased r))
        | inr idle ↦ inl idle
      ],
    )
