-- ===== src/Cmd/Pool/Examples.antt =====
-- One job from its permit to its output.
use diffmantic.Base.{ℕ, ◌≤◌, ◌<◌, ◌≡◌, refl, false, ◌⊎◌, inr, arith, List, [], ◌∷◌, ◌++◌, length}
use diffmantic.Cmd.Pool.{
  PoolState, max_in_flight, start_pool, take_permit, send_work, send_in_flight, start_job,
  finish_job, receive, print_job, release_permit, Reachable, started, after_step,
}
use diffmantic.Cmd.Pool.Progress.{CanStep, pool_progress}
use diffmantic.Cmd.Pool.Order.{first_jobs, AllIn, printed_in_order}

-- The first of two jobs is printed, the second not yet fed.
abbrev one_printed : PoolState
one_printed = record (start_pool 2 4) { next = 1; finished = 0 ∷ []; printed = 0 ∷ [] }

one_printed-Reachable : Reachable 2 4 one_printed
unfolding start_pool
one_printed-Reachable =
    let r0 : Reachable 2 4 (start_pool 2 4) = started in
    let r1 = after_step r0 (take_permit 1 refl (omega arith) refl) in
    let r2 = after_step r1 (send_work refl (omega arith)) in
    let r3 = after_step r2 (send_in_flight refl (omega arith)) in
    let r4 = after_step r3 (start_job 0 [] refl (omega arith)) in
    let r5 = after_step r4 (finish_job [] [] 0 refl) in
    let r6 = after_step r5 (receive 0 [] refl refl refl) in
    let r7 = after_step r6 (print_job 0 refl refl refl refl) in
    after_step r7 (release_permit refl (omega arith))

printed_in_order_example :
    (rest : List ℕ) × (((0 ∷ []) ++ rest ≡ first_jobs 1)
      × AllIn (0 ∷ []) (0 ∷ [])
      × (length rest ≤ max_in_flight 2 4))
printed_in_order_example = printed_in_order 2 4 one_printed one_printed-Reachable

pool_progress_example :
    CanStep 2 4 one_printed
    × ((one_printed.releasing ≡ false) ⊎ (one_printed.permits < max_in_flight 2 4))
unfolding start_pool
pool_progress_example =
    pool_progress 2 4 one_printed (omega arith) one_printed-Reachable refl (inr (omega arith))
