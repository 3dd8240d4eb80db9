-- ===== src/Cmd/Pool.antt =====
-- cmd/concurrent.go: runConcurrentDiffJobs as a relation of steps. Its goroutines are the feeder, the
-- workers, the main loop, and the one that cancels; a step is one communication of one of them, so
-- a sequence of steps is an interleaving. A job is its index. What a worker computes is not in the
-- state: `finished` holds the jobs whose `done` channel is closed. A send waits while its channel is
-- full, that of the permits too: `releasing` is the main loop before `sem <- struct{}{}`.
pub mod Order
pub mod Tracking
pub mod Progress
mod Examples
use diffmantic.Base.{
  ℕ, zero, suc, ◌+◌, ◌*◌, ◌<◌, ◌≡◌, min, max, Bool, true, false, ◌||◌, Option, none, some, List, [],
  ◌∷◌, ◌++◌, length, ◌==◌,
}
use diffmantic.Engine.LineDiff.Marking.{mem}

-- Where the feeder stands: before it takes a permit, before it sends the job to the workers, before
-- it sends the job to the main loop.
pub data Feeder : Type 0 where
  waiting permitted queued : Feeder

pub record PoolState : Type 0 where
  pub feeder : Feeder
  pub next : ℕ
  pub permits : ℕ
  pub work_queue : List ℕ
  pub in_flight : List ℕ
  pub running : List ℕ
  pub finished : List ℕ
  pub current : Option ℕ
  pub releasing : Bool
  pub printed : List ℕ
  pub cancelled : Bool

abbrev pub default_max_workers : ℕ
default_max_workers = 4

-- `workers` is what `defaultWorkerCount` returns.
abbrev pub num_workers : ℕ → ℕ → ℕ
num_workers jobs workers = min jobs workers

abbrev pub max_in_flight : ℕ → ℕ → ℕ
max_in_flight jobs workers = min jobs (max (num_workers jobs workers * 4) 64)

unfoldable pub start_pool : ℕ → ℕ → PoolState
start_pool jobs workers = record {
  feeder = waiting;
  next = 0;
  permits = max_in_flight jobs workers;
  work_queue = [];
  in_flight = [];
  running = [];
  finished = [];
  current = none;
  releasing = false;
  printed = [];
  cancelled = false;
}

module _ (jobs workers : ℕ) where
  pub data Step : PoolState → PoolState → Type 0 where
    take_permit :
        {s : PoolState} (p : ℕ)
        → s.feeder ≡ waiting
        → s.next < jobs
        → s.permits ≡ suc p
        → Step s (record s { feeder = permitted; permits = p })
    send_work :
        {s : PoolState}
        → s.feeder ≡ permitted
        → length s.work_queue < max_in_flight jobs workers
        → Step s (record s { feeder = queued; work_queue = s.work_queue ++ s.next ∷ [] })
    send_in_flight :
        {s : PoolState}
        → s.feeder ≡ queued
        → length s.in_flight < max_in_flight jobs workers
        → Step s (record s {
          feeder = waiting;
          next = suc s.next;
          in_flight = s.in_flight ++ s.next ∷ [];
        })
    start_job :
        {s : PoolState} (j : ℕ) (rest : List ℕ)
        → s.work_queue ≡ j ∷ rest
        → length s.running < num_workers jobs workers
        → Step s (record s { work_queue = rest; running = j ∷ s.running })
    finish_job :
        {s : PoolState} (before after : List ℕ) (j : ℕ)
        → s.running ≡ before ++ j ∷ after
        → Step s (record s { running = before ++ after; finished = j ∷ s.finished })
    receive :
        {s : PoolState} (j : ℕ) (rest : List ℕ)
        → s.current ≡ none
        → s.releasing ≡ false
        → s.in_flight ≡ j ∷ rest
        → Step s (record s { current = some j; in_flight = rest })
    print_job :
        {s : PoolState} (j : ℕ)
        → s.current ≡ some j
        → s.releasing ≡ false
        → mem j s.finished ≡ true
        → s.cancelled ≡ false
        → Step s (record s { current = none; printed = s.printed ++ j ∷ []; releasing = true })
    release_permit :
        {s : PoolState}
        → s.releasing ≡ true
        → s.permits < max_in_flight jobs workers
        → Step s (record s { releasing = false; permits = suc s.permits })
    cancel : {s : PoolState} → Step s (record s { cancelled = true })

  pub data Reachable : PoolState → Type 0 where
    started : Reachable (start_pool jobs workers)
    after_step : {s t : PoolState} → Reachable s → Step s t → Reachable t
