-- ===== src/Cmd/Pool/Order.antt =====
-- The jobs are printed in their order, and few are in memory.
use diffmantic.Base.{
  ℕ, zero, suc, ◌+◌, ◌≤◌, ◌≡◌, refl, sym, ap, ◌∙◌, arith, Bool, true, false, Option, none, some,
  List, [], ◌∷◌, ◌++◌, length, append_assoc, length-append,
}
use diffmantic.Engine.LineDiff.Marking.{mem}
use diffmantic.Cmd.Pool.{
  Feeder, waiting, permitted, queued, PoolState, max_in_flight, start_pool, Step, take_permit,
  send_work, send_in_flight, start_job, finish_job, receive, print_job, release_permit, cancel,
  Reachable, started, after_step,
}

-- The first `n` jobs.
unfoldable pub first_jobs : ℕ → List ℕ
first_jobs zero = []
first_jobs (suc n) = first_jobs n ++ n ∷ []

abbrev pub AllIn : List ℕ → List ℕ → Type 0
AllIn finished [] = Unit {0}
AllIn finished (j ∷ js) = (mem j finished ≡ true) × AllIn finished js

abbrev pub held : Option ℕ → List ℕ
held none = []
held (some j) = j ∷ []

-- A job between its permit and `inFlight`.
abbrev pub pending : Feeder → ℕ
pending waiting = 0
pending permitted = 1
pending queued = 1

-- The permit of a printed job that is not released yet.
abbrev pub unreleased : Bool → ℕ
unreleased true = 1
unreleased false = 0

pub record IsOrdered (capacity : ℕ) (s : PoolState) : Type 0 where
  -- Printed, then waited for, then in flight: all that were fed, in order.
  pub order : s.printed ++ (held s.current ++ s.in_flight) ≡ first_jobs s.next
  pub done : AllIn s.finished s.printed
  -- Every permit is free or belongs to a job in memory.
  pub permits :
      s.permits
        + pending s.feeder
        + unreleased s.releasing
        + (length (held s.current) + length s.in_flight)
      ≡ capacity

AllIn-more : (finished js : List ℕ) (k : ℕ) → AllIn finished js → AllIn (k ∷ finished) js
AllIn-more finished [] k a = tt
AllIn-more finished (j ∷ js) k (m, a) = (ground arith, AllIn-more finished js k a)

AllIn-append :
    (finished js : List ℕ) (k : ℕ)
    → AllIn finished js
    → mem k finished ≡ true
    → AllIn finished (js ++ k ∷ [])
AllIn-append finished [] k a m = (m, tt)
AllIn-append finished (j ∷ js) k (h, a) m = (h, AllIn-append finished js k a m)

module _ (jobs workers : ℕ) where
  Step-IsOrdered :
      (s t : PoolState)
      → Step jobs workers s t
      → IsOrdered (max_in_flight jobs workers) s
      → IsOrdered (max_in_flight jobs workers) t
  unfolding first_jobs
  Step-IsOrdered s t (take_permit p e h f) v = record {
    order = v.order;
    done = v.done;
    permits = omega (arith, v.permits, ap pending e, f);
  }
  Step-IsOrdered s t (send_work e h) v = record {
    order = v.order;
    done = v.done;
    permits = omega (arith, v.permits, ap pending e);
  }
  Step-IsOrdered s t (send_in_flight e h) v = record {
    order =
        ap (λ l. s.printed ++ l) (sym (append_assoc (held s.current) s.in_flight (s.next ∷ [])))
        ∙ sym (append_assoc s.printed (held s.current ++ s.in_flight) (s.next ∷ []))
        ∙ ap (λ l. l ++ s.next ∷ []) v.order;
    done = v.done;
    permits = omega (arith, v.permits, ap pending e, length-append s.in_flight (s.next ∷ []));
  }
  Step-IsOrdered s t (start_job j rest e h) v = record {
    order = v.order;
    done = v.done;
    permits = v.permits;
  }
  Step-IsOrdered s t (finish_job before after j e) v = record {
    order = v.order;
    done = AllIn-more s.finished s.printed j v.done;
    permits = v.permits;
  }
  Step-IsOrdered s t (receive j rest e g f) v = record {
    order = rw (e, f) at v.order;
    done = v.done;
    permits = omega (arith, v.permits, ap (λ c. length (held c)) e, ap length f);
  }
  Step-IsOrdered s t (print_job j e r f g) v = record {
    order = append_assoc s.printed (j ∷ []) s.in_flight ∙ (rw e at v.order);
    done = AllIn-append s.finished s.printed j v.done f;
    permits = omega (arith, v.permits, ap (λ c. length (held c)) e, ap unreleased r);
  }
  Step-IsOrdered s t (release_permit e h) v = record {
    order = v.order;
    done = v.done;
    permits = omega (arith, v.permits, ap unreleased e);
  }
  Step-IsOrdered s t cancel v = record { order = v.order; done = v.done; permits = v.permits }

  start_pool-IsOrdered : IsOrdered (max_in_flight jobs workers) (start_pool jobs workers)
  unfolding start_pool first_jobs
  start_pool-IsOrdered = record { order = refl; done = tt; permits = omega arith }

  pub Reachable-IsOrdered :
      (s : PoolState) → Reachable jobs workers s → IsOrdered (max_in_flight jobs workers) s
  Reachable-IsOrdered s started = start_pool-IsOrdered
  Reachable-IsOrdered s (after_step {s = before} r step) =
      Step-IsOrdered before s step (Reachable-IsOrdered before r)

-- However the goroutines interleave, in every state that the pool reaches: the jobs whose results are
-- printed are the first ones in their order, each finished before, and those that were fed and are
-- not printed are at most `maxInFlight`.
pub printed_in_order :
    (jobs workers : ℕ) (s : PoolState)
    → Reachable jobs workers s
    → (rest : List ℕ) × ((s.printed ++ rest ≡ first_jobs s.next)
        × AllIn s.finished s.printed
        × (length rest ≤ max_in_flight jobs workers))
printed_in_order jobs workers s reachable =
    let v = Reachable-IsOrdered jobs workers s reachable in
    (
      held s.current ++ s.in_flight,
      (v.order, v.done, omega (arith, v.permits, length-append (held s.current) s.in_flight)),
    )
