-- ===== src/Cmd/Pool/Tracking.antt =====
-- Every job that was fed waits for a worker, is with one, or is finished.
use diffmantic.Base.{
  ℕ, ◌≡◌, refl, subst, ap, ◌∙◌, arith, true, ◌||◌, ◌⊎◌, inl, inr, List, [], ◌∷◌, ◌++◌, ◌==◌,
}
use diffmantic.Engine.LineDiff.Marking.{mem}
use diffmantic.Cmd.Pool.{
  queued, PoolState, start_pool, Step, take_permit, send_work, send_in_flight, start_job,
  finish_job, receive, print_job, release_permit, cancel, Reachable, started, after_step,
}
use diffmantic.Cmd.Pool.Order.{held}

mem-middle :
    (k j : ℕ) (before after : List ℕ)
    → mem k (before ++ j ∷ after) ≡ (k == j || mem k (before ++ after))
mem-middle k j [] after = refl
mem-middle k j (b ∷ before) after = ground (arith, mem-middle k j before after)

mem-last : (k : ℕ) (xs : List ℕ) → mem k (xs ++ k ∷ []) ≡ true
mem-last k [] = ground arith
mem-last k (x ∷ xs) = ground (arith, mem-last k xs)

mem-append_left : (k : ℕ) (xs ys : List ℕ) → mem k xs ≡ true → mem k (xs ++ ys) ≡ true
mem-append_left k [] ys h = absurd (ground arith)
mem-append_left k (x ∷ xs) ys h = ground (arith, mem-append_left k xs ys)

-- The job waits for a worker, is with one, or is finished.
abbrev pub IsKnown : PoolState → ℕ → Type 0
IsKnown s k = (mem k s.work_queue ≡ true) ⊎ ((mem k s.running ≡ true) ⊎ (mem k s.finished ≡ true))

abbrev pub AllKnown : PoolState → List ℕ → Type 0
AllKnown s [] = Unit {0}
AllKnown s (j ∷ js) = IsKnown s j × AllKnown s js

pub record IsTracked (s : PoolState) : Type 0 where
  pub current : AllKnown s (held s.current)
  pub flight : AllKnown s s.in_flight
  pub fed : s.feeder ≡ queued → IsKnown s s.next

AllKnown-step :
    (s t : PoolState) (js : List ℕ)
    → ((k : ℕ) → IsKnown s k → IsKnown t k)
    → AllKnown s js
    → AllKnown t js
AllKnown-step s t [] f a = tt
AllKnown-step s t (j ∷ js) f (h, a) = (f j h, AllKnown-step s t js f a)

AllKnown-append :
    (s : PoolState) (js : List ℕ) (k : ℕ) → AllKnown s js → IsKnown s k → AllKnown s (js ++ k ∷ [])
AllKnown-append s [] k a h = (h, tt)
AllKnown-append s (j ∷ js) k (p, a) h = (p, AllKnown-append s js k a h)

module _ (jobs workers : ℕ) where
  Step-IsKnown : (s t : PoolState) → Step jobs workers s t → (k : ℕ) → IsKnown s k → IsKnown t k
  Step-IsKnown s t (take_permit p e h f) k known = known
  Step-IsKnown s t (send_work e h) k known = elim known [
    | inl waits ↦ inl (mem-append_left k s.work_queue (s.next ∷ []) waits)
    | inr other ↦ inr other
  ]
  Step-IsKnown s t (send_in_flight e h) k known = known
  Step-IsKnown s t (start_job j rest e h) k known =
      let work : mem k s.work_queue ≡ (k == j || mem k rest) = ap (mem k) e in ground (arith, work)
  Step-IsKnown s t (finish_job before after j e) k known =
      let running : mem k s.running ≡ (k == j || mem k (before ++ after)) =
        ap (mem k) e ∙ mem-middle k j before after in
      ground (arith, running)
  Step-IsKnown s t (receive j rest e g f) k known = known
  Step-IsKnown s t (print_job j e r f g) k known = known
  Step-IsKnown s t (release_permit e h) k known = known
  Step-IsKnown s t cancel k known = known

  Step-IsTracked : (s t : PoolState) → Step jobs workers s t → IsTracked s → IsTracked t
  Step-IsTracked s t (take_permit p e h f) v = record {
    current = v.current;
    flight = v.flight;
    fed = λ q. absurd (ground arith);
  }
  Step-IsTracked s t (send_work e h) v =
      let f = Step-IsKnown s t (send_work e h) in
      record {
        current = AllKnown-step s t (held s.current) f v.current;
        flight = AllKnown-step s t s.in_flight f v.flight;
        fed = λ q. inl (mem-last s.next s.work_queue);
      }
  Step-IsTracked s t (send_in_flight e h) v = record {
    current = AllKnown-step s t (held s.current) (λ k x. x) v.current;
    flight =
        AllKnown-append t s.in_flight s.next (AllKnown-step s t s.in_flight (λ k x. x) v.flight)
          (v.fed e);
    fed = λ q. absurd (ground arith);
  }
  Step-IsTracked s t (start_job j rest e h) v =
      let f = Step-IsKnown s t (start_job j rest e h) in
      record {
        current = AllKnown-step s t (held s.current) f v.current;
        flight = AllKnown-step s t s.in_flight f v.flight;
        fed = λ q. f s.next (v.fed q);
      }
  Step-IsTracked s t (finish_job before after j e) v =
      let f = Step-IsKnown s t (finish_job before after j e) in
      record {
        current = AllKnown-step s t (held s.current) f v.current;
        flight = AllKnown-step s t s.in_flight f v.flight;
        fed = λ q. f s.next (v.fed q);
      }
  Step-IsTracked s t (receive j rest e g f) v =
      let (known, others) = subst (AllKnown s) f v.flight in
      record {
        current = (known, tt);
        flight = AllKnown-step s t rest (λ k x. x) others;
        fed = v.fed;
      }
  Step-IsTracked s t (print_job j e r f g) v = record {
    current = tt;
    flight = AllKnown-step s t s.in_flight (λ k x. x) v.flight;
    fed = v.fed;
  }
  Step-IsTracked s t (release_permit e h) v = record {
    current = AllKnown-step s t (held s.current) (λ k x. x) v.current;
    flight = AllKnown-step s t s.in_flight (λ k x. x) v.flight;
    fed = v.fed;
  }
  Step-IsTracked s t cancel v = record {
    current = AllKnown-step s t (held s.current) (λ k x. x) v.current;
    flight = AllKnown-step s t s.in_flight (λ k x. x) v.flight;
    fed = v.fed;
  }

  pub Reachable-IsTracked : (s : PoolState) → Reachable jobs workers s → IsTracked s
  unfolding start_pool
  Reachable-IsTracked s started = record {
    current = tt;
    flight = tt;
    fed = λ q. absurd (ground arith);
  }
  Reachable-IsTracked s (after_step {s = before} r step) =
      Step-IsTracked before s step (Reachable-IsTracked before r)
