-- ===== src/BenchmarkServer/Stop.antt =====
-- `stop` of benchmark_server.cpp against a worker that has just found the queue empty.
use os_lab.Base.{ℕ, zero, suc, ◌<◌, ◌≡◌, refl, true, false, arith, ℕ_discrete}
use os_lab.BenchmarkCache.Policies.{EvictionPolicy}
use os_lab.BenchmarkServer.{
  Shared, Pc, checking, blocked, finished, parking, locking, testing, wake, joining, Move, System,
  set_pc, Step, start, Reach, here, next,
}
use os_lab.BenchmarkServer.Workers.{rests}

no_move : {i : ℕ} {m m' : Shared} {p p' : Pc} → rests p ≡ true → Move i m p m' p' → ⊥
no_move h (Move.enter e) = cc
no_move h (Move.leave e) = cc
no_move h (Move.lock e) = cc
no_move h (Move.ready e) = cc
no_move h (Move.idle e) = cc
no_move h Move.park = cc
no_move h (Move.drained e) = cc
no_move h (Move.take r rest e) = cc
no_move h (Move.nothing e k) = cc
no_move h (Move.call_get now) = cc
no_move h (Move.call_put now ok c e) = cc

-- A state in which all workers rest and the main thread joins one that waits.
no_step :
    (n i : ℕ) (s t : System)
    → s.main ≡ joining i
    → i < n
    → s.pc i ≡ blocked
    → ((j : ℕ) → j < n → rests (s.pc j) ≡ true)
    → Step n s t
    → ⊥
no_step n i s t h lt b all (Step.worker j lt' mv) = no_move (all j lt') mv
no_step n i s t h lt b all (Step.add_request r k run) = ground arith
no_step n i s t h lt b all (Step.push r k free) = ground arith
no_step n i s t h lt b all (Step.notify_one j k lt' b') = ground arith
no_step n i s t h lt b all (Step.notify_nobody k nobody) = ground arith
no_step n i s t h lt b all (Step.stop k run) = ground arith
no_step n i s t h lt b all (Step.stop_running k) = ground arith
no_step n i s t h lt b all (Step.notify_all k) = ground arith
no_step n i s t h lt b all (Step.join j k lt' f) = ground arith
no_step n i s t h lt b all (Step.joined k) = ground arith

-- Worker 0 has blocked behind `notify_all`, and the others have finished.
abbrev hung : ℕ → EvictionPolicy → System
unfolding start
hung capacity policy = record {
  mem = record (start capacity policy).mem { running = false; shutdown = true };
  pc = set_pc 3 finished (
      set_pc 2 finished (
        set_pc 1 finished (
          set_pc 0 blocked (λ i.
            wake (set_pc 0 parking (set_pc 0 testing (set_pc 0 locking (λ j. checking))) i)))));
  main = joining 0;
}

Reach-hung :
    (capacity : ℕ) (policy : EvictionPolicy) → Reach 4 capacity policy (hung capacity policy)
unfolding start ℕ_discrete
Reach-hung capacity policy =
    next
      (next
        (next
          (next
            (next
              (next
                (next
                  (next
                    (next (next here (Step.worker 0 (omega arith) (Move.enter refl)))
                      (Step.worker 0 (omega arith) (Move.lock refl)))
                    (Step.worker 0 (omega arith) (Move.idle refl)))
                  (Step.stop refl refl))
                (Step.stop_running refl))
              (Step.notify_all refl))
            (Step.worker 0 (omega arith) Move.park))
          (Step.worker 1 (omega arith) (Move.leave refl)))
        (Step.worker 2 (omega arith) (Move.leave refl)))
      (Step.worker 3 (omega arith) (Move.leave refl))

hung-rests :
    (capacity : ℕ) (policy : EvictionPolicy) (j : ℕ)
    → j < 4
    → rests ((hung capacity policy).pc j) ≡ true
unfolding ℕ_discrete hung
hung-rests capacity policy zero h = refl
hung-rests capacity policy (suc zero) h = refl
hung-rests capacity policy (suc (suc zero)) h = refl
hung-rests capacity policy (suc (suc (suc zero))) h = refl
hung-rests capacity policy (suc (suc (suc (suc j)))) h = absurd (omega arith)

-- With the four workers of the source, for any capacity and policy, a state can be reached in which
-- `stop` joins a worker that waits for a notification, and no thread can take a step but by a
-- spurious wakeup: `notify_all` came between the worker's test and its wait.
pub stop_may_hang :
    (capacity : ℕ) (policy : EvictionPolicy)
    → (s : System) × Reach 4 capacity policy s
      × (s.main ≡ joining 0)
      × (s.pc 0 ≡ blocked)
      × ((t : System) → Step 4 s t → ⊥)
unfolding ℕ_discrete hung
stop_may_hang capacity policy =
    let s = hung capacity policy in
    (
      s,
      Reach-hung capacity policy,
      refl,
      refl,
      λ t. no_step 4 0 s t refl (omega arith) refl (hung-rests capacity policy),
    )
