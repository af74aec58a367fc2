-- ===== src/BenchmarkServer/Reachable.antt =====
-- What holds in each state that the threads of benchmark_server.cpp can reach.
use os_lab.Base.{
  ℕ, ◌<◌, ◌≡◌, ◌≢◌, ◌⊎◌, inl, inr, refl, sym, ap, ◌∙◌, Bool, true, false, none, List, [], ◌∷◌, ◌++◌,
  arith, ite, subst, Bool-cases, ℕ_discrete,
}
use mathlib.Core.List.{append_assoc}
use os_lab.BenchmarkCache.Policies.{EvictionPolicy}
use os_lab.BenchmarkCache.Valid
use os_lab.BenchmarkCache.Run.{create-IsValid}
use os_lab.BenchmarkServer.{
  BenchmarkRequest, Shared, Pc, locking, blocked, finished, Main, resting, pushing, notifying,
  stopping, waking, joining, stopped, Move, System, set_pc, wake, Step, Wakeup, spurious, start,
  Reach, here, next, wakeup,
}
use os_lab.BenchmarkServer.Workers.{
  rests, IsSound, Stands, move-IsSound, move-Stands, move-Stands_other, move-rests, move-shutdown,
}

abbrev pub is_down : Main → Bool
is_down resting = false
is_down (pushing r) = false
is_down notifying = false
is_down stopping = true
is_down waking = true
is_down (joining i) = true
is_down stopped = true

-- A worker that will look at the queue without being told, or a notification on its way.
abbrev pub Alert : ℕ → System → Type 0
Alert n s = (s.main ≡ notifying) ⊎ ((i : ℕ) × (i < n) × (rests (s.pc i) ≡ false))

pub record IsValid (n : ℕ) (s : System) : Type 0 where
  pub sound : IsSound s.mem
  pub stands : (i : ℕ) → Stands i (s.pc i) s.mem
  pub down : is_down s.main ≡ true → s.mem.shutdown ≡ true
  pub alert : s.mem.request_queue ≢ [] → s.mem.shutdown ≡ false → Alert n s

start-IsValid : (n capacity : ℕ) (policy : EvictionPolicy) → IsValid n (start capacity policy)
unfolding start
start-IsValid n capacity policy = record {
  sound = record { cache = create-IsValid capacity policy; fifo = refl; off = λ e. cc };
  stands = λ i. ground arith;
  down = λ e. cc;
  alert = λ d e. absurd (d refl);
}

worker-IsValid :
    (n i : ℕ) (s : System) (m : Shared) (p : Pc)
    → i < n
    → Move i s.mem (s.pc i) m p
    → IsValid n s
    → IsValid n (record s { mem = m; pc = set_pc i p s.pc })
worker-IsValid n i s m p lt mv v = record {
  sound = move-IsSound mv v.sound;
  stands = λ j. elim (ℕ_discrete j i) as (λ d. Stands j (ite d p (s.pc j)) m) [
    | yes e ↦ subst (λ k. Stands k p m) (sym e) (move-Stands mv v.sound (v.stands i))
    | no d ↦ move-Stands_other mv d (v.stands i) (v.stands j)
  ];
  down = λ e. move-shutdown mv ∙ v.down e;
  alert = λ d e. elim (Bool-cases (rests p)) [
    | inr busy ↦ inr (i, lt, ground arith)
    | inl still ↦
        absurd (elim (move-rests mv v.sound (v.stands i) still) [ inl nil ↦ d nil | inr off ↦ cc ])
  ];
}

-- A blocked worker that is woken.
woken-Stands :
    (s : System) (i : ℕ)
    → s.pc i ≡ blocked
    → ((j : ℕ) → Stands j (s.pc j) s.mem)
    → (j : ℕ) → Stands j (set_pc i locking s.pc j) s.mem
woken-Stands s i h v j = elim (ℕ_discrete j i) as (λ d. Stands j (ite d locking (s.pc j)) s.mem) [
  | yes e ↦ ground arith
  | no d ↦ v j
]

-- While no worker has the mutex, the queue may grow.
push-Stands :
    (i : ℕ) (p : Pc) (m : Shared) (q added : List BenchmarkRequest)
    → m.holder ≡ none
    → Stands i p m
    → Stands i p (record m { request_queue = q; added = added })
push-Stands i p m q added h t = ground arith

wake-Stands : (i : ℕ) (p : Pc) (m : Shared) → Stands i p m → Stands i (wake p) m
wake-Stands i blocked m t = ground arith
wake-Stands i p m t = t

rests-cases : (p : Pc) → rests p ≡ true → (p ≡ blocked) ⊎ (p ≡ finished)
rests-cases blocked h = inl refl
rests-cases finished h = inr refl
rests-cases p h = cc

nobody_rests :
    (n : ℕ) (s : System)
    → 0 < n
    → IsValid n s
    → ((i : ℕ) → i < n → s.pc i ≢ blocked)
    → s.mem.shutdown ≡ false
    → rests (s.pc 0) ≡ false
nobody_rests n s pos v nobody e = elim (Bool-cases (rests (s.pc 0))) [
  | inr busy ↦ busy
  | inl still ↦ elim (rests-cases (s.pc 0) still) [
    | inl b ↦ absurd (nobody 0 pos b)
    | inr f ↦ ground (arith, (v.stands 0).ended f)
  ]
]

step-IsValid : (n : ℕ) {s t : System} → 0 < n → Step n s t → IsValid n s → IsValid n t
step-IsValid n {s} pos (Step.worker i {m} {p} lt mv) v = worker-IsValid n i s m p lt mv v
step-IsValid n {s} pos (Step.add_request r h run) v = record {
  sound = v.sound;
  stands = v.stands;
  down = λ e. cc;
  alert = λ d e. elim (v.alert d e) [ inl k ↦ absurd (ground arith) | inr w ↦ inr w ];
}
step-IsValid n {s} pos (Step.push r h free) v = record {
  sound = record {
    cache = v.sound.cache;
    fifo =
        ap (λ q. q ++ r ∷ []) v.sound.fifo ∙ append_assoc s.mem.taken s.mem.request_queue (r ∷ []);
    off = v.sound.off;
  };
  stands = λ i.
      push-Stands i (s.pc i) s.mem (s.mem.request_queue ++ r ∷ []) (s.mem.added ++ r ∷ []) free
        (v.stands i);
  down = λ e. cc;
  alert = λ d e. inl refl;
}
step-IsValid n {s} pos (Step.notify_one i h lt b) v = record {
  sound = v.sound;
  stands = woken-Stands s i b v.stands;
  down = λ e. cc;
  alert = λ d e. inr (i, lt, ground arith);
}
step-IsValid n {s} pos (Step.notify_nobody h nobody) v = record {
  sound = v.sound;
  stands = v.stands;
  down = λ e. cc;
  alert = λ d e. inr (0, pos, nobody_rests n s pos v nobody e);
}
step-IsValid n {s} pos (Step.stop h run) v = record {
  sound = record { cache = v.sound.cache; fifo = v.sound.fifo; off = λ e. refl };
  stands = λ i. record { held = (v.stands i).held; idle = (v.stands i).idle; ended = λ e. refl };
  down = λ e. refl;
  alert = λ d e. cc;
}
step-IsValid n {s} pos (Step.stop_running h) v = record {
  sound = record { cache = v.sound.cache; fifo = v.sound.fifo; off = λ e. v.down (ground arith) };
  stands = λ i. record {
    held = (v.stands i).held;
    idle = (v.stands i).idle;
    ended = (v.stands i).ended;
  };
  down = λ e. v.down (ground arith);
  alert = λ d e. absurd (ground (arith, v.down));
}
step-IsValid n {s} pos (Step.notify_all h) v = record {
  sound = v.sound;
  stands = λ i. wake-Stands i (s.pc i) s.mem (v.stands i);
  down = λ e. v.down (ground arith);
  alert = λ d e. absurd (ground (arith, v.down));
}
step-IsValid n {s} pos (Step.join i h lt f) v = record {
  sound = v.sound;
  stands = v.stands;
  down = λ e. v.down (ground arith);
  alert = λ d e. absurd (ground (arith, v.down));
}
step-IsValid n {s} pos (Step.joined h) v = record {
  sound = v.sound;
  stands = v.stands;
  down = λ e. v.down (ground arith);
  alert = λ d e. absurd (ground (arith, v.down));
}

Wakeup-IsValid : (n : ℕ) {s t : System} → Wakeup n s t → IsValid n s → IsValid n t
Wakeup-IsValid n {s} (spurious i lt b) v = record {
  sound = v.sound;
  stands = woken-Stands s i b v.stands;
  down = v.down;
  alert = λ d e. inr (i, lt, ground arith);
}

pub Reach-IsValid :
    (n capacity : ℕ) (policy : EvictionPolicy) {s : System}
    → 0 < n
    → Reach n capacity policy s
    → IsValid n s
Reach-IsValid n capacity policy pos here = start-IsValid n capacity policy
Reach-IsValid n capacity policy pos (next r st) =
    step-IsValid n pos st (Reach-IsValid n capacity policy pos r)
Reach-IsValid n capacity policy pos (wakeup r st) =
    Wakeup-IsValid n st (Reach-IsValid n capacity policy pos r)

-- In each state that a positive number of workers and the main thread can reach, in any order and
-- with spurious wakeups, the cache is valid, and the requests that were taken from the queue,
-- followed by those in it, are the requests that were added, in their order: none is lost or served
-- twice.
pub Reach-fifo :
    (n capacity : ℕ) (policy : EvictionPolicy) (s : System)
    → 0 < n
    → Reach n capacity policy s
    → Valid.IsValid s.mem.cache × (s.mem.added ≡ s.mem.taken ++ s.mem.request_queue)
Reach-fifo n capacity policy s pos r =
    let v = (Reach-IsValid n capacity policy pos r).sound in (v.cache, v.fifo)

-- No notification of `add_request` is missed: in a reachable state of a positive number of workers
-- with a request in the queue, before `stop` is called, `notify_one` is still to come, or some
-- worker neither waits nor has finished.
pub Reach-Alert :
    (n capacity : ℕ) (policy : EvictionPolicy) (s : System)
    → 0 < n
    → Reach n capacity policy s
    → s.mem.request_queue ≢ []
    → s.mem.shutdown ≡ false
    → Alert n s
Reach-Alert n capacity policy s pos r = (Reach-IsValid n capacity policy pos r).alert
