-- ===== src/BenchmarkServer/Benchmark/Follows.antt =====
-- What the main thread has added to the queue of benchmark_server.cpp, and what it has still to
-- add.
use os_lab.Base.{
  ℕ, suc, ◌≡◌, refl, sym, ap, ◌∙◌, Bool, true, false, Option, none, some, List, [], ◌∷◌, ◌++◌, Str,
  arith,
}
use mathlib.Core.List.{append_assoc, append-nil}
use os_lab.BenchmarkCache.Policies.{EvictionPolicy}
use os_lab.TraceProcessor.{initialize}
use os_lab.BenchmarkServer.{
  BenchmarkRequest, Shared, Pc, Main, locking, set_pc, wake, resting, pushing, notifying, waking,
  joining, stopped, Move, System, Step, Wakeup, spurious, start,
}
use os_lab.BenchmarkServer.Reachable.{is_down}
use os_lab.BenchmarkServer.Trace.{run_trace_benchmark}
use os_lab.BenchmarkServer.Benchmark.{
  Phase, adding, waiting, printing, printed, begin, first_phase, Round, inside, woken, add_next,
  drop_next, no_more, seen_empty, print_statistics, call_stop,
}

-- Requests that are still to be added, and the one in a call of `add_request`.
abbrev pub remaining : Phase → List BenchmarkRequest
remaining (adding rs) = rs
remaining waiting = []
remaining printing = []
remaining printed = []

abbrev pub in_hand : Main → List BenchmarkRequest
in_hand (pushing r) = r ∷ []
in_hand _ = []

abbrev pub is_printed : Phase → Bool
is_printed printed = true
is_printed _ = false

abbrev pub is_printing : Phase → Bool
is_printing printing = true
is_printing _ = false

pub record Follows (all : List BenchmarkRequest) (phase : Phase) (s : System) : Type 0 where
  pub added : s.mem.added ++ in_hand s.main ++ remaining phase ≡ all
  pub up : is_printed phase ≡ false → s.mem.running ≡ true
  pub down : is_printed phase ≡ false → is_down s.main ≡ false
  pub quiet : is_printing phase ≡ true → s.mem.request_queue ≡ []
  pub rest : is_printing phase ≡ true → s.main ≡ resting

-- A step of a worker adds nothing and does not stop the server.
move-Still :
    {i : ℕ} {m m' : Shared} {p p' : Pc}
    → Move i m p m' p'
    → (m'.running ≡ m.running)
      × (m'.added ≡ m.added)
      × (m.request_queue ≡ [] → m'.request_queue ≡ [])
move-Still (Move.enter h) = (refl, refl, λ e. e)
move-Still (Move.leave h) = (refl, refl, λ e. e)
move-Still (Move.lock h) = (refl, refl, λ e. e)
move-Still (Move.ready h) = (refl, refl, λ e. e)
move-Still (Move.idle h) = (refl, refl, λ e. e)
move-Still Move.park = (refl, refl, λ e. e)
move-Still (Move.drained h) = (refl, refl, λ e. e)
move-Still (Move.take r rest h) = (refl, refl, λ e. absurd (ground (arith, sym h ∙ e)))
move-Still (Move.nothing h k) = (refl, refl, λ e. e)
move-Still (Move.call_get now) = (refl, refl, λ e. e)
move-Still (Move.call_put now ok c h) = (refl, refl, λ e. e)

module _ (n : ℕ) (all : List BenchmarkRequest) (phase : Phase) where
  -- The main thread goes on in a call that stops the server, which it makes at the end only.
  down-Follows :
      (s : System) (m : Shared) (pc : ℕ → Pc) (main : Main)
      → is_down s.main ≡ true
      → m.added ≡ s.mem.added
      → in_hand s.main ≡ in_hand main
      → Follows all phase s
      → Follows all phase (record { mem = m; pc = pc; main = main })
  down-Follows s m pc main d a e f = record {
    added = ground (arith, f.added);
    up = λ p. absurd (ground (arith, f.down p));
    down = λ p. absurd (ground (arith, f.down p));
    quiet = λ p. absurd (ground (arith, ap is_down (f.rest p)));
    rest = λ p. absurd (ground (arith, ap is_down (f.rest p)));
  }

  -- The end of a call of `add_request`.
  notified-Follows :
      (s : System) (pc : ℕ → Pc)
      → s.main ≡ notifying
      → Follows all phase s
      → Follows all phase (record { mem = s.mem; pc = pc; main = resting })
  notified-Follows s pc h f = record {
    added = ground (arith, f.added);
    up = f.up;
    down = λ p. refl;
    quiet = f.quiet;
    rest = λ p. refl;
  }

  inside-Follows :
      {s t : System}
      → Step n s t
      → (s.main ≡ resting → t.main ≡ resting)
      → Follows all phase s
      → Follows all phase t
  inside-Follows {s} (Step.worker i {m} {p} lt mv) calm f =
      let (r, a, q) = move-Still mv in
      record {
        added = ap (λ l. l ++ in_hand s.main ++ remaining phase) a ∙ f.added;
        up = λ e. r ∙ f.up e;
        down = f.down;
        quiet = λ e. q (f.quiet e);
        rest = f.rest;
      }
  inside-Follows {s} (Step.add_request r h run) calm f = absurd (ground (arith, calm h))
  inside-Follows {s} (Step.push r h free) calm f = record {
    added =
        ap (λ l. l ++ remaining phase) (append-nil (s.mem.added ++ r ∷ []))
        ∙ ap (λ main. s.mem.added ++ in_hand main ++ remaining phase) (sym h)
        ∙ f.added;
    up = f.up;
    down = λ p. refl;
    quiet = λ p. absurd (ground (arith, f.rest p));
    rest = λ p. absurd (ground (arith, f.rest p));
  }
  inside-Follows {s} (Step.notify_one i h lt b) calm f =
      notified-Follows s (set_pc i locking s.pc) h f
  inside-Follows {s} (Step.notify_nobody h nobody) calm f = notified-Follows s s.pc h f
  inside-Follows {s} (Step.stop h run) calm f = absurd (ground (arith, calm h))
  inside-Follows {s} (Step.stop_running h) calm f =
      down-Follows s (record s.mem { running = false }) s.pc waking (ap is_down h) refl
        (ap in_hand h) f
  inside-Follows {s} (Step.notify_all h) calm f =
      down-Follows s s.mem (λ i. wake (s.pc i)) (joining 0) (ap is_down h) refl (ap in_hand h) f
  inside-Follows {s} (Step.join i h lt e) calm f =
      down-Follows s s.mem s.pc (joining (suc i)) (ap is_down h) refl (ap in_hand h) f
  inside-Follows {s} (Step.joined h) calm f =
      down-Follows s s.mem s.pc stopped (ap is_down h) refl (ap in_hand h) f

  woken-Follows : {s t : System} → Wakeup n s t → Follows all phase s → Follows all phase t
  woken-Follows (spurious i lt b) f = record {
    added = f.added;
    up = f.up;
    down = f.down;
    quiet = f.quiet;
    rest = f.rest;
  }

pub round-Follows :
    (n : ℕ) (all : List BenchmarkRequest) {phase phase' : Phase} {s t : System}
    → Round n s phase phase' t
    → Follows all phase s
    → Follows all phase' t
round-Follows n all (inside {phase} st calm) f = inside-Follows n all phase st calm f
round-Follows n all (woken {phase} w) f = woken-Follows n all phase w f
round-Follows n all {s} (add_next r rs h run) f = record {
  added =
      append_assoc s.mem.added (r ∷ []) rs
      ∙ ap (λ l. l ++ r ∷ rs) (sym (append-nil s.mem.added))
      ∙ ap (λ main. s.mem.added ++ in_hand main ++ r ∷ rs) (sym h)
      ∙ f.added;
  up = f.up;
  down = λ p. refl;
  quiet = λ p. cc;
  rest = λ p. cc;
}
round-Follows n all {s} (drop_next r rs h off) f = absurd (ground (arith, f.up refl))
round-Follows n all {s} (no_more h) f = record {
  added = f.added;
  up = f.up;
  down = f.down;
  quiet = λ p. cc;
  rest = λ p. cc;
}
round-Follows n all {s} (seen_empty h free e) f = record {
  added = f.added;
  up = f.up;
  down = f.down;
  quiet = λ p. e;
  rest = λ p. h;
}
round-Follows n all {s} (print_statistics h) f = record {
  added = f.added;
  up = λ p. cc;
  down = λ p. cc;
  quiet = λ p. cc;
  rest = λ p. cc;
}
round-Follows n all {s} (call_stop h run) f = record {
  added = ap (λ l. s.mem.added ++ l ++ []) (sym (ap in_hand h)) ∙ f.added;
  up = λ p. cc;
  down = λ p. cc;
  quiet = λ p. cc;
  rest = λ p. cc;
}

pub begin-Follows :
    (capacity : ℕ) (policy : EvictionPolicy) (file : Option Str)
    → Follows (run_trace_benchmark file) (first_phase file) (begin capacity policy)
unfolding begin first_phase initialize run_trace_benchmark start
begin-Follows capacity policy none = record {
  added = refl;
  up = λ p. cc;
  down = λ p. cc;
  quiet = λ p. cc;
  rest = λ p. cc;
}
begin-Follows capacity policy (some contents) = record {
  added = refl;
  up = λ p. refl;
  down = λ p. refl;
  quiet = λ p. cc;
  rest = λ p. cc;
}
