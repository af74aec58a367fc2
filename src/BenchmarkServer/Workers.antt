-- ===== src/BenchmarkServer/Workers.antt =====
-- What one step of a worker of benchmark_server.cpp keeps.
use os_lab.Base.{
  ℕ, ◌≡◌, ◌≢◌, ◌⊎◌, inl, inr, refl, sym, ap, ◌∙◌, Bool, true, false, some, some-injective, [], ◌∷◌,
  ◌++◌, arith, subst,
}
use mathlib.Core.List.{append_assoc}
use os_lab.BenchmarkCache.Valid.{IsValid}
use os_lab.BenchmarkCache.Put.{put_stores}
use os_lab.BenchmarkCache.Serve.{get_lem}
use os_lab.BenchmarkServer.{
  BenchmarkRequest, Shared, Pc, checking, locking, testing, parking, blocked, awake, getting,
  putting, finished, dummy_value, process_request, Move,
}

abbrev pub has_mutex : Pc → Bool
has_mutex checking = false
has_mutex locking = false
has_mutex testing = true
has_mutex parking = true
has_mutex blocked = false
has_mutex awake = true
has_mutex (getting r) = false
has_mutex (putting r) = false
has_mutex finished = false

-- A worker that takes no step by itself, or none at all.
abbrev pub rests : Pc → Bool
rests checking = false
rests locking = false
rests testing = false
rests parking = false
rests blocked = true
rests awake = false
rests (getting r) = false
rests (putting r) = false
rests finished = true

-- What holds of the shared state whatever the workers do.
pub record IsSound (m : Shared) : Type 0 where
  pub cache : IsValid m.cache
  pub fifo : m.added ≡ m.taken ++ m.request_queue
  pub off : m.running ≡ false → m.shutdown ≡ true

-- What holds of a worker at `p`.
pub record Stands (i : ℕ) (p : Pc) (m : Shared) : Type 0 where
  pub held : has_mutex p ≡ true → m.holder ≡ some i
  pub idle : p ≡ parking → m.request_queue ≡ []
  pub ended : p ≡ finished → m.shutdown ≡ true

process_request-awake :
    (r : BenchmarkRequest)
    → (has_mutex (process_request r) ≡ false) × (rests (process_request r) ≡ false)
unfolding process_request
process_request-awake r = ground arith

pub move-IsSound : {i : ℕ} {m m' : Shared} {p p' : Pc} → Move i m p m' p' → IsSound m → IsSound m'
move-IsSound (Move.enter h) s = s
move-IsSound (Move.leave h) s = s
move-IsSound (Move.lock h) s = ground arith
move-IsSound (Move.ready h) s = s
move-IsSound (Move.idle h) s = s
move-IsSound Move.park s = ground arith
move-IsSound (Move.drained h) s = ground arith
move-IsSound {m} (Move.take r rest h) s = record {
  cache = s.cache;
  fifo = s.fifo ∙ ap (λ q. m.taken ++ q) h ∙ sym (append_assoc m.taken (r ∷ []) rest);
  off = s.off;
}
move-IsSound (Move.nothing h k) s = ground arith
move-IsSound {m} (Move.call_get {r} now) s = record {
  cache = (get_lem r.key [] now m.cache s.cache).valid;
  fifo = s.fifo;
  off = s.off;
}
move-IsSound {m} (Move.call_put {r} now ok c h) s =
    let (c', e, stored) = put_stores r.key (dummy_value r.key) now m.cache s.cache in
    record {
      cache =
          subst IsValid (ap (λ x. x.1) (some-injective (true, c') (ok, c) (sym e ∙ h)))
            stored.valid;
      fifo = s.fifo;
      off = s.off;
    }

pub move-Stands :
    {i : ℕ} {m m' : Shared} {p p' : Pc}
    → Move i m p m' p'
    → IsSound m
    → Stands i p m
    → Stands i p' m'
move-Stands (Move.enter h) s t = ground arith
move-Stands (Move.leave h) s t = ground arith
move-Stands (Move.lock h) s t = ground arith
move-Stands (Move.ready h) s t = ground arith
move-Stands (Move.idle h) s t = ground arith
move-Stands Move.park s t = ground arith
move-Stands (Move.drained h) s t = ground arith
move-Stands (Move.take r rest h) s t = ground (arith, process_request-awake r)
move-Stands (Move.nothing h k) s t = ground arith
move-Stands (Move.call_get {r} now) s t = ground arith
move-Stands (Move.call_put {r} now ok c h) s t = ground arith

-- Another worker stands as before.
pub move-Stands_other :
    {i j : ℕ} {m m' : Shared} {p p' q : Pc}
    → Move i m p m' p'
    → j ≢ i
    → Stands i p m
    → Stands j q m
    → Stands j q m'
move-Stands_other (Move.enter h) d t u = u
move-Stands_other (Move.leave h) d t u = u
move-Stands_other {i} {j} (Move.lock h) d t u = ground arith
move-Stands_other (Move.ready h) d t u = u
move-Stands_other (Move.idle h) d t u = u
move-Stands_other {i} {j} Move.park d t u = ground arith
move-Stands_other {i} {j} (Move.drained h) d t u = ground arith
move-Stands_other {i} {j} (Move.take r rest h) d t u = ground arith
move-Stands_other {i} {j} (Move.nothing h k) d t u = ground arith
move-Stands_other (Move.call_get now) d t u = record {
  held = u.held;
  idle = u.idle;
  ended = u.ended;
}
move-Stands_other (Move.call_put now ok c h) d t u = record {
  held = u.held;
  idle = u.idle;
  ended = u.ended;
}

-- A worker that comes to rest leaves no request behind, or the server is shutting down.
pub move-rests :
    {i : ℕ} {m m' : Shared} {p p' : Pc}
    → Move i m p m' p'
    → IsSound m
    → Stands i p m
    → rests p' ≡ true
    → (m'.request_queue ≡ []) ⊎ (m'.shutdown ≡ true)
move-rests (Move.enter h) s t e = ground arith
move-rests (Move.leave h) s t e = inr (s.off h)
move-rests (Move.lock h) s t e = ground arith
move-rests (Move.ready h) s t e = ground arith
move-rests (Move.idle h) s t e = ground arith
move-rests Move.park s t e = inl (t.idle refl)
move-rests (Move.drained h) s t e = ground arith
move-rests (Move.take r rest h) s t e = ground (arith, process_request-awake r)
move-rests (Move.nothing h k) s t e = ground arith
move-rests (Move.call_get {r} now) s t e = ground arith
move-rests (Move.call_put {r} now ok c h) s t e = ground arith

pub move-shutdown :
    {i : ℕ} {m m' : Shared} {p p' : Pc} → Move i m p m' p' → m'.shutdown ≡ m.shutdown
move-shutdown (Move.enter h) = refl
move-shutdown (Move.leave h) = refl
move-shutdown (Move.lock h) = refl
move-shutdown (Move.ready h) = refl
move-shutdown (Move.idle h) = refl
move-shutdown Move.park = refl
move-shutdown (Move.drained h) = refl
move-shutdown (Move.take r rest h) = refl
move-shutdown (Move.nothing h k) = refl
move-shutdown (Move.call_get now) = refl
move-shutdown (Move.call_put now ok c h) = refl
