-- ===== src/Main/Endings.antt =====
-- What `main` of main.cpp does with descriptors, however it ends.
use os_lab.Base.{
  ℕ, ◌≡◌, ◌⊎◌, inl, inr, refl, sym, ap, subst, ◌∙◌, Bool, true, false, List, [], ◌∷◌, ◌++◌, Str,
  map, arith, ℕ_discrete, Option-cases,
}
use os_lab.Dict.{find}
use os_lab.Pages.{total_pages}
use os_lab.PagedCache.{PagedCache}
use os_lab.Server.Connections.{
  TcpServer, tcp_server, Effect, opened_socket, sent_bytes, handle_new_connection,
}
use os_lab.Server.Data.{Event, left, run}
use os_lab.Server.Startup.{Calls, start, stop, setup_server_socket}
use os_lab.Server.Log.{
  Descriptors, set_open, AreUnused, AreOpen, AreSent, open_after, open_after-append,
  append-AreUnused, append-AreOpen,
}
use os_lab.Server.Lifecycle.{Tracks, Lawful, leave-Lawful, handle_new_connection-Lawful}
use os_lab.Server.Stopping.{nothing_open, Leaks, Tracks-Leaks, stop_lem}
use os_lab.Server.Session.{state_of, log_of, succeeded, session-Lawful, failed_start_closes_twice}
use os_lab.Main.{Port, starts, refused, unknown, port_of}
use os_lab.Main.Program.{
  Ended, exited, hangs, unspecified, Ending, halted, thrown, thrown_in_data, thrown_in_accept,
  code_of, break_off, after_ending, after_stop, after_run, after_start, run_server, main,
}

-- The descriptor of a connection that was not made.
abbrev pub leaked : Ending → Descriptors
leaked halted = nothing_open
leaked thrown = nothing_open
leaked (thrown_in_data fd buffer c out) = nothing_open
leaked (thrown_in_accept accepted fd) = set_open fd 1 nothing_open

-- The last event leaves the server with the descriptors that are open, but for what leaks.
abbrev LeaksAfter : Descriptors → Descriptors → TcpServer × List Effect → Type 0
LeaksAfter fds rest (s, log) = AreOpen fds log × Leaks (open_after fds log) rest s

AreSent-map : (fd : ℕ) (out : List Str) → AreSent fd (map (sent_bytes fd) out)
AreSent-map fd [] = tt
AreSent-map fd (text ∷ out) = (refl, AreSent-map fd out)

Lawful-LeaksAfter :
    (fds : Descriptors) (r : TcpServer × List Effect) → Lawful fds r → LeaksAfter fds nothing_open r
Lawful-LeaksAfter fds (s, log) (a, t) = (a, Tracks-Leaks (open_after fds log) s t)

break_off-Lawful :
    (fds : Descriptors) (s : TcpServer) (fd : ℕ) (buffer : Str) (c : PagedCache) (out : List Str)
    → Tracks fds s
    → Lawful fds (
        break_off fd
          (left true buffer c [] (map (sent_bytes fd) out))
          s
          (find ℕ_discrete fd s.clients))
unfolding open_after
break_off-Lawful fds s fd buffer c out t = elim (Option-cases (find ℕ_discrete fd s.clients)) [
  | inl h ↦ rw h (tt, t)
  | inr (client, h) ↦ rw h (
      leave-Lawful fds s fd client t h (left true buffer c [] (map (sent_bytes fd) out))
        (AreSent-map fd out))
]

-- A descriptor that is open, and not in the table.
open_more-Leaks :
    (fds : Descriptors) (s : TcpServer) (fd : ℕ)
    → Tracks fds s
    → fds fd ≡ 0
    → Leaks (set_open fd 1 fds) (set_open fd 1 nothing_open) s
open_more-Leaks fds s fd t free = record {
  held = λ j. ground (arith, t.held j);
  once = λ j. ground (arith, t.once j);
  distinct = t.distinct;
  own = t.own;
}

after_ending-LeaksAfter :
    (ending : Ending) (fds : Descriptors) (s : TcpServer)
    → Tracks fds s
    → AreUnused fds (after_ending ending s).1
    → LeaksAfter fds (leaked ending) (after_ending ending s)
unfolding after_ending open_after
after_ending-LeaksAfter halted fds s t u = (tt, Tracks-Leaks fds s t)
after_ending-LeaksAfter thrown fds s t u = (tt, Tracks-Leaks fds s t)
after_ending-LeaksAfter (thrown_in_data fd buffer c out) fds s t u =
    Lawful-LeaksAfter fds (after_ending (thrown_in_data fd buffer c out) s)
      (break_off-Lawful fds s fd buffer c out t)
after_ending-LeaksAfter (thrown_in_accept accepted fd) fds s t u =
    let (s', log) = handle_new_connection accepted s in
    let (u₁, u₂) = append-AreUnused fds log (opened_socket fd ∷ []) u in
    let (a, t') = handle_new_connection-Lawful accepted fds s t u₁ in
    (
      append-AreOpen fds log (opened_socket fd ∷ []) a tt,
      subst (λ f. Leaks f (set_open fd 1 nothing_open) s')
          (sym (open_after-append fds log (opened_socket fd ∷ [])))
          (open_more-Leaks (open_after fds log) s' fd t' u₂.0),
    )

-- What the code of a program says about its descriptors.
abbrev pub Says : Ending → Ended → Type 0
Says ending hangs = Unit
Says ending unspecified = Unit
Says ending (exited code effects) =
    AreUnused nothing_open effects
    → ((code ≡ code_of ending)
        × (AreOpen nothing_open effects
            × ((fd : ℕ) → open_after nothing_open effects fd ≡ leaked ending fd)))
      ⊎ ((code ≡ 1) × ((effects ≡ []) ⊎ ¬ AreOpen nothing_open effects))

-- Behind the events, the last event and `stop` follow.
ended_lem :
    (ending : Ending) (s : TcpServer) (before : List Effect)
    → (AreUnused nothing_open before → Lawful nothing_open (s, before))
    → let (s', last) = after_ending ending s in
      let whole = (before ++ last) ++ (stop s').1 in
      AreUnused nothing_open whole
      → AreOpen nothing_open whole
        × ((fd : ℕ) → open_after nothing_open whole fd ≡ leaked ending fd)
ended_lem ending s before lawful u =
    let s' = (after_ending ending s).0 in
    let last = (after_ending ending s).1 in
    let (u₁, u₂) = append-AreUnused nothing_open (before ++ last) (stop s').1 u in
    let (u₃, u₄) = append-AreUnused nothing_open before last u₁ in
    let (a, t) = lawful u₃ in
    let fds = open_after nothing_open before in
    let (b, l) = after_ending-LeaksAfter ending fds s t u₄ in
    let both = open_after-append nothing_open before last in
    let (c, closed) =
      stop_lem (open_after nothing_open (before ++ last)) (leaked ending) s'
        (subst (λ f. Leaks f (leaked ending) s') (sym both) l) in
    (
      append-AreOpen nothing_open (before ++ last) (stop s').1
          (append-AreOpen nothing_open before last a b) c,
      λ fd.
          ap (λ f. f fd) (open_after-append nothing_open (before ++ last) (stop s').1) ∙ closed fd,
    )

-- The end of a program whose server runs.
after_run-Says :
    (port : ℕ) (calls : Calls) (events : List Event) (ending : Ending)
    → let r = start calls port (tcp_server total_pages) in
      succeeded r ≡ true → Says ending (after_run ending (log_of r) (run events (state_of r)))
after_run-Says port calls events ending ok =
    let r = start calls port (tcp_server total_pages) in
    elim (Option-cases (run events (state_of r))) [
      | inl waits ↦ rw waits tt
      | inr ((s, log), ran) ↦ rw ran (λ u. inl (
        refl,
        ended_lem ending s (log_of r ++ log)
            (session-Lawful total_pages port calls events s log ok ran) u,
      ))
    ]

-- A start that fails.
failed-Says :
    (port : ℕ) (calls : Calls) (ending : Ending)
    → let r = start calls port (tcp_server total_pages) in
      succeeded r ≡ false → Says ending (after_stop 1 (log_of r) (state_of r))
unfolding start setup_server_socket stop tcp_server
failed-Says port calls ending failed = elim (Option-cases calls.socket) [
  | inl no_socket ↦ rw (start, setup_server_socket, no_socket) (λ u. inr (refl, inl refl))
  | inr (fd, e) ↦
      λ u. inr (refl, inr (failed_start_closes_twice total_pages port fd calls e failed))
]

after_start-cases :
    (events : List Event) (ending : Ending) (r : Bool × TcpServer × List Effect)
    → (succeeded r ≡ true → Says ending (after_run ending (log_of r) (run events (state_of r))))
    → (succeeded r ≡ false → Says ending (after_stop 1 (log_of r) (state_of r)))
    → Says ending (after_start events ending r)
after_start-cases events ending (true, s, log) ran failed = ran refl
after_start-cases events ending (false, s, log) ran failed = failed refl

run_server-Says :
    (constructed : Bool) (calls : Calls) (events : List Event) (ending : Ending) (port : ℕ)
    → Says ending (run_server constructed calls events ending port)
run_server-Says false calls events ending port = λ u. inr (refl, inl refl)
run_server-Says true calls events ending port =
    after_start-cases events ending (start calls port (tcp_server total_pages))
      (after_run-Says port calls events ending) (failed-Says port calls ending)

main-cases :
    (o : Port) (constructed : Bool) (calls : Calls) (events : List Event) (ending : Ending)
    → Says ending (elim o [
      | refused ↦ exited 1 []
      | unknown ↦ unspecified
      | starts port ↦ run_server constructed calls events ending port
    ])
main-cases refused constructed calls events ending = λ u. inr (refl, inl refl)
main-cases unknown constructed calls events ending = tt
main-cases (starts port) constructed calls events ending =
    run_server-Says constructed calls events ending port

-- If the program ends with a code, and the system gave only descriptors that were not open, then it
-- closed and wrote to open descriptors only, and left none open but that of a connection that an
-- exception kept it from making, where the code is 0 if no exception ended its run and else 1; or
-- the code is 1, and it made no descriptor at all, or closed one that was not open, which is what a
-- failed start does.
pub main_closes_all :
    (args : List Str) (constructed : Bool) (calls : Calls) (events : List Event) (ending : Ending)
    (code : ℕ) (effects : List Effect)
    → main args constructed calls events ending ≡ exited code effects
    → AreUnused nothing_open effects
    → ((code ≡ code_of ending)
        × (AreOpen nothing_open effects
            × ((fd : ℕ) → open_after nothing_open effects fd ≡ leaked ending fd)))
      ⊎ ((code ≡ 1) × ((effects ≡ []) ⊎ ¬ AreOpen nothing_open effects))
unfolding main
main_closes_all args constructed calls events ending code effects h =
    subst (Says ending) h (main-cases (port_of args) constructed calls events ending)
