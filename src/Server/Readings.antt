-- ===== src/Server/Readings.antt =====
-- Where the loops of `handle_client_data` of server.cpp end, and how one follows another.
use os_lab.Base.{
  ◌≡◌, refl, sym, ap, inl, inr, Bool, true, false, some, none, Option, List, [], ◌++◌, Str,
  Bool-cases,
}
use mathlib.Core.List.{append_assoc}
use os_lab.PagedCache.{PagedCache}
use os_lab.Server.Connections.{Effect, Sent}
use os_lab.Server.Data.{Reading, left, effects_first}

-- The buffer of a connection that closes does not matter.
abbrev pub shut : Bool → Reading → Reading
shut true r = r
shut false r = record r { buffer = [] }

abbrev pub forget : Option Reading → Option Reading
forget none = none
forget (some r) = some (shut r.open_still r)

pub forget-effects_first :
    (e : List Effect) (o : Option Reading) → forget (effects_first e o) ≡ effects_first e (forget o)
forget-effects_first e none = refl
forget-effects_first e (some r) = elim (Bool-cases r.open_still) [
  | inl on ↦ rw on refl
  | inr off ↦ rw off refl
]

pub effects_first-nil : (o : Option Reading) → effects_first [] o ≡ o
effects_first-nil none = refl
effects_first-nil (some r) = refl

effects_first-append :
    (e f : List Effect) (o : Option Reading)
    → effects_first (e ++ f) o ≡ effects_first e (effects_first f o)
effects_first-append e f none = refl
effects_first-append e f (some r) =
    ap (λ l. some (record r { effects = l })) (append_assoc e f r.effects)

-- What follows a loop over messages, if it does not close the connection.
abbrev pub go_on : (Str → PagedCache → List Sent → Option Reading) → Option Reading → Option Reading
go_on rest none = none
go_on rest (some l) = elim l.open_still [
  | false ↦ some l
  | true ↦ effects_first l.effects (rest l.buffer l.cache l.sends)
]

pub go_on-effects_first :
    (rest : Str → PagedCache → List Sent → Option Reading) (e : List Effect) (o : Option Reading)
    → go_on rest (effects_first e o) ≡ effects_first e (go_on rest o)
go_on-effects_first rest e none = refl
go_on-effects_first rest e (some l) = elim (Bool-cases l.open_still) [
  | inl on ↦ rw on (effects_first-append e l.effects (rest l.buffer l.cache l.sends))
  | inr off ↦ rw off refl
]

-- A reading is what it holds, so the cases are on whether the connection is open.
abbrev pub ByOpen : (Option Reading → Type 0) → Type 0
ByOpen P =
    (open_still : Bool) (b : Str) (c : PagedCache) (sends : List Sent) (e : List Effect)
    → P (some (left open_still b c sends e))

pub by_open : (P : Option Reading → Type 0) → P none → ByOpen P → (o : Option Reading) → P o
by_open P n h none = n
by_open P n h (some l) = h l.open_still l.buffer l.cache l.sends l.effects

module _ (rest : Str → PagedCache → List Sent → Option Reading) where
  go_on-forget_left : ByOpen (λ o. forget (go_on rest o) ≡ forget (go_on rest (forget o)))
  go_on-forget_left true b c sends e = refl
  go_on-forget_left false b c sends e = refl

  pub go_on-forget : (o : Option Reading) → forget (go_on rest o) ≡ forget (go_on rest (forget o))
  go_on-forget =
      by_open (λ o. forget (go_on rest o) ≡ forget (go_on rest (forget o))) refl go_on-forget_left

  module _ (more : Str → PagedCache → List Sent → Option Reading) where
    go_on-go_on_left :
        ByOpen (λ o. go_on (λ b c sends. go_on more (rest b c sends)) o ≡ go_on more (go_on rest o))
    go_on-go_on_left true b c sends e = sym (go_on-effects_first more e (rest b c sends))
    go_on-go_on_left false b c sends e = refl

    pub go_on-go_on :
        (o : Option Reading)
        → go_on (λ b c sends. go_on more (rest b c sends)) o ≡ go_on more (go_on rest o)
    go_on-go_on =
        by_open
          (λ o. go_on (λ b c sends. go_on more (rest b c sends)) o ≡ go_on more (go_on rest o)) refl
          go_on-go_on_left
