-- ===== src/Prelude/Actions.antt =====
-- Handlers that change a state and may fail: what was done before an error stays done.
use mathlib.Core.Bool.{Bool, true, false}
use mathlib.Core.Option.{Option, none, some}
use webtop_manager.Prelude.Results.{Result, ok, err}

abbrev pub Action : Type 0 → Type 0 → Type 0 → Type 0
Action S E A = S → Result E A × S

abbrev pub continue : {S E A B : Type 0} → Result E A × S → (A → Action S E B) → Result E B × S
continue r f = elim r.0 [ ok a ↦ f a r.1 | err e ↦ (err e, r.1) ]

infixl 5 ◌>>=◌ ◌>>◌
abbrev pub ◌>>=◌ : {S E A B : Type 0} → Action S E A → (A → Action S E B) → Action S E B
◌>>=◌ m f s = continue (m s) f

abbrev pub ◌>>◌ : {S E A B : Type 0} → Action S E A → Action S E B → Action S E B
m >> k = m >>= λ _. k

abbrev pub pure : {S E A : Type 0} → A → Action S E A
pure a s = (ok a, s)

abbrev pub raise : {S E A : Type 0} → E → Action S E A
raise e s = (err e, s)

abbrev pub lift : {S E A : Type 0} → Result E A → Action S E A
lift r s = (r, s)

abbrev pub gets : {S E A : Type 0} → (S → A) → Action S E A
gets f s = (ok (f s), s)

abbrev pub modify : {S E : Type 0} → (S → S) → Action S E (Unit {0})
modify f s = (ok tt, f s)

-- `if test { return Err(e); }`.
abbrev pub reject_if : {S E : Type 0} → Bool → E → Action S E (Unit {0})
reject_if true e = raise e
reject_if false e = pure tt

-- `option.ok_or(e)?`.
abbrev pub ok_or : {S E A : Type 0} → Option A → E → Action S E A
ok_or none e = raise e
ok_or (some a) e = pure a

-- `.map_err(f)?`.
abbrev pub map_err : {S E F A : Type 0} → (E → F) → Action S E A → Action S F A
map_err f m s = let r = m s in elim r.0 [ ok a ↦ (ok a, r.1) | err e ↦ (err (f e), r.1) ]

-- `let _ = action;`: an error is dropped.
abbrev pub ignore : {S E F A : Type 0} → Action S E A → Action S F (Unit {0})
ignore m s = (ok tt, (m s).1)

-- The result of an action as a value.
abbrev pub attempt : {S E F A : Type 0} → Action S E A → Action S F (Result E A)
attempt m s = let r = m s in (ok r.0, r.1)

-- `if test { action }`.
abbrev pub when : {S E : Type 0} → Bool → Action S E (Unit {0}) → Action S E (Unit {0})
when true m = m
when false m = pure tt

-- `match action { Ok(a) => a, Err(e) => { cleanup; return Err(e) } }`.
abbrev pub or_clean : {S E A : Type 0} → Action S E A → (S → S) → Action S E A
or_clean m cleanup s = let r = m s in elim r.0 [ ok a ↦ (ok a, r.1) | err e ↦ (err e, cleanup r.1) ]
