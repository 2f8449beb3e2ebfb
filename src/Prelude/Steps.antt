-- ===== src/Prelude/Steps.antt =====
-- What an action keeps, and how one that succeeds splits into its steps.
use webtop_manager.Prelude.Results.{Result, err, ok, Result-cases}
use webtop_manager.Prelude.Actions.{
  Action, pure, gets, lift, modify, ok_or, reject_if, when, ◌>>=◌, map_err,
}
use mathlib.Core.Path.{◌≡◌}
use mathlib.Core.Option.{Option, none, some}
use mathlib.Core.Bool.{Bool, true, false}
use webtop_manager.Prelude.Tests.{if◌then◌else◌}
use mathlib.Core.Logic.{◌⊎◌, inl, inr}
use native.Mathlib.Omega.{arith}

-- The predicate holds of the state afterwards, also after an error.
pub record Preserves {S E A : Type 0} (P : S → Type 0) (m : Action S E A) : Type 0 where
  pub keep : (s : S) → P s → P (m s).1

module _ {S : Type 0} {P : S → Type 0} where
  pub Preserves->>= :
      {E A B : Type 0} {m : Action S E A} {f : A → Action S E B}
      → Preserves P m
      → ((a : A) → Preserves P (f a))
      → Preserves P (m >>= f)
  Preserves->>= {m = m} {f = f} hm hf = record {
    keep = λ s p. elim (Result-cases (m s).0) [
      | inl (a, e) ↦ rw e ((hf a).keep (m s).1 (hm.keep s p))
      | inr (x, e) ↦ rw e (hm.keep s p)
    ];
  }

  pub Preserves-pure : {E A : Type 0} (a : A) → Preserves P (pure {S = S} {E = E} a)
  Preserves-pure a = record { keep = λ s p. p }

  pub Preserves-gets : {E A : Type 0} (f : S → A) → Preserves P (gets {E = E} f)
  Preserves-gets f = record { keep = λ s p. p }

  pub Preserves-lift : {E A : Type 0} (r : Result E A) → Preserves P (lift {S = S} r)
  Preserves-lift r = record { keep = λ s p. p }

  pub Preserves-modify :
      {E : Type 0} (f : S → S) → ((s : S) → P s → P (f s)) → Preserves P (modify {E = E} f)
  Preserves-modify f h = record { keep = h }

  pub Preserves-ok_or : {E A : Type 0} (o : Option A) (e : E) → Preserves P (ok_or {S = S} o e)
  Preserves-ok_or none e = record { keep = λ s p. p }
  Preserves-ok_or (some a) e = record { keep = λ s p. p }

  pub Preserves-reject_if : {E : Type 0} (b : Bool) (e : E) → Preserves P (reject_if {S = S} b e)
  Preserves-reject_if true e = record { keep = λ s p. p }
  Preserves-reject_if false e = record { keep = λ s p. p }

  pub Preserves-when :
      {E : Type 0} (b : Bool) {m : Action S E (Unit {0})} → Preserves P m → Preserves P (when b m)
  Preserves-when true h = h
  Preserves-when false h = record { keep = λ s p. p }

  pub Preserves-map_err :
      {E F A : Type 0} (f : E → F) {m : Action S E A} → Preserves P m → Preserves P (map_err f m)
  Preserves-map_err f {m = m} hm = record {
    keep = λ s p. elim (Result-cases (m s).0) [
      | inl (a, e) ↦ rw (map_err, e) (hm.keep s p)
      | inr (x, e) ↦ rw (map_err, e) (hm.keep s p)
    ];
  }

  pub Preserves-if :
      {E A : Type 0} (b : Bool) {m k : Action S E A}
      → Preserves P m
      → Preserves P k
      → Preserves P (if b then m else k)
  Preserves-if true hm hk = hm
  Preserves-if false hm hk = hk

module _ {S E A B : Type 0} where
  pub >>=-eq-ok :
      (m : Action S E A) (f : A → Action S E B) (s s' : S) (b : B)
      → (m >>= f) s ≡ (ok b, s')
      → (a : A) × (t : S) × (m s ≡ (ok a, t)) × (f a t ≡ (ok b, s'))
  >>=-eq-ok m f s s' b h = elim (Result-cases (m s).0) [
    | inl (a, e) ↦ (a, (m s).1, ground (arith, e), ground (arith, e, h))
    | inr (x, e) ↦ absurd (ground (arith, e, h))
  ]

  pub map_err-eq-ok :
      (f : E → B) (m : Action S E A) (s s' : S) (a : A)
      → map_err f m s ≡ (ok a, s')
      → m s ≡ (ok a, s')
  map_err-eq-ok f m s s' a h = elim (Result-cases (m s).0) [
    | inl (b, e) ↦ ground (arith, e, h)
    | inr (x, e) ↦ absurd (ground (arith, e, h))
  ]

  -- An action that fails has failed in one of its steps.
  pub >>=-eq-err :
      (m : Action S E A) (f : A → Action S E B) (s : S) (x : E)
      → ((m >>= f) s).0 ≡ err x
      → ((m s).0 ≡ err x) ⊎ ((a : A) × (m s ≡ (ok a, (m s).1)) × ((f a (m s).1).0 ≡ err x))
  >>=-eq-err m f s x h = elim (Result-cases (m s).0) [
    | inl (a, e) ↦ inr (a, ground (arith, e), ground (arith, e, h))
    | inr (y, e) ↦ inl (ground (arith, e, h))
  ]

  pub map_err-eq-err :
      (f : E → B) (m : Action S E A) (s : S) (x : B)
      → (map_err f m s).0 ≡ err x
      → (e : E) × (x ≡ f e)
  map_err-eq-err f m s x h = elim (Result-cases (m s).0) [
    | inl (a, e) ↦ absurd (ground (arith, e, h))
    | inr (y, e) ↦ (y, ground (arith, e, h))
  ]

  pub map_err-state : (f : E → B) (m : Action S E A) (s : S) → (map_err f m s).1 ≡ (m s).1
  map_err-state f m s = elim (Result-cases (m s).0) [
    | inl (a, e) ↦ ground (arith, e)
    | inr (y, e) ↦ ground (arith, e)
  ]
