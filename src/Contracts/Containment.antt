-- ===== src/Contracts/Containment.antt =====
-- What `require_contained_path` of crates/contracts/src/lib.rs lets through.
use mathlib.Core.List.{append-nil}
use webtop_manager.Prelude.{String, ◌≡◌, ◌∙◌, refl, ◌↔◌, true, List, [], ◌∷◌, ◌++◌, arith}
use webtop_manager.Prelude.Results.{ok}
use webtop_manager.Contracts.Paths.{
  Component, components, components_eq_iff, starts_with, starts_with_iff, require_contained_path,
}

-- The list that extends another one properly has a first further component.
proper_extension :
    (base rest : List Component)
    → ((base ++ rest ≡ base) → ⊥)
    → (c : Component) × (below : List Component) × (base ++ rest ≡ base ++ c ∷ below)
proper_extension base [] differs = absurd (differs (append-nil base))
proper_extension base (c ∷ below) differs = (c, below, refl)

extension-ne_self :
    (base : List Component) (c : Component) (below : List Component) → base ++ c ∷ below ≡ base → ⊥
extension-ne_self [] c below e = cc
extension-ne_self (b ∷ base) c below e = extension-ne_self base c below (ground arith)

-- A target is accepted exactly when its components are those of the root and at least one more.
pub require_contained_path-ok_iff :
    (root target : String)
    → (require_contained_path root target ≡ ok tt) ↔ (
        (c : Component) × (below : List Component) × (components target
          ≡ components root ++ c ∷ below))
unfolding require_contained_path
require_contained_path-ok_iff root target =
    let target' = components target in
    let root' = components root in
    (
      (λ h.
          let prefix : starts_with target' root' ≡ true = ground arith in
          let (rest, e) = (starts_with_iff target' root').0 prefix in
          let differs : root' ++ rest ≡ root' → ⊥ =
            λ d. ground (arith, components_eq_iff target' root') in
          let (c, below, p) = proper_extension root' rest differs in (c, below, e ∙ p)),
      (λ (c, below, e). ground (
        arith,
        (starts_with_iff target' root').1 (c ∷ below, e),
        components_eq_iff target' root',
        extension-ne_self root' c below,
      )),
    )
