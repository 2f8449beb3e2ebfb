-- ===== src/Contracts/Paths.antt =====
-- `std::path::Path` as the program uses it, and `require_contained_path`
-- (crates/contracts/src/lib.rs). Paths are compared by their components, as Rust compares them.
use webtop_manager.Prelude.{
  ℕ, String, ◌≡◌, refl, ◌↔◌, Bool, true, false, ◌&&◌, ◌||◌, not, Option, none, some, List, [], ◌∷◌,
  ◌++◌, arith, ◌==◌, if◌then◌else◌,
}
use webtop_manager.Prelude.Text.{codes}
use webtop_manager.Prelude.Results.{Result, ok, err}
use webtop_manager.Contracts.Errors.{ApiError, plain_error, ErrorCode}

pub data Component : Type 0 where
  root_dir cur_dir parent_dir : Component
  normal : List ℕ → Component

-- `str::split('/')`: the first part, and those that follow.
split_slash : List ℕ → List ℕ × List (List ℕ)
split_slash [] = ([], [])
split_slash (c ∷ cs) =
    let (part, parts) = split_slash cs in
    if c == b'/' then ([], part ∷ parts) else (c ∷ part, parts)

-- A part after the first: empty parts and "." are skipped.
component : List ℕ → Option Component
component [] = none
component (c ∷ []) = if c == b'.' then none else some (normal (c ∷ []))
component (c ∷ d ∷ []) =
    if c == b'.' && d == b'.' then some parent_dir else some (normal (c ∷ d ∷ []))
component cs = some (normal cs)

push_component : Option Component → List Component → List Component
push_component none cs = cs
push_component (some c) cs = c ∷ cs

tail_components : List (List ℕ) → List Component
tail_components [] = []
tail_components (part ∷ parts) = push_component (component part) (tail_components parts)

-- The first part: nothing before the first "/" is the root, and a leading "." stays.
head_components : List ℕ → Bool → List Component
head_components [] rooted = if rooted then root_dir ∷ [] else []
head_components (c ∷ []) rooted = if c == b'.' then cur_dir ∷ [] else normal (c ∷ []) ∷ []
head_components cs rooted = push_component (component cs) []

-- `path.components()`.
unfoldable pub components : String → List Component
unfolding split_slash component push_component tail_components head_components
components path =
    let (part, parts) = split_slash (codes path) in
    head_components part (elim parts [ [] ↦ false | _ ∷ _ ↦ true ]) ++ tail_components parts

-- `path.is_absolute()`.
unfoldable pub is_absolute : String → Bool
is_absolute path = elim (codes path) [ [] ↦ false | c ∷ _ ↦ c == b'/' ]

unfoldable pub codes_eq : List ℕ → List ℕ → Bool
codes_eq [] [] = true
codes_eq [] (d ∷ ds) = false
codes_eq (c ∷ cs) [] = false
codes_eq (c ∷ cs) (d ∷ ds) = (c == d) && codes_eq cs ds

pub codes_eq_iff : (cs ds : List ℕ) → (codes_eq cs ds ≡ true) ↔ (cs ≡ ds)
unfolding codes_eq
codes_eq_iff [] [] = ground arith
codes_eq_iff [] (d ∷ ds) = ground arith
codes_eq_iff (c ∷ cs) [] = ground arith
codes_eq_iff (c ∷ cs) (d ∷ ds) = ground (arith, codes_eq_iff cs ds)

unfoldable pub component_eq : Component → Component → Bool
unfolding codes_eq
component_eq root_dir root_dir = true
component_eq cur_dir cur_dir = true
component_eq parent_dir parent_dir = true
component_eq (normal a) (normal b) = codes_eq a b
component_eq _ _ = false

pub component_eq_iff : (a b : Component) → (component_eq a b ≡ true) ↔ (a ≡ b)
unfolding component_eq
component_eq_iff root_dir b = ground arith
component_eq_iff cur_dir b = ground arith
component_eq_iff parent_dir b = ground arith
component_eq_iff (normal a) (normal b) = ground (arith, codes_eq_iff a b)
component_eq_iff (normal a) b = ground arith

-- `path == other`, on components.
unfoldable pub components_eq : List Component → List Component → Bool
unfolding component_eq
components_eq [] [] = true
components_eq [] (d ∷ ds) = false
components_eq (c ∷ cs) [] = false
components_eq (c ∷ cs) (d ∷ ds) = component_eq c d && components_eq cs ds

pub components_eq_iff : (cs ds : List Component) → (components_eq cs ds ≡ true) ↔ (cs ≡ ds)
unfolding components_eq
components_eq_iff [] [] = ground arith
components_eq_iff [] (d ∷ ds) = ground arith
components_eq_iff (c ∷ cs) [] = ground arith
components_eq_iff (c ∷ cs) (d ∷ ds) = ground (arith, component_eq_iff c d, components_eq_iff cs ds)

-- `path.starts_with(base)`, on components.
unfoldable pub starts_with : List Component → List Component → Bool
unfolding component_eq
starts_with cs [] = true
starts_with [] (b ∷ bs) = false
starts_with (c ∷ cs) (b ∷ bs) = component_eq c b && starts_with cs bs

pub starts_with_iff :
    (cs bs : List Component)
    → (starts_with cs bs ≡ true) ↔ ((rest : List Component) × (cs ≡ bs ++ rest))
unfolding starts_with
starts_with_iff cs [] = ((λ h. (cs, refl)), (λ h. refl))
starts_with_iff [] (b ∷ bs) = ((λ h. cc), (λ h. cc (h.1)))
starts_with_iff (c ∷ cs) (b ∷ bs) = (
  (λ h.
      let (rest, e) = (starts_with_iff cs bs).0 (ground arith) in
      (rest, ground (arith, component_eq_iff c b))),
  (λ h.
      ground
        (arith, component_eq_iff c b, (starts_with_iff cs bs).1 (h.0, ground (arith, h.1)), h.1)),
)

-- `require_contained_path`.
unfoldable pub require_contained_path : String → String → Result ApiError (Unit {0})
require_contained_path root target =
    if components_eq (components target) (components root)
      || not (starts_with (components target) (components root))
    then err (plain_error ErrorCode.path_outside_data_root)
    else ok tt
