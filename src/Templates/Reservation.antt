-- ===== src/Templates/Reservation.antt =====
-- Reserving and releasing resources, against a specification by sets of held names
-- (crates/controller/src/templates.rs).
use webtop_manager.Prelude.{
  String, Bool, true, false, not, ◌&&◌, ◌||◌, ◌≡◌, refl, List, [], ◌∷◌, ◌++◌, any, arith, str_eq,
  if◌then◌else◌, eq_iff,
}
use webtop_manager.Prelude.Results.{Result, ok, err}
use webtop_manager.Controller.State.{AppState}
use webtop_manager.Templates.Jobs.{
  contains, docker_images, is_empty, remove_resource, remove_resources, reserve_resources,
  release_resources,
}

-- The specification: a set of held names is its test.
abbrev pub Held : Type 0
Held = String → Bool

-- Whether the names may be taken: none is held, and the images are not pulled if they are asked for.
abbrev pub may_reserve : List String → Bool → Held → Bool
may_reserve resources pulling held =
    not (contains resources docker_images && pulling) && not (any held resources)

abbrev pub after_reserve : List String → Bool → Held → Held
after_reserve resources pulling held x =
    if may_reserve resources pulling held then held x || contains resources x else held x

abbrev pub after_release : List String → Held → Held
after_release resources held x = held x && not (contains resources x)

abbrev pub is_granted : {E A : Type 0} → Result E A → Bool
is_granted (ok a) = true
is_granted (err e) = false

str_eq_comm : (a b : String) → str_eq a b ≡ str_eq b a
str_eq_comm a b = ground (arith, eq_iff a b, eq_iff b a)

pub contains-append :
    (xs ys : List String) (x : String) → contains (xs ++ ys) x ≡ (contains xs x || contains ys x)
contains-append [] ys x = refl
contains-append (y ∷ xs) ys x = ground (arith, contains-append xs ys x)

images_asked :
    (resources : List String)
    → any (λ r. str_eq r docker_images) resources ≡ contains resources docker_images
images_asked [] = refl
images_asked (r ∷ rs) = ground (arith, images_asked rs, str_eq_comm r docker_images)

pub contains-remove_resource :
    (r : String) (active : List String) (x : String)
    → contains (remove_resource r active) x ≡ (contains active x && not (str_eq x r))
unfolding remove_resource
contains-remove_resource r [] x = refl
contains-remove_resource r (a ∷ active) x =
    ground (arith, contains-remove_resource r active x, eq_iff a r, eq_iff x a, eq_iff x r)

pub contains-remove_resources :
    (rs active : List String) (x : String)
    → contains (remove_resources rs active) x ≡ (contains active x && not (contains rs x))
unfolding remove_resources
contains-remove_resources [] active x = ground arith
contains-remove_resources (r ∷ rs) active x = ground (
  arith,
  contains-remove_resources rs (remove_resource r active) x,
  contains-remove_resource r active x,
)

abbrev pulling : {D : Type 0} → AppState D → Bool
pulling s = not (is_empty s.pull_cancellations)

abbrev pub held : {D : Type 0} → AppState D → Held
held s = contains s.active_resources

module _ {D : Type 0} where
  reserve_resources-is_granted :
      (resources : List String) (s : AppState D)
      → is_granted (reserve_resources resources s).0 ≡ may_reserve resources (pulling s) (held s)
  unfolding reserve_resources
  reserve_resources-is_granted resources s = ground (arith, images_asked resources)

  -- `reserve_resources` implements the reservation of a set of names: it grants the resources exactly
  -- where the specification does, and the names that are active afterwards are those of the
  -- specification, also where it refuses.
  pub reserve_resources-refines :
      (resources : List String) (s : AppState D)
      → (is_granted (reserve_resources resources s).0 ≡ may_reserve resources (pulling s) (held s))
        × ((x : String)
            → held (reserve_resources resources s).1 x
              ≡ after_reserve resources (pulling s) (held s) x)
  unfolding reserve_resources
  reserve_resources-refines resources s = (
    reserve_resources-is_granted resources s,
    (λ x. ground (arith, images_asked resources, contains-append s.active_resources resources x)),
  )

  -- `release_resources` takes exactly the given names out of the active ones.
  pub release_resources-refines :
      (resources : List String) (s : AppState D) (x : String)
      → held (release_resources resources s) x ≡ after_release resources (held s) x
  unfolding release_resources
  release_resources-refines resources s x = contains-remove_resources resources s.active_resources x
