-- ===== src/Contracts/Ports.antt =====
-- `allocate_remote_port` (crates/contracts/src/lib.rs).
use webtop_manager.Prelude.{
  ℕ, zero, suc, ◌+◌, ◌-◌, ◌≤◌, ◌<◌, ◌≡◌, ◌↔◌, ◌⊎◌, true, false, Option, none, some, List, arith,
  mem, Bool-cases, inl, inr, Option-cases,
}
use webtop_manager.Prelude.Results.{Result, ok, err, ok_or}
use webtop_manager.Contracts.Errors.{ApiError, plain_error, ErrorCode}

-- `(port..).find(|port| !allocated.contains(port))` over `count` ports.
unfoldable pub first_free : ℕ → ℕ → List ℕ → Option ℕ
first_free zero port allocated = none
first_free (suc count) port allocated = elim (mem port allocated) [
  | true ↦ first_free count (suc port) allocated
  | false ↦ some port
]

-- The range `start..=end` holds `end + 1 - start` ports, none if `start > end`.
unfoldable pub allocate_remote_port : ℕ → ℕ → List ℕ → Result ApiError ℕ
unfolding first_free
allocate_remote_port start end allocated =
    ok_or (first_free (end + 1 - start) start allocated) (plain_error ErrorCode.port_conflict)

-- `port` is the least port from `start` that is not allocated, and lies below `bound`.
pub record IsFirstFree (start bound : ℕ) (allocated : List ℕ) (port : ℕ) : Type 0 where
  pub lower : start ≤ port
  pub upper : port < bound
  pub free : mem port allocated ≡ false
  pub first : (q : ℕ) → start ≤ q → q < port → mem q allocated ≡ true

-- A port at or above `port` is `port` itself or lies above it.
from_le : (port q : ℕ) → port ≤ q → (port ≡ q) ⊎ (suc port ≤ q)
from_le port q h = ground arith

first_free_sound :
    (count port : ℕ) (allocated : List ℕ) (p : ℕ)
    → first_free count port allocated ≡ some p
    → IsFirstFree port (port + count) allocated p
unfolding first_free
first_free_sound zero port allocated p e = cc
first_free_sound (suc count) port allocated p e = elim (Bool-cases (mem port allocated)) [
  | inl taken ↦
      let later = first_free_sound count (suc port) allocated p (ground arith) in
      record {
        lower = omega (arith, later.lower);
        upper = omega (arith, later.upper);
        free = later.free;
        first = λ q l u. elim (from_le port q l) [
          | inl same ↦ rw same at taken
          | inr above ↦ later.first q above u
        ];
      }
  | inr free ↦
      let here : port ≡ p = ground arith in
      record {
        lower = omega (arith, here);
        upper = omega (arith, here);
        free = rw here at free;
        first = λ q l u. absurd (omega (arith, here));
      }
]

first_free-none :
    (count port : ℕ) (allocated : List ℕ)
    → first_free count port allocated ≡ none
    → (q : ℕ) → port ≤ q
    → q < port + count
    → mem q allocated ≡ true
unfolding first_free
first_free-none zero port allocated e q l u = absurd (omega arith)
first_free-none (suc count) port allocated e q l u = elim (from_le port q l) [
  | inl same ↦ ground (arith, same)
  | inr above ↦ first_free-none count (suc port) allocated (ground arith) q above (omega arith)
]

first_free_unique :
    {start bound : ℕ} {allocated : List ℕ} {p q : ℕ}
    → IsFirstFree start bound allocated p
    → IsFirstFree start bound allocated q
    → p ≡ q
first_free_unique {p} {q} a b =
    ground (arith, a.lower, b.lower, a.free, b.free, a.first q b.lower, b.first p a.lower)

-- The two searches of `allocate_remote_port`, over its own range.
range_sound :
    (start end : ℕ) (allocated : List ℕ) (p : ℕ)
    → first_free (end + 1 - start) start allocated ≡ some p
    → IsFirstFree start (end + 1) allocated p
range_sound start end allocated p e =
    let found = first_free_sound (end + 1 - start) start allocated p e in
    record {
      lower = found.lower;
      upper = omega (arith, found.lower, found.upper);
      free = found.free;
      first = found.first;
    }

range_none :
    (start end : ℕ) (allocated : List ℕ)
    → first_free (end + 1 - start) start allocated ≡ none
    → (q : ℕ) → start ≤ q
    → q ≤ end
    → mem q allocated ≡ true
range_none start end allocated e q l u =
    first_free-none (end + 1 - start) start allocated e q l (omega arith)

-- The allocation succeeds with `port` exactly when `port` is the least free port of the inclusive
-- range `start..=end`.
pub allocate_remote_port-ok_iff :
    (start end : ℕ) (allocated : List ℕ) (port : ℕ)
    → (allocate_remote_port start end allocated ≡ ok port)
      ↔ IsFirstFree start (end + 1) allocated port
unfolding allocate_remote_port
allocate_remote_port-ok_iff start end allocated port = (
  (λ e. range_sound start end allocated port (ground arith)),
  (λ h. elim (Option-cases (first_free (end + 1 - start) start allocated)) [
    | inl missed ↦
        let taken = range_none start end allocated missed port h.lower (omega (arith, h.upper)) in
        ground (arith, taken, h.free)
    | inr (p, found) ↦
        let same = first_free_unique (range_sound start end allocated p found) h in
        ground (arith, same)
  ]),
)

-- It fails, with the error code for a port conflict, exactly when every port of the range is
-- allocated.
pub allocate_remote_port-err_iff :
    (start end : ℕ) (allocated : List ℕ)
    → (allocate_remote_port start end allocated ≡ err (plain_error ErrorCode.port_conflict))
      ↔ ((q : ℕ) → start ≤ q → q ≤ end → mem q allocated ≡ true)
unfolding allocate_remote_port
allocate_remote_port-err_iff start end allocated = (
  (λ e. range_none start end allocated (ground arith)),
  (λ full. elim (Option-cases (first_free (end + 1 - start) start allocated)) [
    | inl missed ↦ ground arith
    | inr (p, found) ↦
        let first = range_sound start end allocated p found in
        ground (arith, first.free, full p first.lower (omega (arith, first.upper)))
  ]),
)
