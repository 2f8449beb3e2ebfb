-- ===== src/Controller/FreePorts.antt =====
-- How many ports of a range are still free: what falls with each replacement that the retry loop of
-- crates/controller/src/api.rs makes.
use webtop_manager.Prelude.{
  ℕ, zero, suc, ◌+◌, ◌≤◌, ◌<◌, ◌≡◌, ◌⊎◌, inl, inr, true, false, List, arith, mem, if◌then◌else◌,
}
use webtop_manager.Controller.Allocation.{Covers}

-- The ports from `port` on, `count` of them, that are not in the list.
pub free_count : ℕ → ℕ → List ℕ → ℕ
free_count zero port allocated = 0
free_count (suc count) port allocated =
    (if mem port allocated then 0 else 1) + free_count count (suc port) allocated

pub free_count-le : (count port : ℕ) (allocated : List ℕ) → free_count count port allocated ≤ count
unfolding free_count
free_count-le zero port allocated = omega arith
free_count-le (suc count) port allocated = ground (arith, free_count-le count (suc port) allocated)

pub free_count_mono :
    (count port : ℕ) (a b : List ℕ) → Covers b a → free_count count port b ≤ free_count count port a
unfolding free_count
free_count_mono zero port a b h = omega arith
free_count_mono (suc count) port a b h =
    ground (arith, h port, free_count_mono count (suc port) a b h)

-- One more port taken inside the range leaves fewer.
pub free_count-lt :
    (count port : ℕ) (a b : List ℕ) (p : ℕ)
    → Covers b a
    → port ≤ p
    → p < port + count
    → mem p a ≡ false
    → mem p b ≡ true
    → free_count count port b < free_count count port a
unfolding free_count
free_count-lt zero port a b p h l u fa fb = absurd (omega arith)
free_count-lt (suc count) port a b p h l u fa fb = elim (at_or_above port p l) [
  | inl here ↦ ground (arith, here, free_count_mono count (suc port) a b h)
  | inr above ↦
      let rest = free_count-lt count (suc port) a b p h above (omega arith) fa fb in
      ground (arith, h port, rest)
]
  where
    at_or_above : (port p : ℕ) → port ≤ p → (port ≡ p) ⊎ (suc port ≤ p)
    at_or_above port p h = ground arith
