-- ===== src/Formatting/Sizes.antt =====
-- web/lib/format.ts: sizes in bytes, in tenths of a unit.
use Prim.Native.Nat.{zero, suc}
use native.Mathlib.Nat.{pow-succ', pow-le-pow_right, div-mul-le_self, lt-div-mul-add}
use vidsilo.Base.{
  ℕ, ◌+◌, ◌*◌, ◌/◌, ◌^◌, ◌<◌, ◌≤◌, min, ◌≡◌, subst, ◌⊎◌, inl, inr, arith, ltb, Bool-cases,
}
use vidsilo.Formatting.{floor_log, unit_index, rounded, tenths}

pub rounded_lem :
    (n d : ℕ) → 0 < d → (2 * (rounded n d * d) ≤ 2 * n + d) × (2 * n < 2 * (rounded n d * d) + d)
unfolding rounded
rounded_lem n d h =
    let q = (2 * n + d) / (2 * d) in
    let below : q * (2 * d) ≤ 2 * n + d = div-mul-le_self (2 * n + d) (2 * d) in
    let above : 2 * n + d < q * (2 * d) + 2 * d = lt-div-mul-add (omega (arith, h)) in
    (omega (arith, below), omega (arith, above))

pow_pos : (i : ℕ) → 0 < 1024 ^ i
pow_pos zero = omega arith
pow_pos (suc i) = omega (arith, pow-succ' 1024 i, pow_pos i)

floor_log_lem :
    (fuel n : ℕ)
    → 0 < n
    → n ≤ fuel
    → (1024 ^ floor_log fuel n ≤ n) × (n < 1024 ^ suc (floor_log fuel n))
unfolding floor_log
floor_log_lem zero n z h = omega arith
floor_log_lem (suc fuel) n z h = elim (Bool-cases (ltb n 1024)) [
  | inl e ↦ rw (floor_log, e) (omega arith, ground (arith, e))
  | inr e ↦
      let big : 1024 ≤ n = ground (arith, e) in
      let (lo, hi) = floor_log_lem fuel (n / 1024) (omega (arith, big)) (omega (arith, big, h)) in
      let k = floor_log fuel (n / 1024) in
      rw (floor_log, e)
        (omega (arith, lo, pow-succ' 1024 k), omega (arith, hi, pow-succ' 1024 (suc k)))
]

capped : (k n : ℕ) → n < 1024 ^ suc k → (n < 1024 ^ suc (min k 4)) ⊎ (min k 4 ≡ 4)
capped k n h = elim (Bool-cases (ltb k 4)) [
  | inl e ↦ inl (subst (λ m. n < 1024 ^ suc m) (ground (arith, e)) h)
  | inr e ↦ inr (ground (arith, e))
]

-- The unit that formatBytes shows a size in goes into the size, and is the largest one that does, or the
-- terabyte; the number that it shows is the nearest one in tenths of the unit.
pub tenths_lem :
    (n : ℕ)
    → 0 < n
    → (1024 ^ unit_index n ≤ n)
      × ((n < 1024 ^ suc (unit_index n)) ⊎ (unit_index n ≡ 4))
      × (2 * (tenths n * 1024 ^ unit_index n) ≤ 2 * (10 * n) + 1024 ^ unit_index n)
      × (2 * (10 * n) < 2 * (tenths n * 1024 ^ unit_index n) + 1024 ^ unit_index n)
unfolding tenths unit_index
tenths_lem n z =
    let (lo, hi) = floor_log_lem n n z (omega arith) in
    let (below, above) = rounded_lem (10 * n) (1024 ^ unit_index n) (pow_pos (unit_index n)) in
    let k = floor_log n n in
    let mono : 1024 ^ min k 4 ≤ 1024 ^ k =
      pow-le-pow_right {n = 1024} (omega arith) {i = min k 4} {j = k} (omega arith) in
    (omega (arith, lo, mono), capped k n hi, below, above)
