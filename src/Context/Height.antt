-- ===== src/Context/Height.antt =====
-- src/chain/context/height.rs and src/chain/context/address.rs.
use rem_poc.Prelude.{
  ℕ, ◌+◌, ◌-◌, ◌%◌, ◌≤◌, ◌<◌, ◌≡◌, Option, none, some, arith, if◌then◌else◌, leb, add_u64, u64_mod,
  u32_mod,
}

abbrev pub BaseHeight : Type 0
BaseHeight = ℕ

abbrev pub BasePeerAddress : Type 0
BasePeerAddress = ℕ

-- `From<usize> for BasePeerAddress`: `value as u32` keeps the low 32 bits.
unfoldable pub address_of_usize : ℕ → BasePeerAddress
address_of_usize value = value % u32_mod

unfoldable pub increment_by : BaseHeight → ℕ → BaseHeight
increment_by h n = add_u64 h n

unfoldable pub decrement_by : BaseHeight → ℕ → Option BaseHeight
decrement_by h n = if leb n h then some (h - n) else none

-- Going up by `n` from a height and down by `n` again comes back, as long as the height does not
-- pass the range of a `u64`; going down fails exactly when it would pass below zero, and else going
-- up again comes back.
increment_by-decrement_by :
    (h n : ℕ)
    → h < u64_mod
    → (h + n < u64_mod → decrement_by (increment_by h n) n ≡ some h)
      × (h < n → decrement_by h n ≡ none)
      × (n ≤ h → (d : ℕ) × (decrement_by h n ≡ some d) × (increment_by d n ≡ h))
unfolding increment_by decrement_by
increment_by-decrement_by h n range =
    (λ fits. ground arith, λ lt. ground arith, λ le. (h - n, ground arith, ground arith))
