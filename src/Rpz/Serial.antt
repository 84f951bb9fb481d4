-- ===== src/Rpz/Serial.antt =====
-- `serialGreater` of tools/rpz-master/slave_client.go: RFC 1982 comparison of 32-bit serials.
use dnsdist_edge.Prelude.{
  ℕ, ◌+◌, ◌-◌, ◌%◌, ◌<◌, ◌≡◌, ◌↔◌, Bool, true, false, not, ◌&&◌, arith, ltb, ◌==◌, nat_eq,
}

abbrev pub u32_mod : ℕ
u32_mod = 4294967296

abbrev pub half_range : ℕ
half_range = 2147483648

-- `a - b` on uint32 wraps around.
unfoldable pub serial_greater : ℕ → ℕ → Bool
serial_greater a b =
    let diff = (a + u32_mod - b) % u32_mod in not (diff == 0) && ltb diff half_range

-- A serial is never newer than itself.
pub serial_greater_irrefl : (a : ℕ) → a < u32_mod → serial_greater a a ≡ false
unfolding serial_greater
serial_greater_irrefl a h = ground arith

-- Of two serials at most one is newer than the other.
pub serial_greater_asymm :
    (a b : ℕ) → a < u32_mod → b < u32_mod → serial_greater a b ≡ true → serial_greater b a ≡ false
unfolding serial_greater
serial_greater_asymm a b ha hb h = ground arith

-- Exactly the next 2^31 - 1 serials, counted with wrap-around, are newer.
pub serial_greater-add :
    (b k : ℕ)
    → b < u32_mod
    → k < u32_mod
    → (serial_greater ((b + k) % u32_mod) b ≡ true) ↔ ((0 < k) × (k < half_range))
unfolding serial_greater
serial_greater-add b k hb hk = ground arith
