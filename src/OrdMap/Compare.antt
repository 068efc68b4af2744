-- ===== src/OrdMap/Compare.antt =====
-- The comparison that a std::map is built over: `std::less`, with the laws of a strict total order.
use dist_cache.Prelude.{ℕ, ◌≡◌, Bool, true, false, arith, ltb}

pub record Order {ℓ} (K : Type ℓ) : Type ℓ where
  pub less : K → K → Bool
  pub irrefl : (a : K) → less a a ≡ false
  pub trans : (a b c : K) → less a b ≡ true → less b c ≡ true → less a c ≡ true
  pub total : (a b : K) → less a b ≡ false → less b a ≡ false → a ≡ b

pub ltb_irrefl : (a : ℕ) → ltb a a ≡ false
ltb_irrefl a = ground arith

pub ltb_trans : (a b c : ℕ) → ltb a b ≡ true → ltb b c ≡ true → ltb a c ≡ true
ltb_trans a b c h k = ground arith

pub ltb_total : (a b : ℕ) → ltb a b ≡ false → ltb b a ≡ false → a ≡ b
ltb_total a b h k = ground arith

-- Unsigned numbers.
abbrev pub nat_order : Order ℕ
nat_order = record { less = ltb; irrefl = ltb_irrefl; trans = ltb_trans; total = ltb_total }
