-- ===== src/NodeDriver/Convert/Words.antt =====
-- Conversions that lose nothing on values that fit.
use tgproxy_panel.Prelude.{ℕ, ◌≤◌, ◌<◌, ◌≡◌, arith, ℤ, pos, negsuc, pos_part, neg_part}
use tgproxy_panel.NodeDriver.Convert.{int32, int64_of, of_uint, to_uint, uint32, uint64}

-- A value of a signed type with the given half of its modulus.
abbrev pub Fits : ℕ → ℤ → Type 0
Fits half z = (pos_part z < half) × (neg_part z ≤ half)

pub int32-Fits : (z : ℤ) → Fits 2147483648 z → int32 z ≡ z
unfolding int32 of_uint to_uint
int32-Fits (pos n) fits = ground arith
int32-Fits (negsuc n) fits = ground arith

pub int64_of-uint64 : (z : ℤ) → Fits 9223372036854775808 z → int64_of (uint64 z) ≡ z
unfolding int64_of of_uint to_uint
int64_of-uint64 (pos n) fits = ground arith
int64_of-uint64 (negsuc n) fits = ground arith

-- A value of uint32 inside an int.
abbrev pub IsUint32 : ℤ → Type 0
IsUint32 z = (neg_part z ≡ 0) × (pos_part z < 4294967296)

pub uint32-IsUint32 : (z : ℤ) → IsUint32 z → pos (uint32 z) ≡ z
unfolding to_uint
uint32-IsUint32 (pos n) fits = ground arith
uint32-IsUint32 (negsuc n) fits = ground arith
