-- ===== src/Flow/Hash.antt =====
-- murmurhash3_32_gc and isInRollout (src/updateFlowCore.ts): the gray-release bucketing hash.
-- A bit operation of JavaScript reads its operands as 32-bit patterns, so a variable of the source
-- is the pattern that the next operation reads, a number below 2 ^ 32.
pub mod Reference
pub mod Laws
mod Check
use Prim.Native.Nat.{bit_or, bit_xor}
use react_native_pushy.Common.{ℕ, ◌+◌, ◌*◌, ◌/◌, ◌%◌, ◌^◌, String, Bool, List, [], ◌∷◌, length}
use react_native_pushy.Common.Int.{ℤ, pos, int_lt}
use react_native_pushy.Common.Text.{units}

abbrev pub c1 : ℕ
c1 = 0xcc9e2d51

abbrev pub c2 : ℕ
c2 = 0x1b873593

-- `((k & 0xffff) * c + ((((k >>> 16) * c) & 0xffff) << 16)) & 0xffffffff`.
unfoldable pub mul_split : ℕ → ℕ → ℕ
mul_split k c = ((k % 0x10000) * c + ((k / 0x10000 * c) % 0x10000) * 0x10000) % 2 ^ 32

-- `(x << n) | (x >>> (32 - n))`, for the two rotations of the source.
abbrev pub rotl15 : ℕ → ℕ
rotl15 x = bit_or (x * 2 ^ 15 % 2 ^ 32) (x / 2 ^ 17)

abbrev pub rotl13 : ℕ → ℕ
rotl13 x = bit_or (x * 2 ^ 13 % 2 ^ 32) (x / 2 ^ 19)

-- `(h1b & 0xffff) + 0x6b64 + ((((h1b >>> 16) + 0xe654) & 0xffff) << 16)`.
unfoldable pub add_split : ℕ → ℕ
add_split h = (h % 0x10000 + 0x6b64 + ((h / 0x10000 + 0xe654) % 0x10000) * 0x10000) % 2 ^ 32

-- The four low bytes of four code units, the first lowest.
abbrev pub word : ℕ → ℕ → ℕ → ℕ → ℕ
word a b c d =
    bit_or (bit_or (bit_or (a % 256) (b % 256 * 2 ^ 8)) (c % 256 * 2 ^ 16)) (d % 256 * 2 ^ 24)

unfoldable pub mix_k : ℕ → ℕ
mix_k k = mul_split (rotl15 (mul_split k c1)) c2

unfoldable pub mix_h : ℕ → ℕ → ℕ
mix_h h k = add_split (mul_split (rotl13 (bit_xor h k)) 5)

-- The `while` loop over blocks of four units, then the `switch` over the remaining ones.
unfoldable pub blocks : ℕ → List ℕ → ℕ
blocks h (a ∷ b ∷ c ∷ d ∷ rest) = blocks (mix_h h (mix_k (word a b c d))) rest
blocks h (a ∷ b ∷ c ∷ []) =
    bit_xor h (mix_k (bit_xor (bit_xor (c % 256 * 2 ^ 16) (b % 256 * 2 ^ 8)) (a % 256)))
blocks h (a ∷ b ∷ []) = bit_xor h (mix_k (bit_xor (b % 256 * 2 ^ 8) (a % 256)))
blocks h (a ∷ []) = bit_xor h (mix_k (a % 256))
blocks h [] = h

unfoldable pub finish_hash : ℕ → ℕ
finish_hash h =
    let h1 = bit_xor h (h / 2 ^ 16) in
    let h2 = mul_split h1 0x85ebca6b in
    let h3 = bit_xor h2 (h2 / 2 ^ 13) in
    let h4 = mul_split h3 0xc2b2ae35 in bit_xor h4 (h4 / 2 ^ 16) % 2 ^ 32

unfoldable pub murmurhash3_32_gc : List ℕ → ℕ → ℕ
unfolding blocks finish_hash
murmurhash3_32_gc key seed = finish_hash (bit_xor (blocks seed key) (length key))

unfoldable pub is_in_rollout : ℤ → String → Bool
is_in_rollout rollout uuid = int_lt (pos (murmurhash3_32_gc (units uuid) 0 % 100)) rollout
