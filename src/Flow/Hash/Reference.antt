-- ===== src/Flow/Hash/Reference.antt =====
-- MurmurHash3_x86_32 as it is published: multiplications and the addition are modulo 2 ^ 32.
use Prim.Native.Nat.{bit_xor}
use react_native_pushy.Common.{ℕ, ◌+◌, ◌*◌, ◌/◌, ◌%◌, ◌^◌, List, [], ◌∷◌, length}
use react_native_pushy.Flow.Hash.{c1, c2, rotl15, rotl13, word}

abbrev pub mul32 : ℕ → ℕ → ℕ
mul32 a b = a * b % 2 ^ 32

abbrev pub scramble : ℕ → ℕ
scramble k = mul32 (rotl15 (mul32 k c1)) c2

unfoldable pub body : ℕ → List ℕ → ℕ
body h (a ∷ b ∷ c ∷ d ∷ rest) =
    body ((mul32 (rotl13 (bit_xor h (scramble (word a b c d)))) 5 + 0xe6546b64) % 2 ^ 32) rest
body h (a ∷ b ∷ c ∷ []) =
    bit_xor h (scramble (bit_xor (bit_xor (c % 256 * 2 ^ 16) (b % 256 * 2 ^ 8)) (a % 256)))
body h (a ∷ b ∷ []) = bit_xor h (scramble (bit_xor (b % 256 * 2 ^ 8) (a % 256)))
body h (a ∷ []) = bit_xor h (scramble (a % 256))
body h [] = h

abbrev pub xorshift : ℕ → ℕ → ℕ
xorshift h n = bit_xor h (h / 2 ^ n)

abbrev pub fmix : ℕ → ℕ
fmix h = xorshift (mul32 (xorshift (mul32 (xorshift h 16) 0x85ebca6b) 13) 0xc2b2ae35) 16 % 2 ^ 32

unfoldable pub murmur3 : List ℕ → ℕ → ℕ
murmur3 key seed = fmix (bit_xor (body seed key) (length key))
