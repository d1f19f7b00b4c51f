-- ===== src/Flow/Hash/Laws.antt =====
-- The split 16-bit arithmetic of the hash, and the rollout threshold (src/updateFlowCore.ts).
use Prim.Native.Nat.{bit_xor}
use react_native_pushy.Common.{ℕ, ◌+◌, ◌*◌, ◌/◌, ◌%◌, ◌^◌, String, true, false}
use react_native_pushy.Common.{List, [], ◌∷◌, ◌≡◌, refl, sym, arith}
use react_native_pushy.Common.Int.{ℤ, pos, negsuc, int_lt}
use react_native_pushy.Flow.Hash.Reference
use react_native_pushy.Flow.Hash.{
  mul_split, rotl13, add_split, mix_k, mix_h, blocks, finish_hash, murmurhash3_32_gc, is_in_rollout,
}

mul_halves : (hi lo c : ℕ) → (hi * 0x10000 + lo) * c ≡ hi * c * 0x10000 + lo * c
mul_halves hi lo c = omega arith

-- `k` as its two halves.
mul_split_halves :
    (k hi lo c : ℕ)
    → k ≡ hi * 0x10000 + lo
    → k * c % 2 ^ 32 ≡ (lo * c + (hi * c % 0x10000) * 0x10000) % 2 ^ 32
mul_split_halves k hi lo c h = rw h (omega (arith, mul_halves hi lo c))

mul_split_lem : (k c : ℕ) → mul_split k c ≡ k * c % 2 ^ 32
unfolding mul_split
mul_split_lem k c = sym (mul_split_halves k (k / 0x10000) (k % 0x10000) c (omega arith))

add_split_lem : (h : ℕ) → add_split h ≡ (h + 0xe6546b64) % 2 ^ 32
unfolding add_split
add_split_lem h = omega arith

mix_k_lem : (k : ℕ) → mix_k k ≡ Reference.scramble k
unfolding mix_k
mix_k_lem k = simp mul_split_lem

mix_h_lem : (h k : ℕ) → mix_h h k ≡ (Reference.mul32 (rotl13 (bit_xor h k)) 5 + 0xe6546b64) % 2 ^ 32
unfolding mix_h
mix_h_lem h k = simp (add_split_lem, mul_split_lem)

blocks-eq-body : (key : List ℕ) (h : ℕ) → blocks h key ≡ Reference.body h key
unfolding blocks Reference.body
blocks-eq-body (a ∷ b ∷ c ∷ d ∷ rest) h = rw (mix_k_lem, mix_h_lem) (blocks-eq-body rest _)
blocks-eq-body (a ∷ b ∷ c ∷ []) h = rw mix_k_lem
blocks-eq-body (a ∷ b ∷ []) h = rw mix_k_lem
blocks-eq-body (a ∷ []) h = rw mix_k_lem
blocks-eq-body [] h = refl

finish_hash-eq-fmix : (h : ℕ) → finish_hash h ≡ Reference.fmix h
unfolding finish_hash
finish_hash-eq-fmix h = simp mul_split_lem

-- For every key of UTF-16 code units and every seed, the hash of the source, which splits each
-- multiplication into 16-bit halves, is the published MurmurHash3 of the key's low bytes.
pub murmurhash3_32_gc-eq-murmur3 :
    (key : List ℕ) (seed : ℕ) → murmurhash3_32_gc key seed ≡ Reference.murmur3 key seed
unfolding murmurhash3_32_gc Reference.murmur3
murmurhash3_32_gc-eq-murmur3 key seed = rw (finish_hash-eq-fmix, blocks-eq-body)

-- Raising the rollout never drops a device, a rollout of at least 100 takes every device, and one
-- of at most 0 takes none.
is_in_rollout_mono :
    (low high : ℤ) (uuid : String)
    → (int_lt high low ≡ false → is_in_rollout low uuid ≡ true → is_in_rollout high uuid ≡ true)
      × (int_lt high (pos 100) ≡ false → is_in_rollout high uuid ≡ true)
      × (int_lt (pos 0) low ≡ false → is_in_rollout low uuid ≡ false)
unfolding is_in_rollout
is_in_rollout_mono (pos l) (pos h) uuid = (ground arith, ground arith, ground arith)
is_in_rollout_mono (pos l) (negsuc h) uuid = (ground arith, ground arith, ground arith)
is_in_rollout_mono (negsuc l) (pos h) uuid = (ground arith, ground arith, ground arith)
is_in_rollout_mono (negsuc l) (negsuc h) uuid = (ground arith, ground arith, ground arith)
