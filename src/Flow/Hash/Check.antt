-- ===== src/Flow/Hash/Check.antt =====
-- Known values of the hash (src/updateFlowCore.ts).
use react_native_pushy.Common.{◌%◌, ◌≡◌, refl}
use react_native_pushy.Common.Text.{units}
use react_native_pushy.Flow.Hash.{
  mul_split, add_split, mix_k, mix_h, blocks, finish_hash, murmurhash3_32_gc,
}

known_hashes :
    (murmurhash3_32_gc (units "") 0 ≡ 0)
    × (murmurhash3_32_gc (units "hello") 0 ≡ 0x248bfa47)
    × (murmurhash3_32_gc (units "hello, world") 0 ≡ 0x149bbb7f)
    × (murmurhash3_32_gc (units "test1") 0 % 100 ≡ 62)
unfolding murmurhash3_32_gc blocks mix_k mix_h mul_split add_split finish_hash
known_hashes = (refl, refl, refl, refl)
