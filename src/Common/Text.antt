-- ===== src/Common/Text.antt =====
-- JavaScript text as UTF-16 code units, which is what `length`, `charCodeAt` and `slice` count.
use Prim.Native.Nat.{ℕ, ◌+◌, ◌-◌, ◌/◌, ◌%◌}
use Prim.Native.Char.{code}
use Prim.Native.String
use Prim.Native.String.{String}
use mathlib.Core.List.{List, [], ◌∷◌}
use package.react_native_pushy.Common.Tests.{ltb, if◌then◌else◌}

-- A code point above the basic plane is a surrogate pair.
abbrev pub units : String → List ℕ
units String.[] = []
units (String.◌∷◌ c s) =
    let rest = units s in
    if ltb (code c) 0x10000
    then code c ∷ rest
    else (0xd800 + (code c - 0x10000) / 1024) ∷ (0xdc00 + (code c - 0x10000) % 1024) ∷ rest

abbrev pub text_append : String → String → String
text_append = String.◌++◌
