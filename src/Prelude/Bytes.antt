-- ===== src/Prelude/Bytes.antt =====
-- The bytes of a Go string: the UTF-8 of its code points.
use Prim.Native.Char.{code}
use Prim.Native.Nat.{ℕ, zero, suc, ◌+◌, ◌/◌, ◌%◌, ◌^◌}
use Prim.Native.String.{String}
use mathlib.Core.List.{List, [], ◌∷◌, ◌++◌}
use llmgateway.Prelude.Tests.{ltb, if◌then◌else◌}

-- The last `n` bytes of a code point that takes more than one.
unfoldable pub tail_bytes : ℕ → ℕ → List ℕ
tail_bytes zero c = []
tail_bytes (suc n) c = (0x80 + c / 64 ^ n % 64) ∷ tail_bytes n c

unfoldable pub utf8 : ℕ → List ℕ
unfolding tail_bytes
utf8 c =
    if ltb c 0x80
    then c ∷ []
    else if ltb c 0x800
    then (0xc0 + c / 64) ∷ tail_bytes 1 c
    else if ltb c 0x1_0000
    then (0xe0 + c / 4096) ∷ tail_bytes 2 c
    else (0xf0 + c / 0x4_0000) ∷ tail_bytes 3 c

unfoldable pub bytes : String → List ℕ
unfolding utf8
bytes String.[] = []
bytes (String.◌∷◌ c s) = utf8 (code c) ++ bytes s
