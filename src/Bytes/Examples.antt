-- ===== src/Bytes/Examples.antt =====
-- Tests and instances for byte strings and literals.
use valax_wearedevs_deobfusc.Prelude.{◌≡◌, ◌≢◌, refl, inl, inr, [], ◌∷◌, arith}
use valax_wearedevs_deobfusc.Bytes.Defs.{to_lua_literal}
use valax_wearedevs_deobfusc.Bytes.Literal.{is_digit, decode, from_lua_literal}
use valax_wearedevs_deobfusc.Bytes.RoundTrip.{digit_first, merges}
use valax_wearedevs_deobfusc.Bytes.Inverse.{from-to_lua_literal}
use valax_wearedevs_deobfusc.Bytes.Fuel.{decode_fuel, nul_before_digit}

-- `[=[` NEWLINE `a]b` `]=]`
long_bracket_read :
    from_lua_literal (b'[' ∷ b'=' ∷ b'[' ∷ 10 ∷ b'a' ∷ b']' ∷ b'b' ∷ b']' ∷ b'=' ∷ b']' ∷ [])
    ≡ b'a' ∷ b']' ∷ b'b' ∷ []
unfolding from_lua_literal
long_bracket_read = refl

-- `"\x41\u\z  b"`
escapes_read :
    from_lua_literal
      (34 ∷ 92 ∷ b'x' ∷ b'4' ∷ b'1' ∷ 92 ∷ b'u' ∷ 92 ∷ b'z' ∷ 32 ∷ 32 ∷ b'b' ∷ 34 ∷ [])
    ≡ b'A' ∷ b'u' ∷ b'b' ∷ []
unfolding from_lua_literal
escapes_read = refl

-- `"a\0\200\""`
mixed_written :
    to_lua_literal 34 (b'a' ∷ 0 ∷ 200 ∷ 34 ∷ [])
    ≡ 34 ∷ b'a' ∷ 92 ∷ b'0' ∷ 92 ∷ b'2' ∷ b'0' ∷ b'0' ∷ 92 ∷ 34 ∷ 34 ∷ []
unfolding to_lua_literal
mixed_written = refl

from-to_lua_literal_example :
    from_lua_literal (to_lua_literal 39 (b'a' ∷ 0 ∷ 200 ∷ 39 ∷ 10 ∷ []))
    ≡ b'a' ∷ 0 ∷ 200 ∷ 39 ∷ 10 ∷ []
unfolding merges
from-to_lua_literal_example =
    from-to_lua_literal 39 (b'a' ∷ 0 ∷ 200 ∷ 39 ∷ 10 ∷ []) (inr refl) (omega arith) refl

decode_fuel_example : decode 3 (92 ∷ b'n' ∷ []) ≡ decode 9 (92 ∷ b'n' ∷ [])
decode_fuel_example = decode_fuel 3 9 (92 ∷ b'n' ∷ []) (omega arith) (omega arith)

nul_before_digit_example :
    (from_lua_literal (to_lua_literal 34 (0 ∷ b'1' ∷ b'a' ∷ [])) ≡ 1 ∷ b'a' ∷ [])
    × (from_lua_literal (to_lua_literal 34 (0 ∷ b'1' ∷ b'a' ∷ [])) ≢ 0 ∷ b'1' ∷ b'a' ∷ [])
unfolding is_digit digit_first merges
nul_before_digit_example =
    nul_before_digit 34 b'1' (b'a' ∷ []) (inl refl) refl refl (omega arith) refl
