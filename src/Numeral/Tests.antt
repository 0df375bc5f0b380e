-- ===== src/Numeral/Tests.antt =====
-- Runs of `parse_numeric_constant` of src/globals.c.
use shecc.Prelude.{◌≡◌, refl, arith, true, false, [], ◌∷◌}
use shecc.Elf.Dynamic.{chars}
use shecc.Numeral.{parse_numeric_constant}
use shecc.Numeral.Value.{Base, parse_numeric_constant-literal}

parse_numeric_constant-literal_example : parse_numeric_constant (chars "0X2fA0") ≡ 12192
parse_numeric_constant-literal_example =
    parse_numeric_constant-literal Base.hexadecimal true (record { value = 2; capital = false })
      (record { value = 15; capital = false }
        ∷ record { value = 10; capital = true }
        ∷ record { value = 0; capital = false }
        ∷ [])
      tt (omega arith)

capitals : parse_numeric_constant (chars "0XfF") ≡ 255
unfolding parse_numeric_constant
capitals = refl

octal : parse_numeric_constant (chars "0755") ≡ 493
unfolding parse_numeric_constant
octal = refl

-- The value is that of an `int`.
wrapped : parse_numeric_constant (chars "4294967297") ≡ 1
unfolding parse_numeric_constant
wrapped = refl
