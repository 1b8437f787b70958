-- ===== src/Prelude/Strings.antt =====
-- Strings: `a + b`.
use Prim.Native.String.{String, ◌++◌}

abbrev pub append_string : String → String → String
append_string s t = s ++ t
