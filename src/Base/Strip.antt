-- ===== src/Base/Strip.antt =====
-- Python's `str.strip`.
use Prim.Native.Nat.{ℕ}
use Prim.Native.Char.{code}
use Prim.Native.String.{String}
use mathlib.Core.Bool.{Bool, true, ◌&&◌, ◌||◌}
use mathlib.Core.Option.{Option, none, some}
use film_compliance_agent.Base.Tests.{if◌then◌else◌, leb, nat_eq, ◌==◌, string_eq}

-- the characters that `str.isspace` counts as white space
abbrev pub is_space : ℕ → Bool
is_space c =
    (leb 9 c && leb c 13)
    || (leb 28 c && leb c 32)
    || nat_eq c 133
    || nat_eq c 160
    || nat_eq c 5760
    || (leb 8192 c && leb c 8202)
    || nat_eq c 8232
    || nat_eq c 8233
    || nat_eq c 8239
    || nat_eq c 8287
    || nat_eq c 12288

unfoldable pub lstrip : String → String
lstrip String.[] = ""
lstrip (String.◌∷◌ c s) = if is_space (code c) then lstrip s else String.◌∷◌ c s

unfoldable pub rstrip : String → String
rstrip String.[] = ""
rstrip (String.◌∷◌ c s) =
    let rest = rstrip s in if rest == "" && is_space (code c) then "" else String.◌∷◌ c rest

unfoldable pub strip : String → String
unfolding lstrip rstrip
strip s = rstrip (lstrip s)

-- `not (s or "").strip()`
abbrev pub is_blank_text : Option String → Bool
is_blank_text none = true
is_blank_text (some s) = strip s == ""
