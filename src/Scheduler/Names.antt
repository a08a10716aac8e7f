-- ===== src/Scheduler/Names.antt =====
-- crates/team/src/scheduler/mod.rs, `normalize_name`, and crates/team/src/types.rs,
-- `truncate_last_message`. Lower case is that of Unicode's tables, a parameter; white space and
-- control characters are told by their code points.
use Prim.Native.String.{String}
use Prim.Native.Char.{code}
use team_lite.Base.{ℕ, zero, suc, Bool, true, false, not, ◌&&◌, ◌||◌, ◌==◌, leb, if◌then◌else◌}

-- `char::is_whitespace`.
abbrev pub is_whitespace : ℕ → Bool
is_whitespace c =
    (leb 9 c && leb c 13)
    || (c == 32)
    || (c == 133)
    || (c == 160)
    || (c == 5760)
    || (leb 8192 c && leb c 8202)
    || (c == 8232)
    || (c == 8233)
    || (c == 8239)
    || (c == 8287)
    || (c == 12288)

-- `char::is_control`.
abbrev pub is_control : ℕ → Bool
is_control c = leb c 31 || (leb 127 c && leb c 159)

abbrev pub is_blank : String → Bool
is_blank String.[] = true
is_blank (String.◌∷◌ c s) = false

-- `trim`, its start and its end.
unfoldable pub trim_start : String → String
trim_start String.[] = String.[]
trim_start (String.◌∷◌ c s) =
    let rest = trim_start s in if is_whitespace (code c) then rest else String.◌∷◌ c s

unfoldable pub trim_end : String → String
trim_end String.[] = String.[]
trim_end (String.◌∷◌ c s) =
    let rest = trim_end s in
    if is_blank rest && is_whitespace (code c) then String.[] else String.◌∷◌ c rest

unfoldable pub printable : String → String
printable String.[] = String.[]
printable (String.◌∷◌ c s) =
    let rest = printable s in if not (is_control (code c)) then String.◌∷◌ c rest else rest

unfoldable pub normalize_name : (String → String) → String → String
unfolding trim_start trim_end printable
normalize_name to_lowercase name = to_lowercase (printable (trim_end (trim_start name)))

abbrev pub last_message_max_chars : ℕ
last_message_max_chars = 500

-- `chars().take(n).collect()`.
unfoldable pub take_chars : ℕ → String → String
take_chars zero s = String.[]
take_chars (suc n) String.[] = String.[]
take_chars (suc n) (String.◌∷◌ c s) = String.◌∷◌ c (take_chars n s)

unfoldable pub truncate_last_message : String → String
unfolding take_chars
truncate_last_message content = take_chars last_message_max_chars content
