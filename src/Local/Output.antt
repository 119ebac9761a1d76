-- ===== src/Local/Output.antt =====
-- The two regular expressions by which a local conductor reads what `hc` prints.
use Prim.Native.Char.{Char, code}
use try_o_rama.Prelude.{String, Bool, ◌&&◌, ◌||◌, Option, none, some, leb, ◌==◌, if◌then◌else◌}
use try_o_rama.Js.Text.{strip_prefix}

-- What `.` does not match.
abbrev ends_line : Char → Bool
ends_line c = (code c == 10) || (code c == 13) || (code c == 8232) || (code c == 8233)

abbrev is_digit : Char → Bool
is_digit c = leb b'0' (code c) && leb (code c) b'9'

abbrev prepend : Char → Option String → Option String
prepend c none = none
prepend c (some s) = some (String.◌∷◌ c s)

abbrev or_retry : Option String → Option String → Option String
or_retry none rest = rest
or_retry (some s) rest = some s

-- `(.*?)"\)`: the shortest text of the line in front of a quote and a parenthesis.
unfoldable pub quoted : String → Option String
unfolding strip_prefix
quoted String.[] = none
quoted (String.◌∷◌ c s) =
    let rest = quoted s in
    elim (strip_prefix "\")" (String.◌∷◌ c s)) [
      | some t ↦ some ""
      | none ↦ if ends_line c then none else prepend c rest
    ]

-- `({.*})` behind its first brace: the longest text of the line up to a closing brace.
unfoldable pub braced : String → Option String
braced String.[] = none
braced (String.◌∷◌ c s) =
    let rest = braced s in
    if ends_line c
    then none
    else or_retry (prepend c rest) (if code c == b'}' then some "}" else none)

-- `\d ({.*})`
abbrev pub ports : String → Option String
ports (String.◌∷◌ d (String.◌∷◌ b (String.◌∷◌ c s))) =
    if is_digit d && (code b == b' ') && (code c == b'{') then prepend c (braced s) else none
ports s = none

-- The group of the first match of `ConfigRootPath\("(.*?)"\)`.
unfoldable pub config_root_path : String → Option String
unfolding strip_prefix quoted
config_root_path String.[] = none
config_root_path (String.◌∷◌ c s) =
    let rest = config_root_path s in
    elim (strip_prefix "ConfigRootPath(\"" (String.◌∷◌ c s)) [
      | some t ↦ or_retry (quoted t) rest
      | none ↦ rest
    ]

-- The group of the first match of `Conductor launched #!\d ({.*})`.
unfoldable pub conductor_launched : String → Option String
unfolding strip_prefix braced
conductor_launched String.[] = none
conductor_launched (String.◌∷◌ c s) =
    let rest = conductor_launched s in
    elim (strip_prefix "Conductor launched #!" (String.◌∷◌ c s)) [
      | some t ↦ or_retry (ports t) rest
      | none ↦ rest
    ]
