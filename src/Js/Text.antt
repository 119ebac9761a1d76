-- ===== src/Js/Text.antt =====
-- `String.prototype.replace` with a text for a pattern, and the removal of escaped line breaks.
use Prim.Native.Char.{Char, code}
use Prim.Native.String.{String}
use try_o_rama.Prelude.{◌≡◌, refl, ap, ◌&&◌, Option, none, some, ◌==◌, if◌then◌else◌}

-- The concatenation of texts, by clauses, so that it computes along its first argument.
infixr 65 ◌++◌
unfoldable pub ◌++◌ : String → String → String
String.[] ++ t = t
(String.◌∷◌ c s) ++ t = String.◌∷◌ c (s ++ t)

pub append-nil : (s : String) → s ++ "" ≡ s
unfolding ◌++◌
append-nil String.[] = refl
append-nil (String.◌∷◌ c s) = ap (String.◌∷◌ c) (append-nil s)

pub append_assoc : (s t u : String) → (s ++ t) ++ u ≡ s ++ (t ++ u)
unfolding ◌++◌
append_assoc String.[] t u = refl
append_assoc (String.◌∷◌ c s) t u = ap (String.◌∷◌ c) (append_assoc s t u)

-- The text behind a prefix, if the prefix is there.
unfoldable pub strip_prefix : String → String → Option String
strip_prefix String.[] s = some s
strip_prefix (String.◌∷◌ c p) String.[] = none
strip_prefix (String.◌∷◌ c p) (String.◌∷◌ d s) = if code c == code d then strip_prefix p s else none

-- The character behind a `$` in a replacement: `$$` is a dollar sign, `$&` the match, and the two
-- quotes stand for what is before and behind it. Any other dollar sign is itself, since the pattern
-- has no groups.
unfoldable pub dollar : String → String → String → Char → Option String
dollar before match after c =
    if code c == b'$'
    then some "$"
    else (if code c == b'&'
        then some match
        else (if code c == b'`'
            then some before
            else (if code c == b'\'' then some after else none)))

unfoldable pub expand : String → String → String → String → String
unfolding dollar ◌++◌
expand before match after String.[] = ""
expand before match after (String.◌∷◌ c String.[]) = String.◌∷◌ c ""
expand before match after (String.◌∷◌ c (String.◌∷◌ d s)) =
    let rest = expand before match after (String.◌∷◌ d s) in
    let skip = expand before match after s in
    if code c == b'$'
    then (elim (dollar before match after d) [
      | none ↦ String.◌∷◌ c rest
      | some text ↦ text ++ skip
    ])
    else String.◌∷◌ c rest

-- The rest of a text with the first occurrence of the pattern replaced, where `before` has been
-- passed.
unfoldable pub replace_from : String → String → String → String → String
unfolding strip_prefix expand ◌++◌
replace_from before pattern replacement String.[] = elim (strip_prefix pattern "") [
  | none ↦ ""
  | some after ↦ expand before pattern after replacement ++ after
]
replace_from before pattern replacement (String.◌∷◌ c s) =
    let rest = replace_from (before ++ String.◌∷◌ c "") pattern replacement s in
    elim (strip_prefix pattern (String.◌∷◌ c s)) [
      | none ↦ String.◌∷◌ c rest
      | some after ↦ expand before pattern after replacement ++ after
    ]

-- `s.replace(pattern, replacement)`
unfoldable pub replace : String → String → String → String
unfolding replace_from
replace s pattern replacement = replace_from "" pattern replacement s

-- `s.replace(/\\\\n/g, "")`: every backslash with an `n` behind it goes.
unfoldable pub remove_escaped_newlines : String → String
remove_escaped_newlines String.[] = ""
remove_escaped_newlines (String.◌∷◌ c String.[]) = String.◌∷◌ c ""
remove_escaped_newlines (String.◌∷◌ c (String.◌∷◌ d s)) =
    let rest = remove_escaped_newlines (String.◌∷◌ d s) in
    let skip = remove_escaped_newlines s in
    if code c == 92 && code d == b'n' then skip else String.◌∷◌ c rest
