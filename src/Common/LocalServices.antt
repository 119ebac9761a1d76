-- ===== src/Common/LocalServices.antt =====
-- ts/src/common.ts: `runLocalServices`, what it reads from the output of `hc run-local-services`.
-- `new URL` is a parameter that gives the URL's text, and `none` where it throws.
use Prim.Native.Char.{Char, code}
use try_o_rama.Prelude.{
  ℕ, ◌≡◌, refl, ap, ◌∙◌, String, true, ◌&&◌, Option, none, some, List, [], ◌∷◌, arith,
}
use try_o_rama.Js.Text.{◌++◌, strip_prefix, append-nil}
use try_o_rama.Js.Exn.{Result, ok, err, type_error, ◌>>=◌}
use try_o_rama.Trycp.Conductor.ConfigShape.{lacks}

abbrev pub bootstrap_server_startup_string : String
bootstrap_server_startup_string = "HC BOOTSTRAP - ADDR: "

abbrev pub signaling_server_startup_string : String
signaling_server_startup_string = "HC SIGNAL - ADDR: "

-- The text behind the first occurrence of a pattern: `none` if `includes` is false.
unfoldable pub after_first : String → String → Option String
unfolding strip_prefix
after_first p String.[] = strip_prefix p ""
after_first p (String.◌∷◌ c s) =
    let rest = after_first p s in
    elim (strip_prefix p (String.◌∷◌ c s)) [ none ↦ rest | some t ↦ some t ]

-- The text in front of the first occurrence of a pattern, or all of it: `split(pattern)[0]`.
unfoldable pub up_to : String → String → String
unfolding strip_prefix
up_to p String.[] = ""
up_to p (String.◌∷◌ c s) =
    let rest = up_to p s in
    elim (strip_prefix p (String.◌∷◌ c s)) [ none ↦ String.◌∷◌ c rest | some t ↦ "" ]

-- The URL's text behind a startup string: `split(pattern)[1].split("\n")[0]`.
unfoldable pub address : String → String → Option String
unfolding after_first up_to
address p s = elim (after_first p s) [ none ↦ none | some t ↦ some (up_to "\n" (up_to p t)) ]

-- What the promise is resolved with, but for the process. The bootstrap URL may not be there.
pub record Started : Type 0 where
  pub bootstrap_server_url : Option String
  pub signaling_server_url : String

-- The variable of the listener, and the promise.
pub record Listening : Type 0 where
  pub bootstrap_server_url : Option String
  pub started : Option Started

module _ (new_url : String → Option String) where
  abbrev url_of : String → Result String
  url_of s = elim (new_url s) [ none ↦ err type_error | some u ↦ ok u ]

  abbrev read_bootstrap : Option String → Listening → Result Listening
  read_bootstrap none l = ok l
  read_bootstrap (some text) l = do
    url ← url_of text
    ok (record { bootstrap_server_url = some url; started = l.started })

  -- A promise that is resolved keeps its value.
  abbrev resolve : Listening → Started → Listening
  resolve l started = record {
    bootstrap_server_url = l.bootstrap_server_url;
    started = elim l.started [ none ↦ some started | some s ↦ some s ];
  }

  abbrev read_signaling : Option String → Listening → Result Listening
  read_signaling none l = ok l
  read_signaling (some text) l = do
    url ← url_of text
    ok (
        resolve l
          (record { bootstrap_server_url = l.bootstrap_server_url; signaling_server_url = url }))

  -- The listener of the process's output.
  unfoldable pub on_stdout : String → Listening → Result Listening
  unfolding address
  on_stdout text l = do
    l' ← read_bootstrap (address bootstrap_server_startup_string text) l
    read_signaling (address signaling_server_startup_string text) l'

  -- `runLocalServices` on the pieces of output that the process writes.
  unfoldable pub run_local_services : List String → Listening → Result Listening
  unfolding on_stdout
  run_local_services [] l = ok l
  run_local_services (text ∷ more) l = on_stdout text l >>= λ l'. run_local_services more l'

-- A text without the pattern's first character is passed over.
after_first_skip :
    (c : Char) (p s : String) → lacks (code c) s ≡ true → after_first (String.◌∷◌ c p) s ≡ none
unfolding lacks after_first
after_first_skip c p String.[] h = refl
after_first_skip c p (String.◌∷◌ d s) h = ground (arith, after_first_skip c p s)

up_to_skip :
    (c : Char) (p s t : String)
    → lacks (code c) s ≡ true
    → up_to (String.◌∷◌ c p) (s ++ t) ≡ s ++ up_to (String.◌∷◌ c p) t
unfolding lacks up_to ◌++◌
up_to_skip c p String.[] t h = refl
up_to_skip c p (String.◌∷◌ d s) t h = ground (arith, up_to_skip c p s t)

lacks-append : (n : ℕ) (s t : String) → lacks n (s ++ t) ≡ lacks n s && lacks n t
unfolding lacks ◌++◌
lacks-append n String.[] t = refl
lacks-append n (String.◌∷◌ c s) t = ground (arith, lacks-append n s t)

-- The output with an address that the two services print.
abbrev pub announce : String → String → String
announce startup url = startup ++ (url ++ "\n")

-- What is found in a text behind whose beginning the pattern's first character is missing.
abbrev found : String → Option String → Option String
found p none = none
found p (some t) = some (up_to "\n" (up_to p t))

lacks_line : (u : String) → lacks b'H' u ≡ true → lacks b'H' (u ++ "\n") ≡ true
unfolding lacks
lacks_line u h = lacks-append b'H' u "\n" ∙ ap (λ b. b && true) h

bootstrap_only :
    (u : String)
    → lacks b'H' u ≡ true
    → after_first signaling_server_startup_string (announce bootstrap_server_startup_string u)
      ≡ none
unfolding after_first ◌++◌
bootstrap_only u h = after_first_skip "H" "C SIGNAL - ADDR: " (u ++ "\n") (lacks_line u h)

signaling_only :
    (u : String)
    → lacks b'H' u ≡ true
    → after_first bootstrap_server_startup_string (announce signaling_server_startup_string u)
      ≡ none
unfolding after_first ◌++◌
signaling_only u h = after_first_skip "H" "C BOOTSTRAP - ADDR: " (u ++ "\n") (lacks_line u h)

up_to_none : (c : Char) (p s : String) → lacks (code c) s ≡ true → up_to (String.◌∷◌ c p) s ≡ s
unfolding lacks up_to
up_to_none c p String.[] h = refl
up_to_none c p (String.◌∷◌ d s) h = ground (arith, up_to_none c p s)

up_to_line : (u : String) → lacks b'\n' u ≡ true → up_to "\n" (u ++ "\n") ≡ u
unfolding up_to ◌++◌
up_to_line u h = up_to_skip "\n" "" u "\n" h ∙ append-nil u

found_line :
    (p u : String)
    → lacks b'H' u ≡ true
    → lacks b'\n' u ≡ true
    → found (String.◌∷◌ "H" p) (some (u ++ "\n")) ≡ some u
found_line p u h k =
    ap (λ t. some (up_to "\n" t)) (up_to_none "H" p (u ++ "\n") (lacks_line u h))
    ∙ ap some (up_to_line u k)

after_bootstrap :
    (t : String)
    → after_first bootstrap_server_startup_string (bootstrap_server_startup_string ++ t) ≡ some t
unfolding after_first ◌++◌
after_bootstrap t = refl

after_signaling :
    (t : String)
    → after_first signaling_server_startup_string (signaling_server_startup_string ++ t) ≡ some t
unfolding after_first ◌++◌
after_signaling t = refl

address-bootstrap :
    (u : String)
    → lacks b'H' u ≡ true
    → lacks b'\n' u ≡ true
    → (address bootstrap_server_startup_string (announce bootstrap_server_startup_string u)
        ≡ some u)
      × (address signaling_server_startup_string (announce bootstrap_server_startup_string u)
          ≡ none)
unfolding address
address-bootstrap u h k = (
  ap (found bootstrap_server_startup_string) (after_bootstrap (u ++ "\n"))
      ∙ found_line "C BOOTSTRAP - ADDR: " u h k,
  ap (found signaling_server_startup_string) (bootstrap_only u h),
)

address-signaling :
    (u : String)
    → lacks b'H' u ≡ true
    → lacks b'\n' u ≡ true
    → (address bootstrap_server_startup_string (announce signaling_server_startup_string u) ≡ none)
      × (address signaling_server_startup_string (announce signaling_server_startup_string u)
          ≡ some u)
unfolding address
address-signaling u h k = (
  ap (found bootstrap_server_startup_string) (signaling_only u h),
  ap (found signaling_server_startup_string) (after_signaling (u ++ "\n"))
      ∙ found_line "C SIGNAL - ADDR: " u h k,
)

module _ (new_url : String → Option String) where
  on_stdout-eq :
      (text : String) (l : Listening) {o p : Option String}
      → (address bootstrap_server_startup_string text ≡ o)
        × (address signaling_server_startup_string text ≡ p)
      → on_stdout new_url text l
        ≡ (read_bootstrap new_url o l >>= λ l'. read_signaling new_url p l')
  unfolding on_stdout
  on_stdout-eq text l {o} {p} (e, f) =
      ap
        (λ o. read_bootstrap new_url o l >>= λ l'.
          read_signaling new_url (address signaling_server_startup_string text) l')
        e
      ∙ ap (λ p. read_bootstrap new_url o l >>= λ l'. read_signaling new_url p l') f

  on_stdout-bootstrap :
      (u : String) {url : String} (l : Listening)
      → lacks b'H' u ≡ true
      → lacks b'\n' u ≡ true
      → new_url u ≡ some url
      → on_stdout new_url (announce bootstrap_server_startup_string u) l
        ≡ ok (record { bootstrap_server_url = some url; started = l.started })
  on_stdout-bootstrap u l h k e =
      on_stdout-eq (announce bootstrap_server_startup_string u) l (address-bootstrap u h k)
      ∙ ground (arith, e)

  on_stdout-signaling :
      (u : String) {url : String} (l : Listening)
      → lacks b'H' u ≡ true
      → lacks b'\n' u ≡ true
      → new_url u ≡ some url
      → on_stdout new_url (announce signaling_server_startup_string u) l
        ≡ ok (
            resolve new_url l (record {
              bootstrap_server_url = l.bootstrap_server_url;
              signaling_server_url = url;
            }))
  on_stdout-signaling u l h k e =
      on_stdout-eq (announce signaling_server_startup_string u) l (address-signaling u h k)
      ∙ ground (arith, e)

-- When the output consists of exactly two chunks, the first being the line with which the bootstrap
-- server announces its address, the second that of the signaling server, `run_local_services`
-- resolves with the two URLs, whatever the text of the addresses is, as long as it has no `H` and
-- no line break and is one of a URL.
pub run_local_services-announce :
    (new_url : String → Option String) (u v : String) {url other : String}
    → lacks b'H' u ≡ true
    → lacks b'\n' u ≡ true
    → lacks b'H' v ≡ true
    → lacks b'\n' v ≡ true
    → new_url u ≡ some url
    → new_url v ≡ some other
    → run_local_services new_url
        (announce bootstrap_server_startup_string u
          ∷ announce signaling_server_startup_string v
          ∷ [])
        (record { bootstrap_server_url = none; started = none })
      ≡ ok (record {
        bootstrap_server_url = some url;
        started = some (record { bootstrap_server_url = some url; signaling_server_url = other });
      })
unfolding run_local_services
run_local_services-announce new_url u v {url} {other} h k i j e f =
    ap (λ r. r >>= run_local_services new_url (announce signaling_server_startup_string v ∷ []))
      (on_stdout-bootstrap new_url u (record { bootstrap_server_url = none; started = none }) h k e)
    ∙ ap (λ r. r >>= run_local_services new_url [])
        (on_stdout-signaling new_url v (record { bootstrap_server_url = some url; started = none })
          i j f)
