-- ===== src/Trycp/Conductor/ConfigShape.antt =====
-- The text that `getPartialConfig` makes, for addresses of any kind.
use Prim.Native.Char.{Char, code}
use Prim.Native.String.{String}
use try_o_rama.Prelude.{ℕ, ◌≡◌, refl, sym, ap, ◌∙◌, Bool, true, ◌&&◌, not, some, arith, ◌==◌}
use try_o_rama.Js.Text.{◌++◌, append-nil, append_assoc, expand, replace_from, replace}
use try_o_rama.Trycp.Conductor.Config.{
  bootstrap_server_placeholder, signaling_server_placeholder, dpki_config_placeholder, config_head,
  config_network, config_transport, default_partial_player_config, dpki_config, get_partial_config,
}

-- No character of the text has the code `n`.
unfoldable pub lacks : ℕ → String → Bool
lacks n String.[] = true
lacks n (String.◌∷◌ c s) = not (code c == n) && lacks n s

-- A replacement without dollar signs is put in as it is.
expand_plain :
    (before match after r : String) → lacks b'$' r ≡ true → expand before match after r ≡ r
unfolding lacks expand
expand_plain before match after String.[] h = refl
expand_plain before match after (String.◌∷◌ c String.[]) h = refl
expand_plain before match after (String.◌∷◌ c (String.◌∷◌ d r)) h =
    ground (arith, expand_plain before match after (String.◌∷◌ d r))

-- A text without the pattern's first character is passed over.
replace_from_skip :
    (before p r t : String) (c : Char) (s : String)
    → lacks (code c) s ≡ true
    → replace_from before (String.◌∷◌ c p) r (s ++ t)
      ≡ s ++ replace_from (before ++ s) (String.◌∷◌ c p) r t
unfolding lacks replace_from ◌++◌
replace_from_skip before p r t c String.[] h =
    ap (λ b. replace_from b (String.◌∷◌ c p) r t) (sym (append-nil before))
replace_from_skip before p r t c (String.◌∷◌ d s) h = ground (
  arith,
  replace_from_skip (before ++ String.◌∷◌ d "") p r t c s,
  append_assoc before (String.◌∷◌ d "") s,
)

-- What is before the bootstrap placeholder, and what is behind it.
abbrev front : String
front = config_head ++ (dpki_config_placeholder ++ config_network)

abbrev back : String
back = config_transport ++ signaling_server_placeholder

first_replacement :
    (b : String)
    → replace default_partial_player_config bootstrap_server_placeholder b
      ≡ front ++ (expand front bootstrap_server_placeholder back b ++ back)
unfolding default_partial_player_config replace
first_replacement b = refl

pass_front :
    (s t : String)
    → replace (front ++ t) signaling_server_placeholder s
      ≡ front ++ replace_from front signaling_server_placeholder s t
unfolding replace
pass_front s t = refl

hit_end :
    (before s : String)
    → replace_from before signaling_server_placeholder s signaling_server_placeholder
      ≡ expand before signaling_server_placeholder "" s ++ ""
unfolding replace_from
hit_end before s = refl

hit_signaling :
    (before s : String)
    → lacks b'$' s ≡ true
    → replace_from before signaling_server_placeholder s back ≡ config_transport ++ s
hit_signaling before s h =
    replace_from_skip before _ s signaling_server_placeholder "<" config_transport
      (unfold lacks in refl)
    ∙ ap (λ t. config_transport ++ t)
        (hit_end (before ++ config_transport) s
          ∙ (append-nil _ ∙ expand_plain _ signaling_server_placeholder "" s h))

third_replacement :
    (d t : String)
    → replace (front ++ t) dpki_config_placeholder d
      ≡ config_head
        ++ (expand config_head dpki_config_placeholder (config_network ++ t) d
            ++ (config_network ++ t))
unfolding replace
third_replacement d t = refl

-- If the two addresses and the section for DPKI have no dollar sign, and the bootstrap address no
-- `<`, then the configuration is the default one with that section, the bootstrap address and the
-- signaling address each in the place of its placeholder.
pub get_partial_config_shape :
    (no_dpki : Bool) (seed b s : String)
    → lacks b'$' (dpki_config no_dpki seed) ≡ true
    → lacks b'$' b ≡ true
    → lacks b'<' b ≡ true
    → lacks b'$' s ≡ true
    → get_partial_config no_dpki seed (some b) (some s)
      ≡ config_head
        ++ (dpki_config no_dpki seed ++ (config_network ++ (b ++ (config_transport ++ s))))
unfolding get_partial_config replace
get_partial_config_shape no_dpki seed b s seed_plain b_plain b_closed s_plain =
    ap (λ t. replace (replace t signaling_server_placeholder s) dpki_config_placeholder d)
      (first_replacement b ∙ ap (λ t. front ++ (t ++ back)) (expand_plain _ _ back b b_plain))
    ∙ (ap (λ t. replace t dpki_config_placeholder d)
          (pass_front s (b ++ back)
            ∙ ap (λ t. front ++ t)
                (replace_from_skip front _ s back "<" b b_closed
                  ∙ ap (λ t. b ++ t) (hit_signaling (front ++ b) s s_plain)))
        ∙ (third_replacement d rest
            ∙ ap (λ t. config_head ++ (t ++ (config_network ++ rest)))
                (expand_plain _ _ (config_network ++ rest) d seed_plain)))
  where
    d : String
    d = dpki_config no_dpki seed

    rest : String
    rest = b ++ (config_transport ++ s)
