-- ===== src/Trycp/Conductor/Config.antt =====
-- The configuration that a TryCP conductor is given when the caller brings none (`getPartialConfig`
-- of ts/src/trycp/conductor/conductor.ts). A `URL` is its `href`.
use Prim.Native.String.{String}
use try_o_rama.Prelude.{Bool, true, false, Option, none, some}
use try_o_rama.Js.Text.{◌++◌, replace}

abbrev pub holo_signaling_server : String
holo_signaling_server = "wss://sbd-0.main.infra.holo.host/"

abbrev pub holo_bootstrap_server : String
holo_bootstrap_server = "https://devnet-bootstrap.holo.host/"

abbrev pub bootstrap_server_placeholder : String
bootstrap_server_placeholder = "<bootstrap_server_url>"

abbrev pub signaling_server_placeholder : String
signaling_server_placeholder = "<signaling_server_url>"

abbrev pub dpki_config_placeholder : String
dpki_config_placeholder = "<dpki_config>"

-- The three stretches of `DEFAULT_PARTIAL_PLAYER_CONFIG` between its placeholders.
abbrev pub config_head : String
config_head =
    "signing_service_uri: ~\nencryption_service_uri: ~\ndecryption_service_uri: ~\ndevice_seed_lair_tag: null\ndanger_generate_throwaway_device_seed: false\n"

abbrev pub config_network : String
config_network = "\nnetwork:\n  network_type: \"quic_bootstrap\"\n  bootstrap_service: "

abbrev pub config_transport : String
config_transport = "\n  transport_pool:\n    - type: webrtc\n      signal_url: "

unfoldable pub default_partial_player_config : String
unfolding ◌++◌
default_partial_player_config =
    config_head
    ++ (dpki_config_placeholder
        ++ (config_network
            ++ (bootstrap_server_placeholder
                ++ (config_transport ++ signaling_server_placeholder))))

unfoldable pub dpki_config : Bool → String → String
unfolding ◌++◌
dpki_config true seed = "dpki:\n  dna_path: ~\n  network_seed: ~\n  no_dpki: true"
dpki_config false seed =
    "dpki:\n  dna_path: ~\n  network_seed: "
    ++ (seed ++ "\n  allow_throwaway_random_dpki_agent_key: true\n  no_dpki: false")

abbrev pub or_default : Option String → String → String
or_default none d = d
or_default (some s) d = s

unfoldable pub get_partial_config : Bool → String → Option String → Option String → String
unfolding dpki_config replace default_partial_player_config
get_partial_config no_dpki seed bootstrap signaling =
    replace
      (replace
        (replace default_partial_player_config bootstrap_server_placeholder
          (or_default bootstrap holo_bootstrap_server))
        signaling_server_placeholder (or_default signaling holo_signaling_server))
      dpki_config_placeholder (dpki_config no_dpki seed)
