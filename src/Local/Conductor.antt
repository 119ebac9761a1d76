-- ===== src/Local/Conductor.antt =====
-- ts/src/local/conductor.ts: the class `Conductor`. Processes, websockets and `JSON.parse` are
-- parameters.
use try_o_rama.Prelude.{
  ℕ, String, Bool, true, false, not, ◌&&◌, List, [], ◌∷◌, ◌++◌, Option, none, some, str_eq,
  if◌then◌else◌,
}
use try_o_rama.Js.Value.{Value, is_some}
use try_o_rama.Js.Exn.{Result, ok, err, error, assertion_error, codec_error, never, refused, read}
use try_o_rama.Js.Action.{Action, pure, ◌>>=◌, ◌>>◌, lift}
use try_o_rama.Local.Output.{config_root_path, conductor_launched}

abbrev pub default_timeout : ℕ
default_timeout = 60000

pub data NetworkType : Type 0 where
  web_rtc mem : NetworkType

-- `CreateConductorOptions`; a URL is its text.
pub record CreateConductorOptions : Type 0 where
  pub bootstrap_server_url : Option String
  pub network_type : Option NetworkType
  pub timeout : Option ℕ

-- The fields of `Conductor`: a process by its id, an admin or app websocket by a number, the URL of
-- the admin interface by its port.
pub record Conductor : Type 0 where
  pub conductor_process : Option ℕ
  pub conductor_dir : Option String
  pub admin_port : Option Value
  pub admin_ws_field : Option ℕ
  pub app_ws_field : Option ℕ
  pub timeout : ℕ

abbrev pub new_conductor : Option ℕ → Conductor
new_conductor t = record {
  conductor_process = none;
  conductor_dir = none;
  admin_port = none;
  admin_ws_field = none;
  app_ws_field = none;
  timeout = elim t [ none ↦ default_timeout | some n ↦ n ];
}

abbrev network_name : NetworkType → String
network_name web_rtc = "webrtc"
network_name mem = "mem"

abbrev network_or_default : Option NetworkType → NetworkType
network_or_default none = web_rtc
network_or_default (some n) = n

abbrev bootstrap_args : Option String → List String
bootstrap_args none = []
bootstrap_args (some url) = "--bootstrap" ∷ url ∷ []

abbrev signal_args : String → NetworkType → List String
signal_args url web_rtc = url ∷ []
signal_args url mem = []

abbrev is_web_rtc : NetworkType → Bool
is_web_rtc web_rtc = true
is_web_rtc mem = false

-- The arguments with which `create` runs `hc`.
unfoldable pub create_args : String → CreateConductorOptions → Result (List String)
create_args signaling_server_url o =
    let network = network_or_default o.network_type in
    if is_some o.bootstrap_server_url && not (is_web_rtc network)
    then err
        (error "error creating conductor: bootstrap service can only be set for webrtc network")
    else ok (
        ("sandbox" ∷ "--piped" ∷ "create" ∷ "--in-process-lair" ∷ "network" ∷ [])
        ++ bootstrap_args o.bootstrap_server_url
        ++ network_name network ∷ signal_args signaling_server_url network)

abbrev pub with_process : ℕ → Value → Conductor → Conductor
with_process pid port c = record {
  conductor_process = some pid;
  conductor_dir = c.conductor_dir;
  admin_port = some port;
  admin_ws_field = c.admin_ws_field;
  app_ws_field = c.app_ws_field;
  timeout = c.timeout;
}

abbrev pub with_admin_ws : Option ℕ → Conductor → Conductor
with_admin_ws ws c = record {
  conductor_process = c.conductor_process;
  conductor_dir = c.conductor_dir;
  admin_port = c.admin_port;
  admin_ws_field = ws;
  app_ws_field = c.app_ws_field;
  timeout = c.timeout;
}

abbrev pub without_app_ws : Conductor → Conductor
without_app_ws c = record {
  conductor_process = c.conductor_process;
  conductor_dir = c.conductor_dir;
  admin_port = c.admin_port;
  admin_ws_field = c.admin_ws_field;
  app_ws_field = none;
  timeout = c.timeout;
}

abbrev pub without_process : Conductor → Conductor
without_process c = record {
  conductor_process = none;
  conductor_dir = c.conductor_dir;
  admin_port = c.admin_port;
  admin_ws_field = c.admin_ws_field;
  app_ws_field = c.app_ws_field;
  timeout = c.timeout;
}

-- `assert(this.conductorDir, ...)` fails on the empty text too.
abbrev pub dir_of : Option String → Result String
dir_of none = err (assertion_error "error starting conductor: conductor has not been created")
dir_of (some d) =
    if str_eq d ""
    then err (assertion_error "error starting conductor: conductor has not been created")
    else ok d

-- `getTmpDirectory`
unfoldable pub get_tmp_directory : Conductor → Result String
get_tmp_directory c = elim c.conductor_dir [
  | none ↦ err (assertion_error "")
  | some d ↦ if str_eq d "" then err (assertion_error "") else ok d
]

-- `adminWs`
unfoldable pub admin_ws : Conductor → Result ℕ
admin_ws c = elim c.admin_ws_field [
  | none ↦ err (assertion_error "admin ws has not been connected")
  | some ws ↦ ok ws
]

-- What the process of `create` does.
pub data CreateEvent : Type 0 where
  stdout : String → CreateEvent
  stdout_end : CreateEvent
  stderr : Value → CreateEvent

abbrev pub with_dir : Option String → Conductor → Conductor
with_dir none c = c
with_dir (some d) c = record {
  conductor_process = c.conductor_process;
  conductor_dir = some d;
  admin_port = c.admin_port;
  admin_ws_field = c.admin_ws_field;
  app_ws_field = c.app_ws_field;
  timeout = c.timeout;
}

-- A promise is settled once: by the end of the output, or with an error that was written.
abbrev settle : Result (Unit {0}) → Option (Result (Unit {0})) → Option (Result (Unit {0}))
settle r none = some r
settle r (some s) = some s

unfoldable pub on_create_event :
    CreateEvent → Conductor × Option (Result (Unit {0})) → Conductor × Option (Result (Unit {0}))
unfolding config_root_path
on_create_event (stdout text) (c, settled) = (with_dir (config_root_path text) c, settled)
on_create_event stdout_end (c, settled) = (c, settle (ok tt) settled)
on_create_event (stderr v) (c, settled) = (c, settle (err (refused v)) settled)

unfoldable pub on_create_events :
    List CreateEvent
    → Conductor × Option (Result (Unit {0}))
    → Conductor × Option (Result (Unit {0}))
unfolding on_create_event
on_create_events [] s = s
on_create_events (e ∷ es) s = on_create_events es (on_create_event e s)

-- The process and websockets that a conductor uses.
pub record Host (W : Type 0) : Type 0 where
  -- `spawn("hc", args)` of `create`, with all that the process does
  pub hc_create : List String → W → List CreateEvent × W
  -- `hc sandbox --piped run -e` on a directory: the process and the pieces of its output
  pub hc_run : String → W → (ℕ × List String) × W
  pub parse_json : String → Option Value
  -- `AdminWebsocket.connect`, at a port, with the default timeout
  pub connect_admin : Option Value → ℕ → Action W ℕ
  -- `client.close` of a websocket
  pub close : ℕ → Action W ℕ
  -- the interrupt of a process, and its exit code
  pub interrupt : ℕ → Action W (Option ℕ)

abbrev created : Conductor × Option (Result (Unit {0})) → Result Conductor
created (c, none) = err never
created (c, some (ok u)) = ok c
created (c, some (err e)) = err e

-- `options?.startup !== false`
abbrev starts : Option Bool → Bool
starts (some false) = false
starts (some true) = true
starts none = true

module _ {W : Type 0} (h : Host W) where
  unfoldable pub create : String → CreateConductorOptions → Action W Conductor
  unfolding create_args on_create_events
  create signaling_server_url o w = elim (create_args signaling_server_url o) [
    | err e ↦ (err e, w)
    | ok args ↦
        let (events, w') = h.hc_create args w in
        (created (on_create_events events (new_conductor o.timeout, none)), w')
  ]

  -- `JSON.parse` of the launch line, and the property read of it.
  abbrev admin_port_of : String → Result Value
  admin_port_of text = elim (h.parse_json text) [
    | none ↦ err codec_error
    | some v ↦ read "admin_port" v
  ]

  -- The listener of the output, piece by piece, until the promise is resolved: the port, or none if
  -- the output ends before. An exception of the listener is not caught.
  unfoldable pub await_launch : List String → Result Value
  unfolding conductor_launched
  await_launch [] = err never
  await_launch (text ∷ more) =
      let rest = await_launch more in
      elim (conductor_launched text) [ none ↦ rest | some ports ↦ admin_port_of ports ]

  -- A call of the surroundings from a method.
  abbrev pub outside : {A : Type 0} → Action W A → Action (Conductor × W) A
  outside f (c, w) = let (r, w') = f w in (r, (c, w'))

  abbrev pub update : (Conductor → Conductor) → Action (Conductor × W) (Unit {0})
  update f (c, w) = (ok tt, (f c, w))

  unfoldable pub connect_admin_ws : Action (Conductor × W) (Unit {0})
  connect_admin_ws (c, w) =
      (do ws ← outside (h.connect_admin c.admin_port c.timeout); update (with_admin_ws (some ws)))
        (c, w)

  abbrev pub run_process : String → Action W (ℕ × List String)
  run_process dir w = let (r, w') = h.hc_run dir w in (ok r, w')

  -- `startUp` once the guards are passed.
  unfoldable pub launch : String → Action (Conductor × W) (Unit {0})
  unfolding await_launch connect_admin_ws
  launch dir = do
    process ← outside (run_process dir)
    port ← lift (await_launch process.1)
    update (with_process process.0 port)
    connect_admin_ws

  abbrev pub start_in : Result String → Action (Conductor × W) (Unit {0})
  start_in (err e) s = (err e, s)
  start_in (ok dir) s = if is_some (s.0).conductor_process then (ok tt, s) else launch dir s

  unfoldable pub start_up : Action (Conductor × W) (Unit {0})
  unfolding launch
  start_up s = start_in (dir_of (s.0).conductor_dir) s

  abbrev pub close_app_ws : Option ℕ → Action (Conductor × W) (Unit {0})
  close_app_ws none = pure tt
  close_app_ws (some ws) = do outside (h.close ws); update without_app_ws

  -- `shutDown` with its process and its admin websocket.
  unfoldable pub stop : ℕ → ℕ → Option ℕ → Action (Conductor × W) (Option ℕ)
  stop pid admin app = do
    outside (h.close admin)
    update (with_admin_ws none)
    close_app_ws app
    code ← outside (h.interrupt pid)
    update without_process
    pure code

  -- `shutDown`, on the process and the websockets that there are.
  abbrev pub shut_down_with : Option ℕ → Option ℕ → Option ℕ → Action (Conductor × W) (Option ℕ)
  shut_down_with none admin app s = (ok none, s)
  shut_down_with (some pid) none app s =
      (err (assertion_error "admin websocket is not connected"), s)
  shut_down_with (some pid) (some admin) app s = stop pid admin app s

  unfoldable pub shut_down : Action (Conductor × W) (Option ℕ)
  unfolding stop
  shut_down s = shut_down_with (s.0).conductor_process (s.0).admin_ws_field (s.0).app_ws_field s

  -- A method of a conductor that is returned if the method returns, and is lost if it throws.
  abbrev pub finishing : Action (Conductor × W) (Unit {0}) → Conductor → Action W Conductor
  finishing m c w =
      let (r, (c', w')) = m (c, w) in elim r [ ok u ↦ (ok c', w') | err e ↦ (err e, w') ]

  -- `createConductor`, with the options that `pick` keeps and the one that switches the start off.
  unfoldable pub create_conductor :
      String → CreateConductorOptions → Option Bool → Action W Conductor
  unfolding create start_up
  create_conductor signaling_server_url o startup = do
    c ← create signaling_server_url o
    if starts startup then finishing start_up c else pure c
