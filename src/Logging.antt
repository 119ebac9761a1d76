-- ===== src/Logging.antt =====
-- ts/src/logger.ts and ts/src/env.ts: the loggers, as what they give to `winston`.
use Prim.Native.String.{String}
use try_o_rama.Prelude.{ℕ, List, [], ◌∷◌, Option, none, some, str_eq, if◌then◌else◌}
use try_o_rama.Js.Text.{◌++◌}

-- A line of a log: what `format.printf` gets.
pub record Info : Type 0 where
  pub level : String
  pub message : String
  pub label : String
  pub timestamp : String

-- `myFormat`
unfoldable pub my_format : Info → String
my_format i = i.timestamp ++ (" [" ++ (i.label ++ ("] " ++ (i.level ++ (": " ++ i.message)))))

pub record Logger : Type 0 where
  pub levels : List (String × ℕ)
  pub label : String
  -- the level of the console
  pub level : String

-- `process.env.TRYORAMA_LOG_LEVEL || "info"`
unfoldable pub log_level : Option String → String
log_level none = "info"
log_level (some l) = if str_eq l "" then "info" else l

abbrev pub label_text : Option String → String
label_text none = "Tryorama"
label_text (some l) = if str_eq l "" then "Tryorama" else "Tryorama - " ++ l

-- `makeLogger`, in an environment with or without a log level.
unfoldable pub make_logger : Option String → Option String → Logger
unfolding log_level
make_logger env label = record {
  levels =
      ("error", 0) ∷ ("warn", 1) ∷ ("info", 2) ∷ ("verbose", 3) ∷ ("debug", 4) ∷ ("silly", 5) ∷ [];
  label = label_text label;
  level = log_level env;
}
