-- ===== src/LocalConfig.antt =====
-- internal/localconfig/config.go: the link credential and the threshold of the client, in a file.
use ai_limit_notifier.Prelude.{ℕ, ◌||◌, if◌then◌else◌, Text, [], Option, none, some}
use ai_limit_notifier.Domain.{Float64, percent, float_le, float_lt}
use ai_limit_notifier.Files.{
  config_file, Io, ◌>>=◌, ◌>>◌, pure, read_file, or_malformed, other_call,
}
use ai_limit_notifier.Files.Replace.{replace_file}

pub record Config : Type 0 where
  pub schema_version : ℕ
  pub server_url : Text
  pub device_id : Text
  pub device_token : Text
  pub notification_threshold : Float64

-- `&Config{}`
abbrev pub zero_config : Config
zero_config = record {
  schema_version = 0;
  server_url = [];
  device_id = [];
  device_token = [];
  notification_threshold = percent 0;
}

unfoldable pub threshold : Config → Float64
threshold c =
    if float_le c.notification_threshold (percent 0)
      || float_lt (percent 100) c.notification_threshold
    then percent 80
    else c.notification_threshold

module _ (parse : Text → Option Config) (print : Config → Option Text) where
  abbrev pub parse_stored : Option Text → Io Config
  parse_stored none = pure zero_config
  parse_stored (some raw) = or_malformed (parse raw)

  unfoldable pub load : Io Config
  load = do raw ← read_file config_file; parse_stored raw

  -- The directory is made and its mode set before; the file's mode is 0600. A number that JSON
  -- cannot hold is an error.
  unfoldable pub save : Config → Io Unit
  save c = do other_call; other_call; raw ← or_malformed (print c); replace_file config_file raw 384
