-- ===== src/Commands.antt =====
-- cmd/ai-limit-notifier/main.go: the commands link and config, and the choice of the monitor's sink
-- and threshold.
pub mod Linking
use ai_limit_notifier.Prelude.{
  ℕ, zero, suc, Bool, true, false, not, ◌&&◌, ◌||◌, ◌==◌, if◌then◌else◌, Text, ascii, List, [], ◌∷◌,
  ◌++◌, take, Option, none, some,
}
use ai_limit_notifier.Domain.{Float64, percent, float_le, float_lt, is_nan}
use ai_limit_notifier.Store.Event.{same}
use ai_limit_notifier.Files.{
  Machine, Result, done, failed, killed, malformed, Io, ◌>>=◌, ◌>>◌, pure, fail, ask, call,
  or_malformed,
}
use ai_limit_notifier.LocalConfig.{Config, zero_config, load, save, threshold}
use ai_limit_notifier.Installer.Manifest.{Manifest, load_manifest}
use ai_limit_notifier.Installer.Unit.{unit_is_active, start_unit}
use ai_limit_notifier.Installer.Plan.{Json}
use ai_limit_notifier.Installer.Compute.{is_set}
use ai_limit_notifier.Installer.Apply.{or_exit, when}
use ai_limit_notifier.Api.Pair.{PairRequest}
use ai_limit_notifier.Sink.{
  HttpSink, new_sink, is_loopback_host, trim_slash, Exchange, no_answer, answer,
}

-- `if cfg, err := localconfig.Load(); err == nil { … }` with a value for an error.
abbrev pub or_value : {A B : Type 0} → (A → B) → B → Result A × Machine → Result B × Machine
or_value f b (done a, m) = (done (f a), m)
or_value f b (failed e, m) = (done b, m)
or_value f b (killed, m) = (killed, m)

unfoldable pub restart_unit : Io Unit
restart_unit = call (λ m. record m { unit_active = true })

-- The environment variables, the platform and whether `systemctl --user` can be used.
pub record Shell : Type 0 where
  pub env_server_url : Text
  pub env_device_token : Text
  pub platform : Text
  pub client_version : Text
  pub shell_systemd : Bool

-- `isLoopbackHostname`, and the check of the address in pairWithServer.
abbrev pub is_loopback_hostname : Text → Bool
is_loopback_hostname host = is_loopback_host host

abbrev pub allowed : Option (Text × Text) → Bool
allowed none = false
allowed (some (scheme, host)) = same scheme (ascii "https") || is_loopback_hostname host

abbrev pub confirmed : Option (Bool × Text × Text) → Option (Text × Text)
confirmed none = none
confirmed (some (linked, device_id, token)) =
    if not linked || not (is_set device_id) || not (is_set token)
    then none
    else some (device_id, token)

abbrev pub pair_answer : (Text → Option (Bool × Text × Text)) → Exchange → Option (Text × Text)
pair_answer parse_paired no_answer = none
pair_answer parse_paired (answer status none) = none
pair_answer parse_paired (answer status (some raw)) =
    if not (status == 200) then none else confirmed (parse_paired (take 8192 raw))

-- An error of systemctl is only printed.
abbrev pub passed_over : Result Unit × Machine → Result Unit × Machine
passed_over (done u, m) = (done u, m)
passed_over (failed e, m) = (done tt, m)
passed_over (killed, m) = (killed, m)

abbrev pub with_threshold : Config → Float64 → Config
with_threshold c n = record c {
  notification_threshold = n;
  schema_version = if c.schema_version == 0 then 1 else c.schema_version;
}

abbrev pub is_threshold : Float64 → Bool
is_threshold n = not (float_le n (percent 0) || float_lt (percent 100) n)

module _ (j : Json) (parse_url : Text → Option (Text × Text)) (shell : Shell) where
  abbrev pub saved_or : {B : Type 0} → (Config → B) → B → Io B
  saved_or f b m = or_value f b (load j.parse_config j.print_config m)

  unfoldable pub resolve_server_url : Text → Io Text
  resolve_server_url flag =
      if is_set flag
      then pure flag
      else if is_set shell.env_server_url
      then pure shell.env_server_url
      else saved_or (λ c. c.server_url) []

  unfoldable pub resolve_device_token : Io Text
  resolve_device_token =
      if is_set shell.env_device_token
      then pure shell.env_device_token
      else saved_or (λ c. c.device_token) []

  -- `--threshold` is a NaN unless it is given.
  unfoldable pub resolve_monitor_threshold : Float64 → Io Float64
  resolve_monitor_threshold flag =
      if not (is_nan flag) then pure flag else saved_or threshold (percent 80)

  -- `none` is the sink that prints and never sends.
  unfoldable pub resolve_monitor_sink : Bool → Text → Io (Option HttpSink)
  resolve_monitor_sink dry_run server_url =
      if dry_run then pure none else if not (is_set server_url) then fail malformed else do
        token ← resolve_device_token
        if not (is_set token)
            then fail malformed
            else do sink ← or_malformed (new_sink parse_url server_url token); pure (some sink)

  unfoldable pub pair_payload : Text → PairRequest
  pair_payload code = record {
    code = code;
    client_version = shell.client_version;
    platform = shell.platform;
  }

  -- The identifier and the token of the device, or an error; `exchange` is what becomes of posting
  -- the payload to the address.
  unfoldable pub pair_with_server :
      (Text → Option (Bool × Text × Text))
      → (Text → PairRequest → Exchange)
      → Text
      → Text
      → Option (Text × Text)
  unfolding pair_payload
  pair_with_server parse_paired exchange server_url code =
      if not (allowed (parse_url server_url))
      then none
      else pair_answer parse_paired
          (exchange (trim_slash server_url ++ ascii "/api/v1/pair") (pair_payload code))

  abbrev pub activate_found : Option Manifest → Io Unit
  activate_found none = pure tt
  activate_found (some mf) = do
    available ← ask (λ m. shell.shell_systemd)
    if not available then pure tt else do
      active ← unit_is_active
      λ m. passed_over ((if active then restart_unit else start_unit) m)

  unfoldable pub activate_installed_service : Io Unit
  activate_installed_service = do
    manifest ← λ m. or_value (λ mf. mf) none (load_manifest j.parse_manifest j.print_manifest m)
    activate_found manifest

  -- The command `link` with its code and flag: the exit status.
  unfoldable pub run_link :
      (Text → Option (Bool × Text × Text)) → (Text → PairRequest → Exchange) → Text → Text → Io ℕ
  run_link parse_paired exchange flag code = do
    server_url ← resolve_server_url flag
    if not (is_set server_url)
        then pure 3
        else or_exit (or_malformed (pair_with_server parse_paired exchange server_url code))
            λ device. do
              prior ← saved_or (λ c. c.notification_threshold) (percent 0)
              or_exit
                  (save j.parse_config j.print_config (record {
                    schema_version = 1;
                    server_url = server_url;
                    device_id = device.0;
                    device_token = device.1;
                    notification_threshold = prior;
                  }))
                  λ _. do activate_installed_service; pure 0

  -- `config threshold N`
  unfoldable pub set_threshold : Option Float64 → Io ℕ
  set_threshold none = pure 3
  set_threshold (some n) =
      if not (is_threshold n)
      then pure 3
      else or_exit (load j.parse_config j.print_config)
          λ c. or_exit (save j.parse_config j.print_config (with_threshold c n)) λ _. pure 0

  -- The command `config`; `parse_float` is strconv.ParseFloat. Without arguments it loads the file
  -- to show the threshold.
  unfoldable pub run_config : (Text → Option Float64) → List Text → Io ℕ
  run_config parse_float [] = saved_or (λ c. 0) 0
  run_config parse_float (a ∷ []) = pure 3
  run_config parse_float (a ∷ b ∷ []) =
      if not (same a (ascii "threshold")) then pure 3 else set_threshold (parse_float b)
  run_config parse_float (a ∷ b ∷ c ∷ r) = pure 3
