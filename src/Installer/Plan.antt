-- ===== src/Installer/Plan.antt =====
-- internal/installer/plan.go: what an installation or its removal would do.
use ai_limit_notifier.Prelude.{
  Bool, true, false, not, ◌&&◌, ◌||◌, if◌then◌else◌, ltb, length, take, Text, ascii, [], ◌++◌,
  Option, none, some,
}
use ai_limit_notifier.Store.Event.{same}
use ai_limit_notifier.LocalConfig.{Config}
use ai_limit_notifier.Installer.Manifest.{Manifest, Before}
use ai_limit_notifier.Installer.Settings.{SettingsJson}
use ai_limit_notifier.Installer.Unit.{Verification, generate_unit}
use ai_limit_notifier.Installer.StatusLine.{
  StatusLineState, absent, existing_non_notifier, notifier_with_original, malformed,
  classify_status_line, build_status_line_command,
}

-- The uses of encoding/json.
pub record Json : Type 0 where
  pub parse_config : Text → Option Config
  pub print_config : Config → Option Text
  pub parse_manifest : Text → Option Manifest
  pub print_manifest : Manifest → Text
  pub settings_json : SettingsJson

-- What the run finds and does not change: the paths from the home directory, the running
-- executable, the time, the directory of codex (empty if it does not resolve), and what the other
-- programs answer.
pub record Site : Type 0 where
  pub binary_path : Text
  pub unit_path : Text
  pub executable : Text
  pub now : Text
  pub codex_bin_dir : Text
  pub has_systemd : Bool
  pub linger : Bool
  pub verification : Verification
  pub socket_listening : Bool

pub record Plan : Type 0 where
  pub uninstall : Bool
  pub already_installed : Bool
  pub not_installed : Bool
  pub drift : Bool
  pub drift_detail : Text
  pub blocked : Bool
  pub blocked_reason : Text
  pub plan_binary : Text
  pub binary_currently_exists : Bool
  pub current_state : StatusLineState
  pub current_command : Text
  pub proposed_command : Text
  pub will_be_removed : Bool
  pub original_existed : Bool
  pub original_command : Text
  pub plan_codex_dir : Text
  pub systemd_available : Bool
  pub plan_unit_path : Text
  pub unit_content : Text
  pub unit_currently_enabled : Bool
  pub unit_currently_active : Bool
  pub will_enable_unit : Bool
  pub will_disable_unit : Bool
  pub will_start_unit : Bool
  pub start_reason : Text
  pub linger_currently_enabled : Bool
  pub linked : Bool
  pub plan_manifest : Option Manifest

-- `&Plan{}`
abbrev pub empty_plan : Plan
empty_plan = record {
  uninstall = false;
  already_installed = false;
  not_installed = false;
  drift = false;
  drift_detail = [];
  blocked = false;
  blocked_reason = [];
  plan_binary = [];
  binary_currently_exists = false;
  current_state = absent;
  current_command = [];
  proposed_command = [];
  will_be_removed = false;
  original_existed = false;
  original_command = [];
  plan_codex_dir = [];
  systemd_available = false;
  plan_unit_path = [];
  unit_content = [];
  unit_currently_enabled = false;
  unit_currently_active = false;
  will_enable_unit = false;
  will_disable_unit = false;
  will_start_unit = false;
  start_reason = [];
  linger_currently_enabled = false;
  linked = false;
  plan_manifest = none;
}

unfoldable pub quote_for_display : Text → Text
quote_for_display s =
    let shown = if ltb 120 (length s) then take 117 s ++ ascii "..." else s in
    ascii "\"" ++ shown ++ ascii "\""

unfoldable pub expected_managed_command : Text → Before → Text
expected_managed_command binary before =
    build_status_line_command binary (if before.existed then before.original else [])

unfoldable pub install_drift : Text → Text → Text
install_drift expected current =
    ascii "a previous install recorded statusLine.command as "
    ++ quote_for_display expected
    ++ ascii " but it is currently "
    ++ quote_for_display current
    ++ ascii " -- looks hand-edited since install; refusing to overwrite it automatically"

abbrev pub malformed_reason : Text
malformed_reason =
    ascii "current statusLine.command mentions statusline-wrapper but doesn't match a shape this "
    ++ ascii "installer recognizes -- refusing to guess"

unfoldable pub uninstall_drift : Text → Text → Text
uninstall_drift expected current =
    ascii "statusLine.command no longer matches what install last set (expected "
    ++ quote_for_display expected
    ++ ascii ", found "
    ++ quote_for_display current
    ++ ascii ") -- looks hand-edited since install; refusing to restore/remove it automatically"

-- The end of ComputeInstallPlan, for a plan that is not blocked.
unfoldable pub with_service : Site → Plan → Plan
with_service site p = record p {
  plan_codex_dir = site.codex_bin_dir;
  unit_content = generate_unit site.codex_bin_dir;
  will_enable_unit = p.systemd_available;
  will_start_unit = p.systemd_available && p.linked;
  start_reason =
      if p.systemd_available && p.linked
      then ascii "a valid link config already exists"
      else if p.systemd_available
      then ascii "not linked yet -- service will be enabled but left inactive until `link` succeeds"
      else ascii "systemd --user is not available in this environment";
}

abbrev pub is_existing : StatusLineState → Bool
is_existing existing_non_notifier = true
is_existing notifier_with_original = true
is_existing _ = false

-- The switch on the state of the current command, without a manifest.
abbrev pub choose_fresh : Site → Text → StatusLineState → Text → Plan → Plan
choose_fresh site current malformed original p = record p {
  blocked = true;
  blocked_reason = malformed_reason;
}
choose_fresh site current absent original p = with_service site (record p {
  original_existed = false;
  proposed_command = build_status_line_command site.binary_path [];
})
choose_fresh site current state original p = with_service site (record p {
  original_existed = is_existing state;
  original_command = original;
  proposed_command = build_status_line_command site.binary_path original;
})

-- The branch of ComputeInstallPlan for the manifest that was loaded.
unfoldable pub choose_install : Site → Text → Option Manifest → Plan → Plan
choose_install site current none p =
    let c = classify_status_line current in choose_fresh site current c.state c.original_command p
choose_install site current (some mf) p =
    let expected = expected_managed_command mf.installed_binary_path mf.before_install in
    if same current expected
    then with_service site (record p {
      already_installed =
          p.binary_currently_exists && (not p.systemd_available || p.unit_currently_enabled);
      original_existed = mf.before_install.existed;
      original_command = mf.before_install.original;
      proposed_command = expected;
    })
    else record p {
      drift = true;
      blocked = true;
      drift_detail = install_drift expected current;
      blocked_reason = install_drift expected current;
    }
