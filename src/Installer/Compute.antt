-- ===== src/Installer/Compute.antt =====
-- ComputeInstallPlan and ComputeUninstallPlan of internal/installer/plan.go.
use ai_limit_notifier.Prelude.{
  Bool, true, false, not, ◌&&◌, ◌||◌, if◌then◌else◌, Text, [], ◌∷◌, Option, none, some,
}
use ai_limit_notifier.Store.Event.{same}
use ai_limit_notifier.Files.{
  Machine, Result, done, failed, killed, Io, ◌>>=◌, pure, ask, exists, installed_binary,
}
use ai_limit_notifier.LocalConfig.{Config, load}
use ai_limit_notifier.Installer.Manifest.{Manifest, load_manifest}
use ai_limit_notifier.Installer.Unit.{unit_is_active, unit_is_enabled, place_of}
use ai_limit_notifier.Installer.StatusLine.{classify_status_line}
use ai_limit_notifier.Installer.Plan.{
  Json, Site, Plan, empty_plan, expected_managed_command, uninstall_drift, choose_install,
}

-- `a && f()`
abbrev pub ask_if : Bool → Io Bool → Io Bool
ask_if true io = io
ask_if false io = pure false

abbrev pub is_set : Text → Bool
is_set [] = false
is_set (c ∷ s) = true

abbrev pub linked_answer : Result Config × Machine → Result Bool × Machine
linked_answer (done c, m) = (done (is_set c.server_url && is_set c.device_token), m)
linked_answer (failed e, m) = (done false, m)
linked_answer (killed, m) = (killed, m)

module _ (site : Site) (j : Json) where
  unfoldable pub is_linked : Io Bool
  is_linked m = linked_answer (load j.parse_config j.print_config m)

  unfoldable pub compute_install_plan : Text → Io Plan
  compute_install_plan current = do
    found ← exists installed_binary
    manifest ← load_manifest j.parse_manifest j.print_manifest
    available ← ask (λ m. site.has_systemd)
    enabled ← ask_if available unit_is_enabled
    active ← ask_if available unit_is_active
    linger ← ask_if available (ask (λ m. site.linger))
    linked ← is_linked
    pure (
        choose_install site current manifest (record empty_plan {
          plan_binary = site.binary_path;
          binary_currently_exists = found;
          plan_manifest = manifest;
          systemd_available = available;
          plan_unit_path = site.unit_path;
          unit_currently_enabled = enabled;
          unit_currently_active = active;
          linger_currently_enabled = linger;
          linked = linked;
          current_state = (classify_status_line current).state;
          current_command = current;
        }))

  -- The end of ComputeUninstallPlan.
  unfoldable pub choose_uninstall : Text → Manifest → Plan → Plan
  choose_uninstall current mf p =
      let expected = expected_managed_command mf.installed_binary_path mf.before_install in
      if not (same current expected)
      then record p {
        drift = true;
        blocked = true;
        drift_detail = uninstall_drift expected current;
        blocked_reason = uninstall_drift expected current;
      }
      else record p {
        original_existed = mf.before_install.existed;
        original_command = mf.before_install.original;
        proposed_command = if mf.before_install.existed then mf.before_install.original else [];
        will_be_removed = not mf.before_install.existed;
      }

  abbrev pub uninstall_of : Text → Option Manifest → Io Plan
  uninstall_of current none = pure (record empty_plan { uninstall = true; not_installed = true })
  uninstall_of current (some mf) = do
    found ← exists (place_of site.binary_path mf.installed_binary_path)
    available ← ask (λ m. site.has_systemd)
    enabled ← ask_if available unit_is_enabled
    active ← ask_if available unit_is_active
    pure (
        choose_uninstall current mf (record empty_plan {
          uninstall = true;
          plan_manifest = some mf;
          plan_binary = mf.installed_binary_path;
          binary_currently_exists = found;
          systemd_available = available;
          plan_unit_path = site.unit_path;
          unit_currently_enabled = enabled;
          unit_currently_active = active;
          will_disable_unit = available && (enabled || active);
          current_state = (classify_status_line current).state;
          current_command = current;
        }))

  unfoldable pub compute_uninstall_plan : Text → Io Plan
  compute_uninstall_plan current = do
    manifest ← load_manifest j.parse_manifest j.print_manifest
    uninstall_of current manifest
