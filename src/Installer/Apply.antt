-- ===== src/Installer/Apply.antt =====
-- internal/installer/apply.go, and runInstall and runUninstall of cmd/ai-limit-notifier/main.go.
use ai_limit_notifier.Prelude.{
  ℕ, Bool, true, false, not, ◌&&◌, ◌||◌, if◌then◌else◌, Text, none, some,
}
use ai_limit_notifier.Files.{
  Machine, Result, done, failed, killed, is_blocked, Io, ◌>>=◌, ◌>>◌, pure, fail, ask, socket_file,
  remove, other_call,
}
use ai_limit_notifier.Installer.Manifest.{
  Manifest, manifest_schema_version, save_manifest, remove_manifest,
}
use ai_limit_notifier.Installer.Settings.{
  detect_status_line, set_status_line_command, remove_status_line_command,
}
use ai_limit_notifier.Installer.Unit.{
  install_binary, write_unit, remove_unit, verify_unit, daemon_reload_user, enable_unit,
  disable_unit, start_unit, stop_unit, remove_installed_binary,
}
use ai_limit_notifier.Installer.Plan.{Json, Site, Plan}
use ai_limit_notifier.Installer.Compute.{is_set, compute_install_plan, compute_uninstall_plan}

abbrev pub when : Bool → Io Unit → Io Unit
when true io = io
when false io = pure tt

unfoldable pub install_service : Site → Plan → Io Unit
install_service site p = do
  write_unit p.unit_content
  verify_unit site.verification
  daemon_reload_user
  enable_unit
  when p.will_start_unit start_unit

abbrev pub manifest_of : Site → Plan → Manifest
manifest_of site p = record {
  schema_version = manifest_schema_version;
  installed_binary_path = p.plan_binary;
  installed_at = site.now;
  before_install = record { existed = p.original_existed; original = p.original_command };
  autostart_unit_installed = p.systemd_available;
  autostart_unit_path = p.plan_unit_path;
  codex_dir = p.plan_codex_dir;
}

-- The socket file is removed if it exists and nothing listens on it.
unfoldable pub remove_stale_socket_if_any : Site → Io Unit
remove_stale_socket_if_any site = do
  missing ← ask (λ m. elim (m.files socket_file) [ none ↦ true | some x ↦ false ])
  if missing then pure tt else do
    listening ← ask (λ m. site.socket_listening)
    when (not listening) (remove socket_file)

module _ (site : Site) (j : Json) where
  unfoldable pub apply_install : Plan → Io Unit
  apply_install p =
      if p.blocked then fail is_blocked else if p.already_installed then pure tt else do
        install_binary site.executable
        when p.systemd_available (install_service site p)
        save_manifest j.parse_manifest j.print_manifest (manifest_of site p)

  unfoldable pub apply_uninstall : Plan → Io Unit
  apply_uninstall p = if p.not_installed then pure tt else if p.blocked then fail is_blocked else do
    when (p.systemd_available && p.unit_currently_active) stop_unit
    when (p.systemd_available && p.unit_currently_enabled) disable_unit
    remove_unit
    when p.systemd_available daemon_reload_user
    remove_stale_socket_if_any site
    remove_installed_binary site.binary_path p.plan_binary
    remove_manifest

-- `if err != nil { …; return 1 }`
abbrev pub go_on_or_exit : {A : Type 0} → (A → Io ℕ) → Result A × Machine → Result ℕ × Machine
go_on_or_exit next (done a, m) = next a m
go_on_or_exit next (failed e, m) = (done 1, m)
go_on_or_exit next (killed, m) = (killed, m)

unfoldable pub or_exit : {A : Type 0} → Io A → (A → Io ℕ) → Io ℕ
or_exit io next m = go_on_or_exit next (io m)

module _ (site : Site) (j : Json) where
  unfoldable pub flip_status_line : Text → Io ℕ
  flip_status_line command =
      if is_set command
      then or_exit (set_status_line_command j.settings_json command) (λ _. pure 0)
      else pure 0

  -- After the plan is printed: the exit status.
  unfoldable pub carry_out_install : Plan → Io ℕ
  carry_out_install p =
      if p.blocked
      then pure 1
      else if p.already_installed
      then pure 0
      else or_exit other_call
          λ _. or_exit (apply_install site j p) λ _. flip_status_line p.proposed_command

  unfoldable pub run_install : Bool → Io ℕ
  run_install plan_only = or_exit (detect_status_line j.settings_json) λ current.
      or_exit (compute_install_plan site j current)
        λ p. if plan_only then pure 0 else carry_out_install p

  unfoldable pub restore_status_line : Plan → Io Unit
  restore_status_line p =
      if p.will_be_removed
      then remove_status_line_command j.settings_json
      else when (is_set p.proposed_command)
          (set_status_line_command j.settings_json p.proposed_command)

  unfoldable pub carry_out_uninstall : Plan → Io ℕ
  carry_out_uninstall p =
      if p.blocked
      then pure 1
      else or_exit (restore_status_line p) λ _. or_exit (apply_uninstall site j p) λ _. pure 0

  unfoldable pub run_uninstall : Bool → Io ℕ
  run_uninstall plan_only = or_exit (detect_status_line j.settings_json) λ current.
      or_exit (compute_uninstall_plan site j current)
        λ p. if plan_only || p.not_installed then pure 0 else carry_out_uninstall p
