-- ===== src/Installer/Unit.antt =====
-- internal/installer/systemd.go and binary.go: the unit file, the calls of systemctl, and the
-- installed binary.
use ai_limit_notifier.Prelude.{Bool, true, false, Text, ascii, [], ◌∷◌, ◌++◌, if◌then◌else◌}
use ai_limit_notifier.Store.Event.{same}
use ai_limit_notifier.Files.{
  Place, unit_file, installed_binary, elsewhere, Result, done, failed, os_failed, Io, ◌>>◌, pure,
  read_call, other_call, call, ask, remove,
}
use ai_limit_notifier.Files.Replace.{replace_file}

abbrev pub base_service_path : Text
base_service_path = ascii "/usr/local/sbin:/usr/local/bin:/usr/sbin:/usr/bin:/sbin:/bin"

abbrev path_line : Text → Text
path_line [] = []
path_line (c ∷ s) =
    ascii "Environment=PATH=" ++ (c ∷ s) ++ ascii ":" ++ base_service_path ++ ascii "\n"

unfoldable pub generate_unit : Text → Text
generate_unit codex_bin_dir =
    ascii "[Unit]\nDescription=AI Limit Notifier monitor\n\n[Service]\n"
    ++ ascii "ExecStart=%h/.local/bin/ai-limit-notifier monitor\n"
    ++ path_line codex_bin_dir
    ++ ascii "Restart=on-failure\nRestartSec=5\nStandardOutput=null\nStandardError=null\n"
    ++ ascii "\n[Install]\nWantedBy=default.target\n"

-- The file's mode is 0644.
unfoldable pub write_unit : Text → Io Unit
write_unit content = do other_call; replace_file unit_file content 420

unfoldable pub remove_unit : Io Unit
remove_unit = remove unit_file

-- How a run of `systemd-analyze --user verify` ends.
pub data Verification : Type 0 where
  verified unsupported_here found_problem not_run : Verification

abbrev verdict : Verification → Result Bool
verdict verified = done true
verdict unsupported_here = done false
verdict found_problem = failed os_failed
verdict not_run = done false

unfoldable pub verify_unit : Verification → Io Bool
verify_unit v = read_call (λ m. verdict v)

-- A run of `systemctl --user` with an effect on what systemd knows of the unit.
unfoldable pub daemon_reload_user : Io Unit
daemon_reload_user = call (λ m. m)

unfoldable pub enable_unit : Io Unit
enable_unit = call (λ m. record m { unit_enabled = true })

unfoldable pub disable_unit : Io Unit
disable_unit = call (λ m. record m { unit_enabled = false })

unfoldable pub start_unit : Io Unit
start_unit = call (λ m. record m { unit_active = true })

unfoldable pub stop_unit : Io Unit
stop_unit = call (λ m. record m { unit_active = false })

unfoldable pub unit_is_active : Io Bool
unit_is_active = ask (λ m. m.unit_active)

unfoldable pub unit_is_enabled : Io Bool
unit_is_enabled = ask (λ m. m.unit_enabled)

-- The copy of the running executable, whose content is given; the source is opened after the
-- directory is made. The file's mode is 0755.
unfoldable pub install_binary : Text → Io Unit
install_binary executable = do other_call; other_call; replace_file installed_binary executable 493

-- The place of a path, where the program's own path of the binary is given.
unfoldable pub place_of : Text → Text → Place
place_of binary_path path = if same path binary_path then installed_binary else elsewhere path

abbrev pub remove_at : Text → Text → Io Unit
remove_at binary_path [] = pure tt
remove_at binary_path (c ∷ s) = remove (place_of binary_path (c ∷ s))

unfoldable pub remove_installed_binary : Text → Text → Io Unit
remove_installed_binary binary_path path = remove_at binary_path path
