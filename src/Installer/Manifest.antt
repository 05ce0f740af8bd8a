-- ===== src/Installer/Manifest.antt =====
-- internal/installer/manifest.go: what an installation remembers for its removal.
use ai_limit_notifier.Prelude.{ℕ, Bool, Text, Option, none, some}
use ai_limit_notifier.Files.{
  manifest_file, Io, ◌>>=◌, ◌>>◌, pure, read_file, or_malformed, other_call, remove,
}
use ai_limit_notifier.Files.Replace.{replace_file}

pub record Before : Type 0 where
  pub existed : Bool
  pub original : Text

pub record Manifest : Type 0 where
  pub schema_version : ℕ
  pub installed_binary_path : Text
  pub installed_at : Text
  pub before_install : Before
  pub autostart_unit_installed : Bool
  pub autostart_unit_path : Text
  pub codex_dir : Text

abbrev pub manifest_schema_version : ℕ
manifest_schema_version = 1

module _ (parse : Text → Option Manifest) (print : Manifest → Text) where
  abbrev pub parse_stored : Option Text → Io (Option Manifest)
  parse_stored none = pure none
  parse_stored (some raw) = or_malformed (parse raw) >>= λ m. pure (some m)

  unfoldable pub load_manifest : Io (Option Manifest)
  load_manifest = do raw ← read_file manifest_file; parse_stored raw

  -- The directory is made and its mode set before; the file's mode is 0600.
  unfoldable pub save_manifest : Manifest → Io Unit
  save_manifest m = do other_call; other_call; replace_file manifest_file (print m) 384

unfoldable pub remove_manifest : Io Unit
remove_manifest = remove manifest_file
