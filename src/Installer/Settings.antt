-- ===== src/Installer/Settings.antt =====
-- DetectStatusLine, SetStatusLineCommand and RemoveStatusLineCommand of
-- internal/provider/claude/claude.go: the file ~/.claude/settings.json.
use ai_limit_notifier.Prelude.{ℕ, Bool, not, Text, ascii, List, [], ◌∷◌, keep, Option, none, some}
use ai_limit_notifier.Store.Event.{same}
use ai_limit_notifier.Files.{
  settings_file, File, done, failed, killed, Io, ◌>>=◌, ◌>>◌, pure, read_file, or_malformed,
  other_call, read_call,
}
use ai_limit_notifier.Files.Replace.{replace_file}

-- `map[string]json.RawMessage`
abbrev pub Fields : Type 0
Fields = List (Text × Text)

-- The uses of encoding/json on the settings: the whole object (`none` also for a null, on which the
-- assignment to the map panics), the command in it (empty if it is absent), and the value
-- {"type": "command", "command": …}. The decoder of the command takes a key that differs from
-- statusLine in case only for that field too: `is_variant` says which keys these are.
pub record SettingsJson : Type 0 where
  pub parse_fields : Text → Option Fields
  pub print_fields : Fields → Text
  pub parse_command : Text → Option Text
  pub print_command : Text → Text
  pub is_variant : Text → Bool

abbrev pub status_line : Text
status_line = ascii "statusLine"

unfoldable pub drop_field : Text → Fields → Fields
drop_field key fields = keep (λ f. not (same f.0 key)) fields

abbrev pub put_field : Text → Text → Fields → Fields
put_field key value fields = (key, value) ∷ drop_field key fields

module _ (j : SettingsJson) where
  abbrev pub command_in : Option Text → Io Text
  command_in none = pure []
  command_in (some raw) = or_malformed (j.parse_command raw)

  -- `DetectStatusLine` as currentStatusLineCommand uses it: the command, or the empty text if
  -- none is configured.
  unfoldable pub detect_status_line : Io Text
  detect_status_line = do raw ← read_file settings_file; command_in raw

  abbrev pub fields_in : Option Text → Io Fields
  fields_in none = pure []
  fields_in (some raw) = or_malformed (j.parse_fields raw)

  -- The mode of the file that is there, or 0644.
  abbrev mode_of : Option File → ℕ
  mode_of none = 420
  mode_of (some x) = x.mode

  -- `os.Stat` fails silently, and is asked only for a file that was read.
  abbrev pub stat_mode : Option Text → Io ℕ
  stat_mode none m = (done 420, m)
  stat_mode (some raw) m =
      let (r, m') = read_call (λ k. done (mode_of (k.files settings_file))) m in
      elim r [ done mode ↦ (done mode, m') | failed e ↦ (done 420, m') | killed ↦ (killed, m') ]

  unfoldable pub patch_settings : (Fields → Fields) → Io Unit
  patch_settings mutate = do
    raw ← read_file settings_file
    fields ← fields_in raw
    mode ← stat_mode raw
    other_call
    replace_file settings_file (j.print_fields (mutate fields)) mode

  unfoldable pub set_status_line_command : Text → Io Unit
  set_status_line_command command = patch_settings (put_field status_line (j.print_command command))

  unfoldable pub remove_status_line_command : Io Unit
  remove_status_line_command = patch_settings (drop_field status_line)
