-- ===== src/Installer/Patched.antt =====
-- Changes of the settings file (patchSettings) when no call fails.
use ai_limit_notifier.Prelude.{ℕ, ◌≡◌, refl, Text, [], Option, none, some, arith}
use ai_limit_notifier.Files.{Place, Machine, settings_file, read_call, read_file}
use ai_limit_notifier.Installer.Settings.{
  fields_in, stat_mode, SettingsJson, Fields, patch_settings,
}
use ai_limit_notifier.Installer.Reads.{content_at}
use ai_limit_notifier.Installer.Calm.{Runs, Wrote, bind-Runs, other-Runs, replace-Runs}

-- The file settings.json as a map.
abbrev pub fields_of : SettingsJson → Option Text → Option Fields
fields_of j none = some []
fields_of j (some raw) = j.parse_fields raw

unfoldable pub fields_at : SettingsJson → Machine → Option Fields
fields_at j m = fields_of j (content_at m settings_file)

read_file-Runs : (m : Machine) (p : Place) → Runs (read_file p) m (content_at m p) m
unfolding Runs read_file read_call
read_file-Runs m p = refl

module _ (j : SettingsJson) (m : Machine) (fs : Fields) (mutate : Fields → Fields) where
  fields_in-Runs : (raw : Option Text) → fields_of j raw ≡ some fs → Runs (fields_in j raw) m fs m
  unfolding Runs
  fields_in-Runs none h = ground arith
  fields_in-Runs (some raw) h = rw h refl

  mode-Runs : (raw : Option Text) → (mode : ℕ) × Runs (stat_mode j raw) m mode m
  unfolding Runs read_call
  mode-Runs none = (420, refl)
  mode-Runs (some raw) = (_, refl)

  pub patch-Runs :
      fields_at j m ≡ some fs
      → (mode : ℕ) × (k : Machine) × Runs (patch_settings j mutate) m tt k
        × Wrote settings_file (j.print_fields (mutate fs)) mode m k
  unfolding patch_settings fields_at
  patch-Runs h =
      let raw : Option Text = content_at m settings_file in
      let (mode, moded) = mode-Runs raw in
      let (k, written, w) = replace-Runs settings_file (j.print_fields (mutate fs)) mode m refl in
      (
        mode,
        k,
        bind-Runs _ _ m m k raw tt (read_file-Runs m settings_file) (
            bind-Runs _ _ m m k _ _ (fields_in-Runs raw h)
              (bind-Runs _ _ m m k _ _ moded (bind-Runs _ _ m m k _ _ (other-Runs m) written))),
        w,
      )
