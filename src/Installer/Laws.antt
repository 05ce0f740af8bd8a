-- ===== src/Installer/Laws.antt =====
-- What the installer relies on in encoding/json, and what follows for the files that it reads.
use ai_limit_notifier.Prelude.{
  ℕ, ◌≡◌, ◌∙◌, ap, Bool, true, false, Text, [], some, arith, Bool-cases, inl, inr, All, any_row,
  keep, Option-cases, sym, ◌∷◌,
}
use ai_limit_notifier.Files.{File, Machine, settings_file, manifest_file}
use ai_limit_notifier.Installer.Manifest.{Manifest, Before}
use ai_limit_notifier.Installer.Settings.{SettingsJson, Fields, status_line, put_field, drop_field}
use ai_limit_notifier.Installer.Plan.{Json, Site, Plan}
use ai_limit_notifier.Installer.Apply.{manifest_of}
use ai_limit_notifier.Installer.Reads.{content_of, content_at}
use ai_limit_notifier.Store.Event.{same}
use ai_limit_notifier.Installer.Refused.{
  command_at, manifest_at, command_of, manifest_of_content, found_manifest,
}
use ai_limit_notifier.Installer.Patched.{fields_at, fields_of}
use ai_limit_notifier.Installer.Line.{Chosen}

module _ (j : SettingsJson) (k : Machine) (f : File) (at : k.files settings_file ≡ some f) where
  pub command-content : command_at j k ≡ j.parse_command f.content
  unfolding command_at
  command-content = ap (λ o. command_of j (content_of o)) at

  pub fields-content : fields_at j k ≡ j.parse_fields f.content
  unfolding fields_at
  fields-content = ap (λ o. fields_of j (content_of o)) at

pub settings-same :
    (j : SettingsJson) (m k : Machine)
    → k.files settings_file ≡ m.files settings_file
    → (command_at j k ≡ command_at j m) × (fields_at j k ≡ fields_at j m)
unfolding command_at fields_at
settings-same j m k e =
    (ap (λ o. command_of j (content_of o)) e, ap (λ o. fields_of j (content_of o)) e)

-- No key differs from statusLine in case only.
abbrev pub Plain : SettingsJson → Fields → Type 0
Plain s fs = All (λ f. s.is_variant f.0 ≡ false) fs

abbrev pub PlainAt : SettingsJson → Machine → Type 0
PlainAt s m = (fs : Fields) × (fields_at s m ≡ some fs) × Plain s fs

abbrev pub has_key : Fields → Text → Bool
has_key fs key = any_row (λ f. same f.0 key) fs

-- The printed object is read as one that has no other keys.
abbrev pub Kept : SettingsJson → Fields → Type 0
Kept s fs =
    (gs : Fields) × (s.parse_fields (s.print_fields fs) ≡ some gs)
    × All (λ g. has_key fs g.0 ≡ true) gs

module _ (s : SettingsJson) where
  key-Plain :
      (fs : Fields) (key : Text) → Plain s fs → has_key fs key ≡ true → s.is_variant key ≡ false
  unfolding any_row
  key-Plain [] key h k = absurd (ground arith)
  key-Plain (f ∷ fs) key (h, hs) k = elim (Bool-cases (same f.0 key)) [
    | inl e ↦ let e' : f.0 ≡ key = ground arith in ap s.is_variant (sym e') ∙ h
    | inr e ↦ key-Plain fs key hs (ground arith)
  ]

  pub keys-Plain : (fs gs : Fields) → Plain s fs → All (λ g. has_key fs g.0 ≡ true) gs → Plain s gs
  keys-Plain fs [] h k = tt
  keys-Plain fs (g ∷ gs) h (k, ks) = (key-Plain fs g.0 h k, keys-Plain fs gs h ks)

  pub drop_field-Plain : (fs : Fields) → Plain s fs → Plain s (drop_field status_line fs)
  unfolding drop_field keep
  drop_field-Plain [] h = tt
  drop_field-Plain (f ∷ fs) (h, hs) = elim (Bool-cases (same f.0 status_line)) [
    | inl e ↦ rw e (drop_field-Plain fs hs)
    | inr e ↦ rw e (h, drop_field-Plain fs hs)
  ]

  pub put_field-Plain :
      (fs : Fields) (value : Text)
      → s.is_variant status_line ≡ false
      → Plain s fs
      → Plain s (put_field status_line value fs)
  put_field-Plain fs value h plain = (h, drop_field-Plain fs plain)

-- A manifest that encoding/json can represent (in valid UTF-8) is read as it was written.
abbrev pub ManifestAgain : Json → (Text → Bool) → Type 0
ManifestAgain j readable =
    (mf : Manifest)
    → readable mf.installed_binary_path ≡ true
    → readable mf.installed_at ≡ true
    → readable mf.before_install.original ≡ true
    → readable mf.autostart_unit_path ≡ true
    → readable mf.codex_dir ≡ true
    → j.parse_manifest (j.print_manifest mf) ≡ some mf

-- What encoding/json promises of settings that it has decoded and that hold no key which differs
-- from statusLine in case only: the command that was set is found, one that was removed is not,
-- and both changes leave an object with the keys that were written.
pub record Laws (j : Json) (readable : Text → Bool) : Type 0 where
  pub manifest_again : ManifestAgain j readable
  pub empty_object : (raw : Text) × (j.settings_json.parse_fields raw ≡ some [])
  pub name_itself : j.settings_json.is_variant status_line ≡ false
  pub command_again :
      (raw c : Text) (fs : Fields)
      → j.settings_json.parse_fields raw ≡ some fs
      → Plain j.settings_json fs
      → readable c ≡ true
      → let s = j.settings_json in
        s.parse_command (s.print_fields (put_field status_line (s.print_command c) fs)) ≡ some c
  pub command_gone :
      (raw : Text) (fs : Fields)
      → j.settings_json.parse_fields raw ≡ some fs
      → Plain j.settings_json fs
      → let s = j.settings_json in
        s.parse_command (s.print_fields (drop_field status_line fs)) ≡ some []
  pub put_again :
      (raw c : Text) (fs : Fields)
      → j.settings_json.parse_fields raw ≡ some fs
      → readable c ≡ true
      → let s = j.settings_json in Kept s (put_field status_line (s.print_command c) fs)
  pub drop_again :
      (raw : Text) (fs : Fields)
      → j.settings_json.parse_fields raw ≡ some fs
      → Kept j.settings_json (drop_field status_line fs)

-- The settings of a machine are decoded from some text.
pub decoded_from :
    (j : Json) (readable : Text → Bool)
    → Laws j readable
    → (m : Machine) (fs : Fields) → fields_at j.settings_json m ≡ some fs
    → (raw : Text) × (j.settings_json.parse_fields raw ≡ some fs)
unfolding fields_at
decoded_from j readable laws m fs h = elim (Option-cases (content_at m settings_file)) [
  | inl e ↦
      let none_there : some [] ≡ some fs = rw e at h in
      (laws.empty_object.0, laws.empty_object.1 ∙ none_there)
  | inr (raw, e) ↦ (raw, rw e at h)
]

pub record SiteReadable (site : Site) (readable : Text → Bool) : Type 0 where
  pub binary_readable : readable site.binary_path ≡ true
  pub now_readable : readable site.now ≡ true
  pub unit_readable : readable site.unit_path ≡ true
  pub codex_readable : readable site.codex_bin_dir ≡ true

pub manifest-content :
    (j : Json) (k : Machine) (mf : Manifest) (mode : ℕ)
    → k.files manifest_file ≡ some (record { content = j.print_manifest mf; mode = mode })
    → j.parse_manifest (j.print_manifest mf) ≡ some mf
    → manifest_at j k ≡ some (some mf)
unfolding manifest_at
manifest-content j k mf mode at again =
    ap (λ o. manifest_of_content j (content_of o)) at ∙ ap found_manifest again

pub kept-again :
    (site : Site) (j : Json) (readable : Text → Bool)
    → ManifestAgain j readable
    → SiteReadable site readable
    → (c : Text) (b : Before) (q p : Plan) → Chosen site (c, some b) q p
    → (q.plan_binary ≡ site.binary_path) × (q.plan_unit_path ≡ site.unit_path)
    → readable b.original ≡ true
    → let mf = manifest_of site p in
      (mf.before_install ≡ b) × (j.parse_manifest (j.print_manifest mf) ≡ some mf)
kept-again site j readable again places c b q p chosen (bq, uq) ro =
    let same_before : (manifest_of site p).before_install ≡ b = ground (arith, chosen.before) in
    (
      same_before,
      again (manifest_of site p) (ap readable (chosen.same_binary ∙ bq) ∙ places.binary_readable)
          places.now_readable (ap (λ x. readable x.original) same_before ∙ ro)
          (ap readable (chosen.same_unit ∙ uq) ∙ places.unit_readable)
          (ap readable chosen.codex ∙ places.codex_readable),
    )
