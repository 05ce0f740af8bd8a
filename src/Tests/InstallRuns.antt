-- ===== src/Tests/InstallRuns.antt =====
-- Runs of the installer on concrete machines, and the theorems applied to them.
use ai_limit_notifier.Prelude.{
  All, any_row, ℕ, zero, suc, ◌+◌, ◌≡◌, ◌≢◌, refl, ◌∙◌, ap, Bool, true, false, not, Text, ascii,
  List, [], ◌∷◌, keep, Option, none, some, arith, if◌then◌else◌,
}
use ai_limit_notifier.Store.Event.{same}
use ai_limit_notifier.Installer.Quote.{parse_shell_quoted_words, join_quoted}
use ai_limit_notifier.Installer.RoundTrip.{parse-join_quoted}
use ai_limit_notifier.Installer.Manifest.{Manifest}
use ai_limit_notifier.Installer.Settings.{Fields, status_line, put_field, drop_field}
use ai_limit_notifier.Installer.Plan.{Json}
use ai_limit_notifier.Files.{
  Place, settings_file, manifest_file, temporary, File, Fate, works, fails, dies, Machine, failed,
  os_failed, fails_after,
}
use ai_limit_notifier.Files.Replace.{replace_file}
use ai_limit_notifier.Files.Atomic.{Target, Others, replace_file-Atomic, replace_file-NoTrace}
use ai_limit_notifier.Installer.StatusLine.{
  build_status_line_command, classify_status_line, malformed, existing_non_notifier,
}
use ai_limit_notifier.Installer.Unit.{verified, found_problem}
use ai_limit_notifier.Installer.Plan.{Site, Plan, expected_managed_command}
use ai_limit_notifier.Installer.Apply.{run_install, run_uninstall, apply_install}
use ai_limit_notifier.Installer.Compute.{compute_install_plan}
use ai_limit_notifier.Installer.Reads.{Same, Answer}
use ai_limit_notifier.Installer.Refused.{
  Drifted, found_manifest, command_at, manifest_at, run_plan-Same, run_install-Refused,
  run_uninstall-Refused,
}
use ai_limit_notifier.Installer.Calm.{Runs}
use ai_limit_notifier.Installer.Line.{Line, install_line, uninstall_line}
use ai_limit_notifier.Installer.Patched.{fields_at}
use ai_limit_notifier.Installer.Laws.{Laws, ManifestAgain, has_key, Kept, SiteReadable}
use ai_limit_notifier.Installer.Refines.{Shows, Complete, run_install-refines}
use ai_limit_notifier.Installer.Removes.{Gone, run_uninstall-refines}
use ai_limit_notifier.Installer.Cycle.{StuckAt, install-uninstall, interrupted_install-Stuck}

-- A codec that is not JSON: quoted words.
flatten : Fields → List Text
flatten [] = []
flatten (f ∷ fs) = f.0 ∷ f.1 ∷ flatten fs

pairs : List Text → Option Fields
pairs [] = some []
pairs (a ∷ []) = none
pairs (a ∷ b ∷ ws) = let rest = pairs ws in elim rest [ none ↦ none | some fs ↦ some ((a, b) ∷ fs) ]

pairs-flatten : (fs : Fields) → pairs (flatten fs) ≡ some fs
unfolding pairs flatten
pairs-flatten [] = refl
pairs-flatten (f ∷ fs) = rw (pairs-flatten fs) refl

fields_of_words : Option (List Text) → Option Fields
fields_of_words none = none
fields_of_words (some ws) = pairs ws

parse_object : Text → Option Fields
parse_object t = fields_of_words (parse_shell_quoted_words t)

print_object : Fields → Text
print_object fs = join_quoted (flatten fs)

object-again : (fs : Fields) → parse_object (print_object fs) ≡ some fs
unfolding parse_object print_object fields_of_words
object-again fs = rw (parse-join_quoted (flatten fs)) (pairs-flatten fs)

command_field : Fields → Text
command_field [] = []
command_field (f ∷ fs) = let rest = command_field fs in if same f.0 status_line then f.1 else rest

command_text : Option Fields → Option Text
command_text none = none
command_text (some fs) = some (command_field fs)

object_command : Text → Option Text
object_command t = command_text (parse_object t)

dropped : (fs : Fields) → command_field (drop_field status_line fs) ≡ []
unfolding command_field drop_field keep
dropped [] = refl
dropped (f ∷ fs) = ground (arith, dropped fs)

flag : Bool → Text
flag true = ascii "y"
flag false = []

unflag : Text → Bool
unflag [] = false
unflag (c ∷ s) = true

unflag-flag : (b : Bool) → unflag (flag b) ≡ b
unfolding unflag flag
unflag-flag true = refl
unflag-flag false = refl

manifest_words : Manifest → List Text
manifest_words mf =
    (mf.schema_version ∷ [])
    ∷ mf.installed_binary_path
    ∷ mf.installed_at
    ∷ flag mf.before_install.existed
    ∷ mf.before_install.original
    ∷ flag mf.autostart_unit_installed
    ∷ mf.autostart_unit_path
    ∷ mf.codex_dir
    ∷ []

words_manifest : List Text → Option Manifest
words_manifest ((v ∷ []) ∷ path ∷ at ∷ e ∷ o ∷ i ∷ unit ∷ codex ∷ []) = some (record {
  schema_version = v;
  installed_binary_path = path;
  installed_at = at;
  before_install = record { existed = unflag e; original = o };
  autostart_unit_installed = unflag i;
  autostart_unit_path = unit;
  codex_dir = codex;
})
words_manifest _ = none

words_again : (mf : Manifest) → words_manifest (manifest_words mf) ≡ some mf
unfolding words_manifest manifest_words
words_again mf =
    rw (unflag-flag mf.before_install.existed, unflag-flag mf.autostart_unit_installed) refl

manifest_of_words : Option (List Text) → Option Manifest
manifest_of_words none = none
manifest_of_words (some ws) = words_manifest ws

abbrev words_json : Json
words_json = record {
  parse_config = λ t. none;
  print_config = λ c. none;
  parse_manifest = λ t. manifest_of_words (parse_shell_quoted_words t);
  print_manifest = λ mf. join_quoted (manifest_words mf);
  settings_json = record {
    parse_fields = parse_object;
    print_fields = print_object;
    parse_command = object_command;
    print_command = λ c. c;
    is_variant = λ key. same key (ascii "statusline");
  };
}

manifest-again :
    (mf : Manifest) → words_json.parse_manifest (words_json.print_manifest mf) ≡ some mf
unfolding manifest_of_words
manifest-again mf = rw (parse-join_quoted (manifest_words mf)) (words_again mf)

put-again :
    (c : Text) (fs : Fields) → object_command (print_object (put_field status_line c fs)) ≡ some c
unfolding object_command command_text command_field ai_limit_notifier.Prelude.text_discrete
    ai_limit_notifier.Prelude.ℕ_discrete
put-again c fs = rw (object-again (put_field status_line c fs)) refl

gone-again : (fs : Fields) → object_command (print_object (drop_field status_line fs)) ≡ some []
unfolding object_command command_text
gone-again fs = rw (object-again (drop_field status_line fs)) (ap some (dropped fs))

abbrev all_texts : Text → Bool
all_texts t = true

words_again_law : ManifestAgain words_json all_texts
words_again_law mf _ _ _ _ _ = manifest-again mf

keep_keys :
    (fs gs : Fields) (f : Text × Text)
    → All (λ g. has_key fs g.0 ≡ true) gs
    → All (λ g. has_key (f ∷ fs) g.0 ≡ true) gs
unfolding any_row
keep_keys fs [] f h = tt
keep_keys fs (g ∷ gs) f (h, hs) = (ground arith, keep_keys fs gs f hs)

own_keys : (fs : Fields) → All (λ g. has_key fs g.0 ≡ true) fs
unfolding any_row
own_keys [] = tt
own_keys (f ∷ fs) = (ground arith, keep_keys fs fs f (own_keys fs))

written-again : (fs : Fields) → Kept words_json.settings_json fs
written-again fs = (fs, object-again fs, own_keys fs)

plain_name : same status_line (ascii "statusline") ≡ false
unfolding ai_limit_notifier.Prelude.text_discrete ai_limit_notifier.Prelude.ℕ_discrete
plain_name = refl

words_laws : Laws words_json all_texts
words_laws = record {
  manifest_again = words_again_law;
  empty_object = (print_object [], object-again []);
  name_itself = plain_name;
  command_again = λ raw c fs _ _ _. put-again c fs;
  command_gone = λ raw fs _ _. gone-again fs;
  put_again = λ raw c fs _ _. written-again (put_field status_line c fs);
  drop_again = λ raw fs _. written-again (drop_field status_line fs);
}

abbrev own_line : Text
own_line = ascii "my-line"

abbrev site : Site
site = record {
  binary_path = ascii "/h/bin/n";
  unit_path = ascii "/h/unit";
  executable = ascii "ELF";
  now = ascii "2026";
  codex_bin_dir = [];
  has_systemd = true;
  linger = false;
  verification = verified;
  socket_listening = false;
}

abbrev own_settings : File
own_settings = record { content = print_object (put_field status_line own_line []); mode = 420 }

abbrev settings_only : Place → Option File
settings_only settings_file = some own_settings
settings_only _ = none

abbrev fresh : Machine
fresh = record {
  files = settings_only;
  unit_enabled = false;
  unit_active = false;
  fates = [];
  temps = 0;
}

fresh-Shows : Shows site words_json fresh (own_line, none)
unfolding command_at manifest_at fields_at drop_field keep
fresh-Shows = record {
  command_there = put-again own_line [];
  memory_there = refl;
  fields_there = (
    put_field status_line own_line [],
    object-again (put_field status_line own_line []),
    (plain_name, tt),
  );
}

readable_site : SiteReadable site all_texts
readable_site = record {
  binary_readable = refl;
  now_readable = refl;
  unit_readable = refl;
  codex_readable = refl;
}

own_line-existing : (classify_status_line own_line).state ≡ existing_non_notifier
unfolding classify_status_line ai_limit_notifier.Installer.StatusLine.is_blank
    ai_limit_notifier.Installer.StatusLine.parse_fail_open_command parse_shell_quoted_words
    ai_limit_notifier.Installer.StatusLine.parse_legacy_manual_wrapper_command
    ai_limit_notifier.Installer.StatusLine.after_marker
    ai_limit_notifier.Installer.StatusLine.classify_other
own_line-existing = refl

sound_unit : site.verification ≢ found_problem
sound_unit e = absurd (ground arith)

own_line_sound : (classify_status_line own_line).state ≢ malformed
own_line_sound e = absurd (ground (arith, own_line-existing, e))

abbrev own_start : Line
own_start = (own_line, none)

run_install-refines_example :
    (k : Machine) × Runs (run_install site words_json false) fresh 0 k
    × Shows site words_json k (install_line site.binary_path (own_line, none))
    × (own_start.1 ≡ none
        → Complete site words_json all_texts words_laws readable_site sound_unit k)
run_install-refines_example =
    run_install-refines site words_json all_texts words_laws readable_site sound_unit fresh
      (own_line, none) fresh-Shows (own_line_sound, refl, refl)

install-uninstall_example :
    (k : Machine) × Runs (run_install site words_json false) fresh 0 k
    × ((l : Machine) × Runs (run_uninstall site words_json false) k 0 l
        × (command_at words_json.settings_json l ≡ some own_line)
        × Gone site words_json refl all_texts words_laws readable_site sound_unit l)
install-uninstall_example =
    install-uninstall site words_json all_texts words_laws readable_site sound_unit refl fresh
      own_line fresh-Shows own_line-existing refl refl

interrupted_install-Stuck_example :
    (p : Plan) × Runs (compute_install_plan site words_json own_line) fresh p fresh
    × ((k : Machine) × Runs (apply_install site words_json p) fresh tt k
        × ((fs : List Fate)
            → StuckAt site words_json all_texts words_again_law readable_site sound_unit
                (record k { fates = fs })))
interrupted_install-Stuck_example =
    interrupted_install-Stuck site words_json all_texts words_again_law readable_site sound_unit
      fresh own_line fresh-Shows.command_there fresh-Shows.memory_there own_line-existing refl

replace_file-Atomic_example :
    let (r, m) =
      replace_file manifest_file (ascii "new") 384 (record fresh { fates = works ∷ dies 2 ∷ [] }) in
    Target fresh.files manifest_file (record { content = ascii "new"; mode = 384 }) r m.files
    × Others fresh.files manifest_file 0 m.files
replace_file-Atomic_example =
    replace_file-Atomic manifest_file (ascii "new") 384
      (record fresh { fates = works ∷ dies 2 ∷ [] }) refl

-- Machines with the given files of which settings.json holds the notifier's own-line command and
-- a manifest says that an installation was there.
abbrev drifted_manifest : Manifest
drifted_manifest = record {
  schema_version = 1;
  installed_binary_path = ascii "/h/bin/n";
  installed_at = ascii "2026";
  before_install = record { existed = false; original = [] };
  autostart_unit_installed = true;
  autostart_unit_path = ascii "/h/unit";
  codex_dir = [];
}

abbrev drifted_files : Place → Option File
drifted_files settings_file = some own_settings
drifted_files manifest_file =
    some (record { content = join_quoted (manifest_words drifted_manifest); mode = 384 })
drifted_files _ = none

abbrev drifted : Machine
drifted = record {
  files = drifted_files;
  unit_enabled = true;
  unit_active = true;
  fates = works ∷ works ∷ fails 0 ∷ [];
  temps = 3;
}

drifted-command : command_at words_json.settings_json drifted ≡ some own_line
unfolding command_at
drifted-command = put-again own_line []

drifted-manifest : manifest_at words_json drifted ≡ some (some drifted_manifest)
unfolding manifest_at
drifted-manifest = ap found_manifest (manifest-again drifted_manifest)

drifted-Drifted : Drifted site words_json drifted own_line drifted_manifest
unfolding expected_managed_command build_status_line_command ai_limit_notifier.Prelude.text_discrete
    join_quoted ai_limit_notifier.Prelude.ℕ_discrete
drifted-Drifted = refl

run_install-Refused_example :
    let (r, k) = run_install site words_json false drifted in
    Same drifted k × Answer (λ code. code ≡ 1) r
run_install-Refused_example =
    run_install-Refused site words_json drifted own_line drifted-command (some drifted_manifest)
      drifted-manifest drifted-Drifted

run_uninstall-Refused_example :
    let (r, k) = run_uninstall site words_json false drifted in
    Same drifted k × Answer (λ code. code ≡ 1) r
run_uninstall-Refused_example =
    run_uninstall-Refused site words_json drifted own_line drifted-command drifted_manifest
      drifted-manifest drifted-Drifted

run_plan-Same_example :
    Same drifted (run_install site words_json true drifted).1
    × Same drifted (run_uninstall site words_json true drifted).1
run_plan-Same_example = run_plan-Same site words_json drifted

replace_file-NoTrace_example :
    let (r, m) =
      replace_file manifest_file (ascii "new") 384 (record fresh { fates = fails_after 3 1 }) in
    (r ≡ failed os_failed) × (m.files (temporary 0) ≡ none)
replace_file-NoTrace_example =
    replace_file-NoTrace manifest_file (ascii "new") 384 1 3 fresh (omega arith) refl

-- The same manifest, where the command is the one that was set.
abbrev set_line : Text
set_line = expected_managed_command site.binary_path drifted_manifest.before_install

abbrev set_files : Place → Option File
set_files settings_file =
    some (record { content = print_object (put_field status_line set_line []); mode = 420 })
set_files manifest_file =
    some (record { content = join_quoted (manifest_words drifted_manifest); mode = 384 })
set_files _ = none

abbrev installed : Machine
installed = record {
  files = set_files;
  unit_enabled = true;
  unit_active = true;
  fates = [];
  temps = 5;
}

abbrev installed_state : Line
installed_state = (set_line, some drifted_manifest.before_install)

installed-Shows : Shows site words_json installed installed_state
unfolding command_at manifest_at fields_at drop_field keep
installed-Shows = record {
  command_there = put-again set_line [];
  memory_there = (
    drifted_manifest,
    ap found_manifest (manifest-again drifted_manifest),
    refl,
    refl,
    refl,
    refl,
  );
  fields_there = (
    put_field status_line set_line [],
    object-again (put_field status_line set_line []),
    (plain_name, tt),
  );
}

run_uninstall-refines_example :
    (k : Machine) × Runs (run_uninstall site words_json false) installed 0 k
    × Shows site words_json k (uninstall_line installed_state)
    × (installed_state.1 ≢ none
        → Gone site words_json refl all_texts words_laws readable_site sound_unit k)
run_uninstall-refines_example =
    run_uninstall-refines site words_json refl all_texts words_laws readable_site sound_unit
      installed installed_state installed-Shows (refl, refl)
