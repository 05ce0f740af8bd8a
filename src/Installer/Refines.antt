-- ===== src/Installer/Refines.antt =====
-- Runs of install and uninstall in which no call fails, against what Line promises.
use ai_limit_notifier.Prelude.{
  ◌≡◌, ◌≢◌, refl, ◌∙◌, ap, Bool, true, false, Text, [], none, some, arith, Bool-cases, inl, inr,
  if◌then◌else◌,
}
use mathlib.Core.Path.{subst}
use ai_limit_notifier.Files.{Machine, settings_file, manifest_file, installed_binary}
use ai_limit_notifier.Installer.Manifest.{Manifest, Before}
use ai_limit_notifier.Installer.Settings.{Fields, set_status_line_command, status_line, put_field}
use ai_limit_notifier.Installer.Unit.{found_problem}
use ai_limit_notifier.Installer.StatusLine.{ClassifiedStatusLine, malformed, classify_status_line}
use ai_limit_notifier.Installer.Plan.{Json, Site, Plan, expected_managed_command, choose_install}
use ai_limit_notifier.Installer.Compute.{is_set}
use ai_limit_notifier.Installer.Apply.{
  manifest_of, flip_status_line, carry_out_install, run_install,
}
use ai_limit_notifier.Installer.Refused.{command_at, manifest_at}
use ai_limit_notifier.Installer.Calm.{
  Runs, Keeps, SameUnit, else-Runs, then-Runs, pure-Runs, or_exit-Runs, other-Runs,
}
use ai_limit_notifier.Installer.Installs.{detect-Runs, plan-Runs, facts}
use ai_limit_notifier.Installer.Applied.{apply-Runs}
use ai_limit_notifier.Installer.Patched.{fields_at, patch-Runs}
use ai_limit_notifier.Installer.Line.{
  Line, before_of, install_line, classify-Consistent, build-set, Chosen, fresh-Chosen, kept-Chosen,
  fresh-new,
}
use ai_limit_notifier.Installer.Laws.{
  command-content, fields-content, settings-same, Plain, PlainAt, keys-Plain, put_field-Plain, Laws,
  SiteReadable, decoded_from, manifest-content, kept-again,
}

module _ (site : Site) (j : Json) where
  -- The manifest of an installation at this site whose command is the one that is expected.
  abbrev pub Remembers : Machine → Line → Type 0
  Remembers m (c, none) = manifest_at j m ≡ some none
  Remembers m (c, some b) =
      (mf : Manifest) × (manifest_at j m ≡ some (some mf))
      × (mf.installed_binary_path ≡ site.binary_path)
      × (mf.before_install ≡ b)
      × (c ≡ expected_managed_command site.binary_path b)
      × (b.existed ≡ is_set b.original)

  -- The machine's files show the line.
  pub record Shows (m : Machine) (line : Line) : Type 0 where
    pub command_there : command_at j.settings_json m ≡ some line.0
    pub memory_there : Remembers m line
    pub fields_there : PlainAt j.settings_json m

  module _ (readable : Text → Bool) (laws : Laws j readable) (places : SiteReadable site readable)
      (checks : site.verification ≢ found_problem) where
    pub flip-Runs :
        (c : Text) (m : Machine) (fs : Fields)
        → is_set c ≡ true
        → readable c ≡ true
        → fields_at j.settings_json m ≡ some fs
        → Plain j.settings_json fs
        → (k : Machine) × Runs (set_status_line_command j.settings_json c) m tt k
          × (command_at j.settings_json k ≡ some c)
          × PlainAt j.settings_json k
          × Keeps settings_file m k
          × SameUnit m k
    unfolding set_status_line_command command_at fields_at
    flip-Runs c m fs set ok h plain =
        let (raw, read) = decoded_from j readable laws m fs h in
        let (mode, k, r, (at, keeps, units)) =
          patch-Runs j.settings_json m fs (put_field status_line (j.settings_json.print_command c))
            h in
        let (gs, again, keys) = laws.put_again raw c fs read ok in
        (
          k,
          r,
          command-content j.settings_json k _ at ∙ laws.command_again raw c fs read plain ok,
          (
            gs,
            fields-content j.settings_json k _ at ∙ again,
            keys-Plain j.settings_json _ gs
                (put_field-Plain j.settings_json fs (j.settings_json.print_command c)
                  laws.name_itself plain)
                keys,
          ),
          keeps,
          units,
        )

    expected-set : (b : Before) → is_set (expected_managed_command site.binary_path b) ≡ true
    unfolding expected_managed_command
    expected-set b = build-set site.binary_path (if b.existed then b.original else [])

    -- What an installation leaves, besides what its files show.
    pub record Complete (k : Machine) : Type 0 where
      pub binary_there :
          k.files installed_binary ≡ some (record { content = site.executable; mode = 493 })
      pub enabled_there : site.has_systemd ≡ true → k.unit_enabled ≡ true

    carry-Runs :
        (c : Text) (b : Before) (m : Machine) (q p : Plan)
        → Chosen site (c, some b) q p
        → p.already_installed ≡ false
        → (q.plan_binary ≡ site.binary_path)
          × (q.plan_unit_path ≡ site.unit_path)
          × (q.systemd_available ≡ site.has_systemd)
        → (c ≡ expected_managed_command site.binary_path b) × (b.existed ≡ is_set b.original)
        → (readable c ≡ true) × (readable b.original ≡ true)
        → PlainAt j.settings_json m
        → (k : Machine) × Runs (carry_out_install site j p) m 0 k × Shows k (c, some b) × Complete k
    unfolding carry_out_install flip_status_line
    carry-Runs c b m q p chosen new (bq, uq, sq) (expected, consistent) (rc, ro)
          (fs, there, plain) =
        let (k, applied, installed) = apply-Runs site checks j p m chosen.free new in
        let (same_before, again) =
          kept-again site j readable laws.manifest_again places c b q p chosen (bq, uq) ro in
        let set : is_set p.proposed_command ≡ true =
          ap is_set (chosen.proposed ∙ expected) ∙ expected-set b in
        let (l, flipped, shown, fields, keeps, units) =
          flip-Runs p.proposed_command k fs set (ap readable chosen.proposed ∙ rc)
            ((settings-same j.settings_json m k installed.settings_same).1 ∙ there) plain in
        (
          l,
          else-Runs p.blocked _ _ m l 0 chosen.free (
              else-Runs p.already_installed _ _ m l 0 new (
                or_exit-Runs _ _ m m l tt 0 (other-Runs m) (
                  or_exit-Runs _ _ m k l tt 0 applied (
                    then-Runs (is_set p.proposed_command) _ _ k l 0 set
                      (or_exit-Runs _ _ k l l tt 0 flipped (pure-Runs 0 l)))))),
          record {
            command_there = shown ∙ ap some chosen.proposed;
            memory_there = (
              manifest_of site p,
              manifest-content j l (manifest_of site p) 384
                  (keeps manifest_file refl refl ∙ installed.manifest_saved) again,
              chosen.same_binary ∙ bq,
              same_before,
              expected,
              consistent,
            );
            fields_there = fields;
          },
          record {
            binary_there = keeps installed_binary refl refl ∙ installed.binary_there;
            enabled_there = λ e. units.0 ∙ installed.enabled_there (chosen.same_systemd ∙ sq ∙ e);
          },
        )

    -- The line is one that install does not refuse, and encoding/json can represent it.
    abbrev pub Installable : Line → Type 0
    Installable (c, none) =
        ((classify_status_line c).state ≢ malformed)
        × (readable (expected_managed_command site.binary_path (before_of c)) ≡ true)
        × (readable (before_of c).original ≡ true)
    Installable (c, some b) = (readable c ≡ true) × (readable b.original ≡ true)

    -- If no call fails, and no key of the settings differs from statusLine in case only, a run of
    -- install gives exit status 0 and does to the status line command and the memory of the one
    -- before what install_line says, for a line that is not refused. An installation from nothing
    -- has put the binary in place and, with systemd, enabled the unit.
    pub run_install-refines :
        (m : Machine) (line : Line)
        → Shows m line
        → Installable line
        → (k : Machine) × Runs (run_install site j false) m 0 k
          × Shows k (install_line site.binary_path line)
          × (line.1 ≡ none → Complete k)
    unfolding run_install install_line choose_install carry_out_install
    run_install-refines m (c, none) shows (sound, rc, ro) =
        let (linked, planned) = plan-Runs site j m c none shows.memory_there in
        let q : Plan = facts site j m c none linked in
        let p : Plan = choose_install site c none q in
        let r : ClassifiedStatusLine = classify_status_line c in
        let chosen : Chosen site (install_line site.binary_path (c, none)) q p =
          fresh-Chosen site c q r.state r.original_command (classify-Consistent c) sound refl refl
            refl in
        let (k, carried, shown, complete) =
          carry-Runs _ (before_of c) m q p chosen
            (fresh-new site c q r.state r.original_command refl) (refl, refl, refl)
            (refl, classify-Consistent c) (rc, ro) shows.fields_there in
        (
          k,
          or_exit-Runs _ _ m m k c 0 (detect-Runs site j m c shows.command_there)
              (or_exit-Runs _ _ m m k p 0 planned carried),
          shown,
          λ _. complete,
        )
    run_install-refines m (c, some b) shows (rc, ro) =
        let (mf, kept, path, before, expected, consistent) = shows.memory_there in
        let (linked, planned) = plan-Runs site j m c (some mf) kept in
        let q : Plan = facts site j m c (some mf) linked in
        let p : Plan = choose_install site c (some mf) q in
        let chosen : Chosen site (c, some b) q p =
          subst (λ x. Chosen site (c, some x) q p) before
            (kept-Chosen site c q mf refl (rw (path, before) expected)) in
        elim (Bool-cases p.already_installed) [
          | inl e ↦ (
            m,
            or_exit-Runs _ _ m m m c 0 (detect-Runs site j m c shows.command_there) (
                or_exit-Runs _ _ m m m p 0 planned (
                  else-Runs p.blocked _ _ m m 0 chosen.free
                    (then-Runs p.already_installed _ _ m m 0 e (pure-Runs 0 m)))),
            shows,
            λ h. absurd (ground arith),
          )
          | inr e ↦
              let (k, carried, shown, complete) =
                carry-Runs c b m q p chosen e (refl, refl, refl) (expected, consistent) (rc, ro)
                  shows.fields_there in
              (
                k,
                or_exit-Runs _ _ m m k c 0 (detect-Runs site j m c shows.command_there)
                    (or_exit-Runs _ _ m m k p 0 planned carried),
                shown,
                λ h. absurd (ground arith),
              )
        ]
