-- ===== src/Installer/Removes.antt =====
-- Runs of uninstall in which no call fails, against what Line promises.
use ai_limit_notifier.Prelude.{
  ◌≡◌, ◌≢◌, refl, sym, ◌∙◌, ap, Bool, true, false, not, ◌&&◌, ◌||◌, Text, [], none, some, arith,
  Bool-cases, inl, inr, if◌then◌else◌,
}
use ai_limit_notifier.Files.{
  Machine, exists, settings_file, manifest_file, installed_binary, unit_file,
}
use ai_limit_notifier.Installer.Manifest.{Manifest, Before}
use ai_limit_notifier.Installer.Settings.{
  Fields, remove_status_line_command, status_line, drop_field,
}
use ai_limit_notifier.Installer.Unit.{found_problem, unit_is_active, unit_is_enabled}
use ai_limit_notifier.Store.Event.{same}
use ai_limit_notifier.Installer.StatusLine.{classify_status_line}
use ai_limit_notifier.Installer.Plan.{Json, Site, Plan, empty_plan, expected_managed_command}
use ai_limit_notifier.Installer.Compute.{is_set, choose_uninstall, compute_uninstall_plan}
use ai_limit_notifier.Installer.Apply.{restore_status_line, carry_out_uninstall, run_uninstall}
use ai_limit_notifier.Installer.Reads.{content_of}
use ai_limit_notifier.Installer.Refused.{command_at, manifest_at, manifest_of_content}
use ai_limit_notifier.Installer.Calm.{
  Runs, Keeps, SameUnit, bind-Runs, else-Runs, then-Runs, pure-Runs, or_exit-Runs, ask-Runs,
}
use ai_limit_notifier.Installer.Laws.{
  settings-same, Laws, command-content, fields-content, SiteReadable, Plain, PlainAt, keys-Plain,
  drop_field-Plain, decoded_from,
}
use ai_limit_notifier.Installer.Refines.{Shows, flip-Runs, Installable}
use ai_limit_notifier.Installer.Installs.{ask_if-Runs, detect-Runs, load_manifest-Runs}
use ai_limit_notifier.Installer.Patched.{fields_at, patch-Runs}
use ai_limit_notifier.Installer.Line.{Line, uninstall_line}
use ai_limit_notifier.Installer.Removal.{when-Runs, cleared, apply_uninstall-Runs}

module _ (site : Site) (j : Json) (named : is_set site.binary_path ≡ true) where
  -- The facts that the plan of a removal is made from.
  abbrev found : Machine → Text → Manifest → Bool → Plan
  found m c mf there = record empty_plan {
    uninstall = true;
    plan_manifest = some mf;
    plan_binary = mf.installed_binary_path;
    binary_currently_exists = there;
    systemd_available = site.has_systemd;
    plan_unit_path = site.unit_path;
    unit_currently_enabled = site.has_systemd && m.unit_enabled;
    unit_currently_active = site.has_systemd && m.unit_active;
    will_disable_unit =
        site.has_systemd
        && (site.has_systemd && m.unit_enabled || site.has_systemd && m.unit_active);
    current_state = (classify_status_line c).state;
    current_command = c;
  }

  uninstall_plan-Runs :
      (m : Machine) (c : Text) (mf : Manifest)
      → manifest_at j m ≡ some (some mf)
      → (there : Bool) × Runs
          (compute_uninstall_plan site j c)
          m
          (choose_uninstall site j c mf (found m c mf there))
          m
  unfolding compute_uninstall_plan exists unit_is_enabled unit_is_active
  uninstall_plan-Runs m c mf h = (
    _,
    bind-Runs _ _ m m m _ _ (load_manifest-Runs site j m (some mf) h) (
        bind-Runs _ _ m m m _ _ (ask-Runs _ m) (
          bind-Runs _ _ m m m _ _ (ask-Runs _ m) (
            bind-Runs _ _ m m m _ _ (ask_if-Runs site j m _ _)
              (bind-Runs _ _ m m m _ _ (ask_if-Runs site j m _ _) (pure-Runs _ m))))),
  )

  module _ (readable : Text → Bool) (laws : Laws j readable) (places : SiteReadable site readable)
      (checks : site.verification ≢ found_problem) where
    -- The settings after the removal, whether there was a command before or not.
    restore-Runs :
        (b : Before) (p : Plan) (m : Machine) (fs : Fields)
        → p.will_be_removed ≡ not b.existed
        → p.proposed_command ≡ (if b.existed then b.original else [])
        → b.existed ≡ is_set b.original
        → readable b.original ≡ true
        → fields_at j.settings_json m ≡ some fs
        → Plain j.settings_json fs
        → (k : Machine) × Runs (restore_status_line site j p) m tt k
          × (command_at j.settings_json k ≡ some (if b.existed then b.original else []))
          × PlainAt j.settings_json k
          × Keeps settings_file m k
          × SameUnit m k
    unfolding restore_status_line remove_status_line_command
    restore-Runs b p m fs removed proposed consistent ok there plain = elim (Bool-cases b.existed) [
      | inl e ↦
          let same_command : p.proposed_command ≡ b.original = proposed ∙ rw e refl in
          let (k, r, shown, fields, keeps, units) =
            flip-Runs site j readable laws places checks p.proposed_command m fs
              (ap is_set same_command ∙ sym consistent ∙ e) (ap readable same_command ∙ ok) there
              plain in
          (
            k,
            else-Runs p.will_be_removed _ _ m k tt (removed ∙ rw e refl) (
                when-Runs (is_set p.proposed_command) _ m k
                  (ap is_set same_command ∙ sym consistent ∙ e) r),
            shown ∙ ap some proposed,
            fields,
            keeps,
            units,
          )
      | inr e ↦
          let (mode, k, r, (at, keeps, units)) =
            patch-Runs j.settings_json m fs (drop_field status_line) there in
          let (raw, read) = decoded_from j readable laws m fs there in
          let (gs, again, keys) = laws.drop_again raw fs read in
          (
            k,
            then-Runs p.will_be_removed _ _ m k tt (removed ∙ rw e refl) r,
            command-content j.settings_json k _ at
                ∙ laws.command_gone raw fs read plain
                ∙ rw e refl,
            (
              gs,
              fields-content j.settings_json k _ at ∙ again,
              keys-Plain j.settings_json _ gs (drop_field-Plain j.settings_json fs plain) keys,
            ),
            keeps,
            units,
          )
    ]

    gone-manifest : (k : Machine) → k.files manifest_file ≡ none → manifest_at j k ≡ some none
    unfolding manifest_at
    gone-manifest k e = ap (λ o. manifest_of_content j (content_of o)) e

    kept-free :
        (c : Text) (mf : Manifest) (q : Plan)
        → c ≡ expected_managed_command mf.installed_binary_path mf.before_install
        → let p = choose_uninstall site j c mf q in
          (p.blocked ≡ q.blocked)
          × (p.not_installed ≡ q.not_installed)
          × (p.will_be_removed ≡ not mf.before_install.existed)
          × (p.proposed_command
              ≡ (if mf.before_install.existed then mf.before_install.original else []))
          × (p.plan_binary ≡ q.plan_binary)
          × (p.systemd_available && p.unit_currently_enabled
              ≡ (q.systemd_available && q.unit_currently_enabled))
          × (p.systemd_available && p.unit_currently_active
              ≡ (q.systemd_available && q.unit_currently_active))
    unfolding choose_uninstall
    kept-free c mf q e =
        let same_one : same c (expected_managed_command mf.installed_binary_path mf.before_install)
            ≡ true =
          ground arith in
        rw same_one (refl, refl, refl, refl, refl, refl, refl)

    -- The installation is gone, and the unit too where systemd is.
    pub record Gone (k : Machine) : Type 0 where
      pub binary_absent : k.files installed_binary ≡ none
      pub unit_absent : k.files unit_file ≡ none
      pub manifest_absent : k.files manifest_file ≡ none
      pub disabled : site.has_systemd ≡ true → k.unit_enabled ≡ false
      pub inactive : site.has_systemd ≡ true → k.unit_active ≡ false

    -- If no call fails, and no key of the settings differs from statusLine in case only, a run of
    -- uninstall gives exit status 0 and does to the status line command and the memory of the one
    -- before what uninstall_line says; an installation that was there is gone, and its unit, where
    -- there is systemd, is neither enabled nor active.
    pub run_uninstall-refines :
        (m : Machine) (line : Line)
        → Shows site j m line
        → Installable site j readable laws places checks line
        → (k : Machine) × Runs (run_uninstall site j false) m 0 k
          × Shows site j k (uninstall_line line)
          × (line.1 ≢ none → Gone k)
    unfolding run_uninstall uninstall_line compute_uninstall_plan carry_out_uninstall
    run_uninstall-refines m (c, none) shows ok = (
      m,
      or_exit-Runs _ _ m m m c 0 (detect-Runs site j m c shows.command_there) (
          or_exit-Runs _ _ m m m _ 0
            (bind-Runs _ _ m m m none _ (load_manifest-Runs site j m none shows.memory_there)
              (pure-Runs _ m))
            (pure-Runs 0 m)),
      shows,
      λ h. absurd (h refl),
    )
    run_uninstall-refines m (c, some b) shows (rc, ro) =
        let (mf, kept, path, before, expected, consistent) = shows.memory_there in
        let (there, planned) = uninstall_plan-Runs m c mf kept in
        let q : Plan = found m c mf there in
        let p : Plan = choose_uninstall site j c mf q in
        let (free, new, removed, proposed, binary, enabled, active) =
          kept-free c mf q (rw (path, before) expected) in
        let (fs, fields, plain) = shows.fields_there in
        let (k, restored, shown, fields', keeps, units) =
          restore-Runs b p m fs (rw (← before) removed) (rw (← before) proposed) consistent ro
            fields plain in
        let (l, applied, done_with) =
          apply_uninstall-Runs site j named p k new free (binary ∙ path) in
        let (command, fields'') = settings-same j.settings_json k l done_with.settings_same in
        (
          l,
          or_exit-Runs _ _ m m l c 0 (detect-Runs site j m c shows.command_there) (
              or_exit-Runs _ _ m m l p 0 planned (
                else-Runs p.not_installed _ _ m l 0 new (
                  else-Runs p.blocked _ _ m l 0 free (
                    or_exit-Runs _ _ m k l tt 0 restored
                      (or_exit-Runs _ _ k l l tt 0 applied (pure-Runs 0 l)))))),
          record {
            command_there = command ∙ shown;
            memory_there = gone-manifest l done_with.manifest_gone;
            fields_there = (fields'.0, fields'' ∙ fields'.1, fields'.2);
          },
          λ h. record {
            binary_absent = done_with.binary_gone;
            unit_absent = done_with.unit_gone;
            manifest_absent = done_with.manifest_gone;
            disabled = λ e. done_with.now_enabled ∙ rw (enabled, units.0) (cleared _ _ e);
            inactive = λ e. done_with.now_active ∙ rw (active, units.1) (cleared _ _ e);
          },
        )
