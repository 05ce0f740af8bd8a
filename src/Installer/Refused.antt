-- ===== src/Installer/Refused.antt =====
-- The runs of install and uninstall that change nothing.
use ai_limit_notifier.Prelude.{
  ◌≡◌, ◌⊎◌, refl, ◌∙◌, ap, Bool, true, false, Text, [], Option, none, some, arith, inl, inr,
}
use ai_limit_notifier.Store.Event.{same}
use ai_limit_notifier.Files.{
  Machine, Result, done, failed, killed, Io, exists, settings_file, manifest_file, config_file,
}
use ai_limit_notifier.LocalConfig
use ai_limit_notifier.LocalConfig.{Config, load, zero_config}
use ai_limit_notifier.Installer.Manifest.{Manifest, load_manifest, parse_stored}
use ai_limit_notifier.Installer.Settings.{SettingsJson, detect_status_line, command_in}
use ai_limit_notifier.Installer.StatusLine.{malformed, classify_status_line}
use ai_limit_notifier.Installer.Unit.{unit_is_active, unit_is_enabled}
use ai_limit_notifier.Installer.Plan.{Json, Site, Plan, expected_managed_command, choose_install}
use ai_limit_notifier.Installer.Compute.{
  choose_uninstall, uninstall_of, ask_if, is_linked, compute_install_plan, compute_uninstall_plan,
  linked_answer,
}
use ai_limit_notifier.Installer.Apply.{
  carry_out_install, carry_out_uninstall, run_install, run_uninstall,
}
use ai_limit_notifier.Installer.Reads.{
  Same, Answer, Reads, bind-Reads, or_exit-Reads, pure-Reads, ask-Reads, or_malformed-Reads,
  read_file-Reads, content_at, Any,
}

abbrev pub command_of : SettingsJson → Option Text → Option Text
command_of j none = some []
command_of j (some raw) = j.parse_command raw

-- The command that the settings file holds, unless it is malformed.
unfoldable pub command_at : SettingsJson → Machine → Option Text
command_at j m = command_of j (content_at m settings_file)

abbrev pub found_manifest : Option Manifest → Option (Option Manifest)
found_manifest none = none
found_manifest (some mf) = some (some mf)

abbrev pub manifest_of_content : Json → Option Text → Option (Option Manifest)
manifest_of_content j none = some none
manifest_of_content j (some raw) = found_manifest (j.parse_manifest raw)

-- The manifest that is saved, if any, unless it is malformed.
unfoldable pub manifest_at : Json → Machine → Option (Option Manifest)
manifest_at j m = manifest_of_content j (content_at m manifest_file)

module _ (site : Site) (j : Json) (m : Machine) where
  abbrev pub CommandIs : Text → Type 0
  CommandIs c = command_at j.settings_json m ≡ some c

  abbrev pub ManifestIs : Option Manifest → Type 0
  ManifestIs mf = manifest_at j m ≡ some mf

  command_in-Reads :
      (raw : Option Text)
      → raw ≡ content_at m settings_file
      → Reads m CommandIs (command_in j.settings_json raw)
  unfolding command_at
  command_in-Reads none e = pure-Reads m _ [] (rw (← e) refl)
  command_in-Reads (some raw) e =
      or_malformed-Reads m _ (j.settings_json.parse_command raw) (λ c e'. rw (← e) e')

  pub detect-Reads : Reads m CommandIs (detect_status_line j.settings_json)
  unfolding detect_status_line
  detect-Reads = bind-Reads m _ _ _ _ (read_file-Reads m settings_file) command_in-Reads

  stored-Reads :
      (raw : Option Text)
      → raw ≡ content_at m manifest_file
      → Reads m ManifestIs (parse_stored j.parse_manifest j.print_manifest raw)
  unfolding manifest_at
  stored-Reads none e = pure-Reads m _ none (rw (← e) refl)
  stored-Reads (some raw) e =
      bind-Reads m _ _ _ _ (or_malformed-Reads m _ (j.parse_manifest raw) (λ mf e'. e'))
        (λ mf e'. pure-Reads m _ (some mf) (rw (← e) (ap found_manifest e')))

  load_manifest-Reads : Reads m ManifestIs (load_manifest j.parse_manifest j.print_manifest)
  unfolding load_manifest
  load_manifest-Reads = bind-Reads m _ _ _ _ (read_file-Reads m manifest_file) stored-Reads

  config-Reads :
      (raw : Option Text)
      → Reads m (Any {A = Config}) (LocalConfig.parse_stored j.parse_config j.print_config raw)
  config-Reads none = pure-Reads m _ zero_config tt
  config-Reads (some raw) = or_malformed-Reads m _ (j.parse_config raw) (λ c e. tt)

  linked_answer-Reads :
      (p : Result Config × Machine)
      → Same m p.1 × Answer (Any {A = Config}) p.0
      → let (r, k') = linked_answer p in Same m k' × Answer (Any {A = Bool}) r
  linked_answer-Reads (done c, k) s = s
  linked_answer-Reads (failed e, k) s = s
  linked_answer-Reads (killed, k) s = s

  load-Reads : Reads m (Any {A = Config}) (load j.parse_config j.print_config)
  unfolding load
  load-Reads = bind-Reads m _ _ _ _ (read_file-Reads m config_file) (λ raw _. config-Reads raw)

  is_linked-Reads : Reads m (Any {A = Bool}) (is_linked site j)
  unfolding Reads is_linked
  is_linked-Reads k s = linked_answer-Reads (load j.parse_config j.print_config k) (load-Reads k s)

  ask_if-Reads :
      (b : Bool) (io : Io Bool)
      → Reads m (Any {A = Bool}) io
      → Reads m (Any {A = Bool}) (ask_if b io)
  ask_if-Reads true io h = h
  ask_if-Reads false io h = pure-Reads m _ false tt

  -- What a run of install learns: a plan from the command and the manifest that are there.
  InstallPlan : Text → Plan → Type 0
  InstallPlan c p =
      (mf : Option Manifest) × (manifest_at j m ≡ some mf)
      × (q : Plan) × (p ≡ choose_install site c mf q)

  planned-Reads : (c : Text) → Reads m (InstallPlan c) (compute_install_plan site j c)
  unfolding compute_install_plan exists unit_is_active unit_is_enabled InstallPlan
  planned-Reads c = bind-Reads m _ _ _ _ (ask-Reads m _) λ found _.
      bind-Reads m _ _ _ _ load_manifest-Reads λ mf e.
        bind-Reads m _ _ _ _ (ask-Reads m _) λ available _.
          bind-Reads m _ _ _ _ (ask_if-Reads available _ (ask-Reads m _)) λ enabled _.
            bind-Reads m _ _ _ _ (ask_if-Reads available _ (ask-Reads m _)) λ active _.
              bind-Reads m _ _ _ _ (ask_if-Reads available _ (ask-Reads m _)) λ linger _.
                bind-Reads m _ _ _ _ is_linked-Reads λ linked _. pure-Reads m _ _ (mf, e, _, refl)

  -- What a run of uninstall learns.
  UninstallPlan : Text → Plan → Type 0
  UninstallPlan c p =
      ((manifest_at j m ≡ some none) × (p.not_installed ≡ true))
      ⊎ ((mf : Manifest) × (manifest_at j m ≡ some (some mf))
          × (q : Plan) × (p ≡ choose_uninstall site j c mf q)
          × (q.not_installed ≡ false))

  chosen-Reads :
      (c : Text) (mf : Option Manifest)
      → manifest_at j m ≡ some mf
      → Reads m (UninstallPlan c) (uninstall_of site j c mf)
  unfolding exists unit_is_active unit_is_enabled UninstallPlan
  chosen-Reads c none e = pure-Reads m _ _ (inl (e, refl))
  chosen-Reads c (some mf) e = bind-Reads m _ _ _ _ (ask-Reads m _) λ found _.
      bind-Reads m _ _ _ _ (ask-Reads m _) λ available _.
        bind-Reads m _ _ _ _ (ask_if-Reads available _ (ask-Reads m _)) λ enabled _.
          bind-Reads m _ _ _ _ (ask_if-Reads available _ (ask-Reads m _))
            λ active _. pure-Reads m _ _ (inr (mf, e, _, refl, refl))

  unplanned-Reads : (c : Text) → Reads m (UninstallPlan c) (compute_uninstall_plan site j c)
  unfolding compute_uninstall_plan
  unplanned-Reads c = bind-Reads m _ _ _ _ load_manifest-Reads (chosen-Reads c)

  shown-Reads : Reads m Any (run_install site j true)
  unfolding run_install
  shown-Reads =
      or_exit-Reads m _ _ _ _ tt detect-Reads
        λ c _. or_exit-Reads m _ _ _ _ tt (planned-Reads c) λ p _. pure-Reads m _ _ tt

  shown_uninstall-Reads : Reads m Any (run_uninstall site j true)
  unfolding run_uninstall
  shown_uninstall-Reads =
      or_exit-Reads m _ _ _ _ tt detect-Reads
        λ c _. or_exit-Reads m _ _ _ _ tt (unplanned-Reads c) λ p _. pure-Reads m _ _ tt

  -- A run that only shows its plan changes no file and no unit, whatever fails.
  pub run_plan-Same : Same m (run_install site j true m).1 × Same m (run_uninstall site j true m).1
  unfolding Reads
  run_plan-Same =
      ((shown-Reads m (refl, refl, refl)).0, (shown_uninstall-Reads m (refl, refl, refl)).0)

  -- The command is not what the manifest's installation set.
  abbrev pub Drifted : Text → Manifest → Type 0
  Drifted c mf =
      same c (expected_managed_command mf.installed_binary_path mf.before_install) ≡ false

  -- Without a manifest: a command that the classifier takes for malformed.
  abbrev pub Refused : Text → Option Manifest → Type 0
  Refused c none = (classify_status_line c).state ≡ malformed
  Refused c (some mf) = Drifted c mf

  install-blocked :
      (c : Text) (mf : Option Manifest) (q : Plan)
      → Refused c mf
      → (choose_install site c mf q).blocked ≡ true
  unfolding choose_install
  install-blocked c none q h = rw h refl
  install-blocked c (some mf) q h = rw h refl

  uninstall-blocked :
      (c : Text) (mf : Manifest) (q : Plan)
      → Drifted c mf
      → ((choose_uninstall site j c mf q).blocked ≡ true)
        × ((choose_uninstall site j c mf q).not_installed ≡ q.not_installed)
  unfolding choose_uninstall
  uninstall-blocked c mf q h = rw h (refl, refl)

module _ (site : Site) (j : Json) (m : Machine) (c : Text)
    (at : command_at j.settings_json m ≡ some c) where
  module _ (mf : Option Manifest) (kept : manifest_at j m ≡ some mf)
      (refused : Refused site j m c mf) where
    planned-blocked :
        (c' : Text) (p : Plan)
        → command_at j.settings_json m ≡ some c'
        → InstallPlan site j m c' p
        → p.blocked ≡ true
    unfolding InstallPlan
    planned-blocked c' p at' (mf', kept', q, e) =
        let same_command : c' ≡ c = ground arith in
        let same_manifest : mf' ≡ mf = ground arith in
        rw (e, same_command, same_manifest) (install-blocked site j m c mf q refused)

    refused_install-Reads : Reads m (λ code. code ≡ 1) (run_install site j false)
    unfolding run_install carry_out_install
    refused_install-Reads = or_exit-Reads m _ _ _ _ refl (detect-Reads site j m) λ c' at'.
        or_exit-Reads m _ _ _ _ refl (planned-Reads site j m c')
          λ p planned. rw (planned-blocked c' p at' planned) (pure-Reads m _ _ refl)

    -- A refused installation gives exit status 1 and changes no file and no unit, whatever fails:
    -- without a manifest if the command is malformed, and with one if the command is not the one
    -- that the manifest's installation set.
    pub run_install-Refused :
        let (r, m') = run_install site j false m in Same m m' × Answer (λ code. code ≡ 1) r
    unfolding Reads
    run_install-Refused = refused_install-Reads m (refl, refl, refl)

  module _ (mf : Manifest) (kept : manifest_at j m ≡ some (some mf))
      (drift : Drifted site j m c mf) where
    unplanned-blocked :
        (c' : Text) (p : Plan)
        → command_at j.settings_json m ≡ some c'
        → UninstallPlan site j m c' p
        → (p.blocked ≡ true) × (p.not_installed ≡ false)
    unfolding UninstallPlan
    unplanned-blocked c' p at' (inl (kept', e)) = absurd (ground arith)
    unplanned-blocked c' p at' (inr (mf', kept', q, e, installed)) =
        let same_command : c' ≡ c = ground arith in
        let same_manifest : mf' ≡ mf = ground arith in
        let (b, n) = uninstall-blocked site j m c mf q drift in
        rw (e, same_command, same_manifest) (b, n ∙ installed)

    refused_uninstall-Reads : Reads m (λ code. code ≡ 1) (run_uninstall site j false)
    unfolding run_uninstall carry_out_uninstall
    refused_uninstall-Reads = or_exit-Reads m _ _ _ _ refl (detect-Reads site j m) λ c' at'.
        or_exit-Reads m _ _ _ _ refl (unplanned-Reads site j m c') λ p planned.
          let (b, n) = unplanned-blocked c' p at' planned in rw (n, b) (pure-Reads m _ _ refl)

    -- A removal gives exit status 1 and changes no file and no unit, whatever fails, if the
    -- command is not the one that the manifest's installation set.
    pub run_uninstall-Refused :
        let (r, m') = run_uninstall site j false m in Same m m' × Answer (λ code. code ≡ 1) r
    unfolding Reads
    run_uninstall-Refused = refused_uninstall-Reads m (refl, refl, refl)
