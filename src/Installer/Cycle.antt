-- ===== src/Installer/Cycle.antt =====
-- An installation followed by its removal, and one that is cut off before its last step.
use ai_limit_notifier.Prelude.{
  ◌≡◌, ◌≢◌, refl, sym, ◌∙◌, ap, Bool, true, false, Text, ascii, List, [], ◌∷◌, none, some, arith,
  Bool-cases, Option-cases, inl, inr, if◌then◌else◌,
}
use ai_limit_notifier.Files.{Fate, Machine}
use ai_limit_notifier.Installer.Manifest.{Manifest, Before}
use ai_limit_notifier.Installer.Unit.{found_problem}
use ai_limit_notifier.Store.Event.{same}
use ai_limit_notifier.Installer.StatusLine.{
  ClassifiedStatusLine, existing_non_notifier, managed, classify_other, classify_status_line,
  contains, is_blank, build_status_line_command, parse_fail_open_command,
  parse_legacy_manual_wrapper_command,
}
use ai_limit_notifier.Installer.Plan.{Json, Site, Plan, choose_install, expected_managed_command}
use ai_limit_notifier.Installer.Compute.{is_set, compute_install_plan}
use ai_limit_notifier.Installer.Apply.{manifest_of, apply_install, run_install, run_uninstall}
use ai_limit_notifier.Installer.Reads.{Same, Answer}
use ai_limit_notifier.Installer.Refused.{
  Drifted, run_install-Refused, run_uninstall-Refused, command_at, manifest_at,
}
use ai_limit_notifier.Installer.Calm.{Runs}
use ai_limit_notifier.Installer.Installs.{plan-Runs, facts}
use ai_limit_notifier.Installer.Applied.{apply-Runs}
use ai_limit_notifier.Installer.Classify.{classify-build}
use ai_limit_notifier.Installer.Line.{
  before_of, install_line, uninstall_line, classify-Consistent, fresh-Chosen, fresh-new,
}
use ai_limit_notifier.Installer.Laws.{
  Laws, ManifestAgain, SiteReadable, kept-again, settings-same, manifest-content,
}
use ai_limit_notifier.Installer.Refines.{Shows, run_install-refines}
use ai_limit_notifier.Installer.Removes.{Gone, run_uninstall-refines}

Own : ClassifiedStatusLine → Text → Type 0
Own r c = r.state ≡ existing_non_notifier → r.original_command ≡ c

managed-Own : (o c : Text) → Own (managed o) c
unfolding Own
managed-Own [] c = λ e. absurd (ground arith)
managed-Own (a ∷ s) c = λ e. absurd (ground arith)

other-Own : (c : Text) → Own (classify_other c) c
unfolding Own classify_other
other-Own c = elim (Bool-cases (contains c (ascii "statusline-wrapper"))) [
  | inl e ↦ rw e (λ h. absurd (ground arith))
  | inr e ↦ rw e (λ h. refl)
]

-- A command that is not the notifier's is its own original.
existing-original : (c : Text) → Own (classify_status_line c) c
unfolding classify_status_line
existing-original c = elim (Bool-cases (is_blank 0 c)) [
  | inl e ↦ rw e (unfold Own in λ h. absurd (ground arith))
  | inr e ↦ elim (Option-cases (parse_fail_open_command c)) [
    | inr (o, e') ↦ rw (e, e') (managed-Own o c)
    | inl e' ↦ elim (Option-cases (parse_legacy_manual_wrapper_command c)) [
      | inr (o, e'') ↦ rw (e, e', e'') (managed-Own o c)
      | inl e'' ↦ rw (e, e', e'') (other-Own c)
    ]
  ]
]

existing-own :
    (c : Text)
    → (classify_status_line c).state ≡ existing_non_notifier
    → (classify_status_line c).original_command ≡ c
unfolding Own
existing-own c h = existing-original c h

managed-not_existing : (o : Text) → (managed o).state ≢ existing_non_notifier
managed-not_existing [] = λ e. absurd (ground arith)
managed-not_existing (c ∷ s) = λ e. absurd (ground arith)

-- A command that is not the notifier's is never the one that an installation set.
existing-Drifted :
    (site : Site) (j : Json) (m : Machine) (c : Text) (mf : Manifest)
    → (classify_status_line c).state ≡ existing_non_notifier
    → Drifted site j m c mf
unfolding expected_managed_command
existing-Drifted site j m c mf h =
    let b : Before = mf.before_install in
    let o : Text = if b.existed then b.original else [] in
    let built : Text = build_status_line_command mf.installed_binary_path o in
    elim (Bool-cases (same c built)) [
      | inl e ↦
          let is_built : c ≡ built = ground arith in
          absurd (
            managed-not_existing o (
              ap (λ r. r.state) (sym (classify-build mf.installed_binary_path o))
              ∙ ap (λ t. (classify_status_line t).state) (sym is_built)
              ∙ h))
      | inr e ↦ e
    ]

module _ (site : Site) (j : Json) (readable : Text → Bool) (laws : Laws j readable)
    (places : SiteReadable site readable) (checks : site.verification ≢ found_problem)
    (named : is_set site.binary_path ≡ true) where
  -- The lines that an installation and a removal bring back.
  cycle_lem :
      (c : Text)
      → (classify_status_line c).state ≡ existing_non_notifier
      → uninstall_line (install_line site.binary_path (c, none)) ≡ (c, none)
  unfolding install_line uninstall_line
  cycle_lem c h = rw (h, existing-own c h) refl

  -- If no call fails, and no key of the settings differs from statusLine in case only, an
  -- installation over a command that is not the notifier's and the removal after it both give exit
  -- status 0, and bring back that command; the binary, the unit file and the manifest are gone.
  pub install-uninstall :
      (m : Machine) (c : Text)
      → Shows site j m (c, none)
      → (classify_status_line c).state ≡ existing_non_notifier
      → readable (expected_managed_command site.binary_path (before_of c)) ≡ true
      → readable (before_of c).original ≡ true
      → (k : Machine) × Runs (run_install site j false) m 0 k
        × ((l : Machine) × Runs (run_uninstall site j false) k 0 l
            × (command_at j.settings_json l ≡ some c)
            × Gone site j named readable laws places checks l)
  unfolding install_line
  install-uninstall m c shows h rc ro =
      let (k, installed, shown, complete) =
        run_install-refines site j readable laws places checks m (c, none) shows
          ((λ e. absurd (ground (arith, h, e))), rc, ro) in
      let (l, removed, shown', gone) =
        run_uninstall-refines site j named readable laws places checks k
          (install_line site.binary_path (c, none)) shown (rc, ro) in
      (
        k,
        installed,
        (
          l,
          removed,
          shown'.command_there ∙ ap (λ x. some x.0) (cycle_lem c h),
          gone (λ e. absurd (ground arith)),
        ),
      )

module _ (site : Site) (j : Json) (readable : Text → Bool) (again : ManifestAgain j readable)
    (places : SiteReadable site readable) (checks : site.verification ≢ found_problem) where
  -- What the two commands do on a machine that has the given files and units, whatever fails.
  abbrev pub StuckAt : Machine → Type 0
  StuckAt m =
      let (r, k) = run_install site j false m in
      let (r', l) = run_uninstall site j false m in
      (Same m k × Answer (λ code. code ≡ 1) r) × (Same m l × Answer (λ code. code ≡ 1) r')

  -- A first installation over a command that is not the notifier's, cut off after ApplyInstall and
  -- before the status line is changed, leaves a machine on which every later install and uninstall
  -- gives exit status 1 and changes nothing, if the manifest is read back as it was written.
  pub interrupted_install-Stuck :
      (m : Machine) (c : Text)
      → command_at j.settings_json m ≡ some c
      → manifest_at j m ≡ some none
      → (classify_status_line c).state ≡ existing_non_notifier
      → readable (before_of c).original ≡ true
      → (p : Plan) × Runs (compute_install_plan site j c) m p m
        × ((k : Machine) × Runs (apply_install site j p) m tt k
            × ((fs : List Fate) → StuckAt (record k { fates = fs })))
  unfolding choose_install command_at manifest_at
  interrupted_install-Stuck m c there unmanaged h ro =
      let (linked, planned) = plan-Runs site j m c none unmanaged in
      let q : Plan = facts site j m c none linked in
      let p : Plan = choose_install site c none q in
      let r : ClassifiedStatusLine = classify_status_line c in
      let chosen =
        fresh-Chosen site c q r.state r.original_command (classify-Consistent c)
          (λ e. absurd (ground (arith, h, e))) refl refl refl in
      let (k, applied, installed) =
        apply-Runs site checks j p m chosen.free
          (fresh-new site c q r.state r.original_command refl) in
      let saved : manifest_at j k ≡ some (some (manifest_of site p)) =
        manifest-content j k (manifest_of site p) 384 installed.manifest_saved
          (kept-again site j readable again places _ (before_of c) q p chosen (refl, refl) ro).1 in
      let command : command_at j.settings_json k ≡ some c =
        (settings-same j.settings_json m k installed.settings_same).0 ∙ there in
      (
        p,
        planned,
        (
          k,
          applied,
          λ fs. (
            run_install-Refused site j (record k { fates = fs }) c command
                (some (manifest_of site p)) saved
                (existing-Drifted site j k c (manifest_of site p) h),
            run_uninstall-Refused site j (record k { fates = fs }) c command (manifest_of site p)
                saved (existing-Drifted site j k c (manifest_of site p) h),
          ),
        ),
      )
