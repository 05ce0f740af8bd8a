-- ===== src/Installer/Applied.antt =====
-- The effects of ApplyInstall and of the settings' update when no call fails.
use ai_limit_notifier.Prelude.{◌≡◌, ◌≢◌, refl, ◌∙◌, Bool, true, false, some, arith}
use ai_limit_notifier.Files.{
  Machine, settings_file, manifest_file, installed_binary, unit_file, call, read_call,
}
use ai_limit_notifier.Installer.Manifest.{save_manifest}
use ai_limit_notifier.Installer.Unit.{
  Verification, verified, unsupported_here, not_run, found_problem, verify_unit, write_unit,
  install_binary, daemon_reload_user, enable_unit, start_unit,
}
use ai_limit_notifier.Installer.Plan.{Json, Site, Plan}
use ai_limit_notifier.Installer.Apply.{install_service, when, manifest_of, apply_install}
use ai_limit_notifier.Installer.Calm.{
  Runs, Keeps, bind-Runs, else-Runs, pure-Runs, other-Runs, replace-Runs,
}

verify-Runs :
    (v : Verification) (m : Machine) → v ≢ found_problem → (b : Bool) × Runs (verify_unit v) m b m
unfolding Runs verify_unit read_call
verify-Runs verified m h = (true, refl)
verify-Runs unsupported_here m h = (false, refl)
verify-Runs found_problem m h = absurd (h refl)
verify-Runs not_run m h = (false, refl)

start-Runs :
    (b : Bool) (m : Machine)
    → (k : Machine) × Runs (when b start_unit) m tt k
      × (k.files ≡ m.files)
      × (k.unit_enabled ≡ m.unit_enabled)
unfolding Runs start_unit call
start-Runs true m = (record m { unit_active = true }, refl, refl, refl)
start-Runs false m = (m, refl, refl, refl)

enable-Runs : (m : Machine) → Runs enable_unit m tt (record m { unit_enabled = true })
unfolding Runs enable_unit call
enable-Runs m = refl

reload-Runs : (m : Machine) → Runs daemon_reload_user m tt m
unfolding Runs daemon_reload_user call
reload-Runs m = refl

module _ (site : Site) (checks : site.verification ≢ found_problem) where
  service-Runs :
      (p : Plan) (m : Machine)
      → (k : Machine) × Runs (install_service site p) m tt k
        × Keeps unit_file m k
        × (k.unit_enabled ≡ true)
  unfolding install_service write_unit
  service-Runs p m =
      let (k, written, (at, keeps, units)) = replace-Runs unit_file p.unit_content 420 m refl in
      let (ok, checked) = verify-Runs site.verification k checks in
      let enabled : Machine = record k { unit_enabled = true } in
      let (l, started, files, unit) = start-Runs p.will_start_unit enabled in
      (
        l,
        bind-Runs _ _ m k l _ _ (bind-Runs _ _ m m k _ _ (other-Runs m) written) (
            bind-Runs _ _ k k l _ _ checked (
              bind-Runs _ _ k k l _ _ (reload-Runs k)
                (bind-Runs _ _ k enabled l _ _ (enable-Runs k) started))),
        rw files keeps,
        unit,
      )

  when-service-Runs :
      (b : Bool) (p : Plan) (m : Machine)
      → (k : Machine) × Runs (when b (install_service site p)) m tt k
        × Keeps unit_file m k
        × (b ≡ true → k.unit_enabled ≡ true)
  when-service-Runs true p m = let (k, r, keeps, on) = service-Runs p m in (k, r, keeps, λ _. on)
  when-service-Runs false p m = (m, pure-Runs tt m, (λ q e t. refl), λ e. absurd (ground arith))

  -- What an installation leaves before the settings are changed.
  pub record Installed (j : Json) (p : Plan) (m k : Machine) : Type 0 where
    pub manifest_saved :
        k.files manifest_file
        ≡ some (record { content = j.print_manifest (manifest_of site p); mode = 384 })
    pub binary_there :
        k.files installed_binary ≡ some (record { content = site.executable; mode = 493 })
    pub enabled_there : p.systemd_available ≡ true → k.unit_enabled ≡ true
    pub settings_same : k.files settings_file ≡ m.files settings_file

  pub apply-Runs :
      (j : Json) (p : Plan) (m : Machine)
      → p.blocked ≡ false
      → p.already_installed ≡ false
      → (k : Machine) × Runs (apply_install site j p) m tt k × Installed j p m k
  unfolding apply_install install_binary save_manifest
  apply-Runs j p m free new =
      let (k, copied, (at, keeps, units)) =
        replace-Runs installed_binary site.executable 493 m refl in
      let (l, served, keeps', on) = when-service-Runs p.systemd_available p k in
      let (n, saved, (at', keeps'', units')) =
        replace-Runs manifest_file (j.print_manifest (manifest_of site p)) 384 l refl in
      (
        n,
        else-Runs p.blocked _ _ m n tt free (
            else-Runs p.already_installed _ _ m n tt new (
              bind-Runs _ _ m k n _ _
                (bind-Runs _ _ m m k _ _ (other-Runs m)
                  (bind-Runs _ _ m m k _ _ (other-Runs m) copied))
                (bind-Runs _ _ k l n _ _ served (
                  bind-Runs _ _ l l n _ _ (other-Runs l)
                    (bind-Runs _ _ l l n _ _ (other-Runs l) saved))))),
        record {
          manifest_saved = at';
          binary_there =
              keeps'' installed_binary refl refl ∙ keeps' installed_binary refl refl ∙ at;
          enabled_there = λ e. units'.0 ∙ on e;
          settings_same =
              keeps'' settings_file refl refl
              ∙ keeps' settings_file refl refl
              ∙ keeps settings_file refl refl;
        },
      )
