-- ===== src/Installer/Installs.antt =====
-- A run of install in which no call fails.
use ai_limit_notifier.Prelude.{
  ◌≡◌, refl, Bool, true, false, ◌&&◌, Text, Option, none, some, arith, Option-cases, inl, inr,
}
use ai_limit_notifier.Files.{
  File, Machine, done, ◌>>=◌, ask, exists, settings_file, manifest_file, installed_binary,
  config_file, read_call, read_file,
}
use ai_limit_notifier.LocalConfig
use ai_limit_notifier.LocalConfig.{Config, load}
use ai_limit_notifier.Installer.Manifest.{Manifest, load_manifest, parse_stored}
use ai_limit_notifier.Installer.Settings.{command_in, detect_status_line}
use ai_limit_notifier.Installer.Unit.{unit_is_active, unit_is_enabled}
use ai_limit_notifier.Installer.StatusLine.{classify_status_line}
use ai_limit_notifier.Installer.Plan.{Json, Site, Plan, empty_plan, choose_install}
use ai_limit_notifier.Installer.Compute.{
  is_set, ask_if, linked_answer, is_linked, compute_install_plan,
}
use ai_limit_notifier.Installer.Reads.{content_at}
use ai_limit_notifier.Installer.Refused.{command_at, manifest_at, command_of, manifest_of_content}
use ai_limit_notifier.Installer.Calm.{calm, Runs, bind-Runs, pure-Runs, ask-Runs}

module _ (site : Site) (j : Json) (m : Machine) where
  command_in-Runs :
      (raw : Option Text) (c : Text)
      → command_of j.settings_json raw ≡ some c
      → Runs (command_in j.settings_json raw) m c m
  unfolding Runs
  command_in-Runs none c h = ground arith
  command_in-Runs (some raw) c h = rw h refl

  pub detect-Runs :
      (c : Text)
      → command_at j.settings_json m ≡ some c
      → Runs (detect_status_line j.settings_json) m c m
  unfolding Runs ◌>>=◌ detect_status_line read_file read_call command_at
  detect-Runs c h = command_in-Runs (content_at m settings_file) c h

  stored-Runs :
      (raw : Option Text) (mf : Option Manifest)
      → manifest_of_content j raw ≡ some mf
      → Runs (parse_stored j.parse_manifest j.print_manifest raw) m mf m
  unfolding Runs ◌>>=◌
  stored-Runs none mf h = ground arith
  stored-Runs (some raw) mf h = elim (Option-cases (j.parse_manifest raw)) [
    | inl e ↦ absurd (ground arith)
    | inr (a, e) ↦ let same_manifest : mf ≡ some a = ground arith in rw (e, same_manifest) refl
  ]

  pub load_manifest-Runs :
      (mf : Option Manifest)
      → manifest_at j m ≡ some mf
      → Runs (load_manifest j.parse_manifest j.print_manifest) m mf m
  unfolding Runs ◌>>=◌ load_manifest read_file read_call manifest_at
  load_manifest-Runs mf h = stored-Runs (content_at m manifest_file) mf h

  config-Runs :
      (raw : Option Text)
      → (b : Bool) × (linked_answer
            (LocalConfig.parse_stored j.parse_config j.print_config raw (calm m))
          ≡ (done b, calm m))
  config-Runs none = (false, refl)
  config-Runs (some raw) = elim (Option-cases (j.parse_config raw)) [
    | inl e ↦ (false, rw e refl)
    | inr (c, e) ↦ (is_set c.server_url && is_set c.device_token, rw e refl)
  ]

  is_linked-Runs : (b : Bool) × Runs (is_linked site j) m b m
  unfolding Runs ◌>>=◌ is_linked load read_file read_call
  is_linked-Runs = config-Runs (content_at m config_file)

  pub ask_if-Runs :
      (b : Bool) (answer : Machine → Bool) → Runs (ask_if b (ask answer)) m (b && answer (calm m)) m
  unfolding Runs ask
  ask_if-Runs true answer = refl
  ask_if-Runs false answer = refl

  abbrev present : Option File → Bool
  present none = false
  present (some x) = true

  -- The facts that a plan is made from.
  abbrev pub facts : Text → Option Manifest → Bool → Plan
  facts c mf linked = record empty_plan {
    plan_binary = site.binary_path;
    binary_currently_exists = present (m.files installed_binary);
    plan_manifest = mf;
    systemd_available = site.has_systemd;
    plan_unit_path = site.unit_path;
    unit_currently_enabled = site.has_systemd && m.unit_enabled;
    unit_currently_active = site.has_systemd && m.unit_active;
    linger_currently_enabled = site.has_systemd && site.linger;
    linked = linked;
    current_state = (classify_status_line c).state;
    current_command = c;
  }

  pub plan-Runs :
      (c : Text) (mf : Option Manifest)
      → manifest_at j m ≡ some mf
      → (linked : Bool) × Runs
          (compute_install_plan site j c)
          m
          (choose_install site c mf (facts c mf linked))
          m
  unfolding compute_install_plan exists unit_is_enabled unit_is_active
  plan-Runs c mf h =
      let (linked, l) = is_linked-Runs in
      (
        linked,
        bind-Runs _ _ m m m _ _ (ask-Runs _ m) (
            bind-Runs _ _ m m m _ _ (load_manifest-Runs mf h) (
              bind-Runs _ _ m m m _ _ (ask-Runs _ m) (
                bind-Runs _ _ m m m _ _ (ask_if-Runs _ _) (
                  bind-Runs _ _ m m m _ _ (ask_if-Runs _ _) (
                    bind-Runs _ _ m m m _ _ (ask_if-Runs _ _)
                      (bind-Runs _ _ m m m _ _ l (pure-Runs _ m))))))),
      )
