-- ===== src/Commands/Linking.antt =====
-- What the commands link and config do to the saved configuration, and the sink that the monitor
-- uses (cmd/ai-limit-notifier/main.go).
use ai_limit_notifier.Prelude.{
  ◌≡◌, refl, ◌∙◌, ap, Bool, true, false, not, ◌||◌, if◌then◌else◌, Text, [], Option, none, some,
  arith, Bool-cases, Option-cases, inl, inr,
}
use ai_limit_notifier.Domain.{Float64, percent, float_le, float_lt}
use ai_limit_notifier.Files.{
  config_file, manifest_file, Machine, done, ◌>>=◌, call, or_malformed, read_file, read_call,
}
use ai_limit_notifier.LocalConfig
use ai_limit_notifier.LocalConfig.{Config, zero_config, load, save, threshold}
use ai_limit_notifier.Installer
use ai_limit_notifier.Installer.Manifest.{Manifest, load_manifest}
use ai_limit_notifier.Installer.Unit.{start_unit, unit_is_active}
use ai_limit_notifier.Installer.Plan.{Json}
use ai_limit_notifier.Installer.Compute.{is_set}
use ai_limit_notifier.Installer.Reads.{content_at, content_of}
use ai_limit_notifier.Installer.Calm.{
  calm, Runs, Keeps, SameUnit, bind-Runs, pure-Runs, or_exit-Runs, other-Runs, ask-Runs, else-Runs,
  then-Runs, replace-Runs,
}
use ai_limit_notifier.Sink.{Exchange}
use ai_limit_notifier.Api.Pair.{PairRequest}
use ai_limit_notifier.Commands.{
  Shell, saved_or, resolve_server_url, passed_over, restart_unit, activate_found,
  activate_installed_service, run_link, pair_with_server, with_threshold, is_threshold,
  set_threshold, or_value,
}

found-Runs :
    {A : Type 0} (m : Machine) (o : Option A) (a : A) → o ≡ some a → Runs (or_malformed o) m a m
unfolding Runs
found-Runs m o a e = rw e refl

-- What `link` saves.
abbrev pub linked_config : Text → Text → Text → Config → Config
linked_config server_url device_id token c = record {
  schema_version = 1;
  server_url = server_url;
  device_id = device_id;
  device_token = token;
  notification_threshold = c.notification_threshold;
}

module _ (j : Json) where
  abbrev config_of : Option Text → Option Config
  config_of none = some zero_config
  config_of (some raw) = j.parse_config raw

  -- The saved configuration, unless it is malformed; without a file, the zero one.
  unfoldable pub config_at : Machine → Option Config
  config_at m = config_of (content_at m config_file)

  stored-Runs :
      (m : Machine) (raw : Option Text) (c : Config)
      → config_of raw ≡ some c
      → Runs (LocalConfig.parse_stored j.parse_config j.print_config raw) m c m
  unfolding Runs
  stored-Runs m none c h = ground arith
  stored-Runs m (some raw) c h = rw h refl

  load-Runs :
      (m : Machine) (c : Config)
      → config_at m ≡ some c
      → Runs (load j.parse_config j.print_config) m c m
  unfolding Runs ◌>>=◌ load read_file read_call config_at
  load-Runs m c h = stored-Runs m (content_at m config_file) c h

  -- encoding/json can hold the configuration and reads it back.
  abbrev pub Kept : Config → Type 0
  Kept c = (raw : Text) × (j.print_config c ≡ some raw) × (j.parse_config raw ≡ some c)

  save-Runs :
      (m : Machine) (c : Config)
      → Kept c
      → (k : Machine) × Runs (save j.parse_config j.print_config c) m tt k
        × (config_at k ≡ some c)
        × Keeps config_file m k
        × SameUnit m k
  unfolding save config_at
  save-Runs m c (raw, printed, again) =
      let (k, written, (at, keeps, units)) = replace-Runs config_file raw 384 m refl in
      (
        k,
        bind-Runs _ _ m m k _ _ (other-Runs m) (
            bind-Runs _ _ m m k _ _ (other-Runs m)
              (bind-Runs _ _ m m k raw tt (found-Runs m (j.print_config c) raw printed) written)),
        ap (λ o. config_of (content_of o)) at ∙ again,
        keeps,
        units,
      )

  -- If no call fails, setting a threshold above 0 and up to 100 gives exit status 0, and the saved
  -- configuration has that threshold from then on and otherwise what it had.
  pub set_threshold-saves :
      (parse_url : Text → Option (Text × Text)) (shell : Shell) (m : Machine) (c : Config)
      (n : Float64)
      → config_at m ≡ some c
      → (float_le n (percent 0) || float_lt (percent 100) n) ≡ false
      → Kept (with_threshold c n)
      → (k : Machine) × (s : Config) × Runs (set_threshold j parse_url shell (some n)) m 0 k
        × (config_at k ≡ some s)
        × (threshold s ≡ n)
        × (s.server_url ≡ c.server_url)
        × (s.device_id ≡ c.device_id)
        × (s.device_token ≡ c.device_token)
  unfolding set_threshold threshold
  set_threshold-saves parse_url shell m c n there range kept =
      let (k, saved, shown, keeps, units) = save-Runs m _ kept in
      (
        k,
        _,
        else-Runs (not (is_threshold n)) _ _ m k 0 (rw range refl) (
            or_exit-Runs _ _ m m k c 0 (load-Runs m c there)
              (or_exit-Runs _ _ m k k tt 0 saved (pure-Runs 0 k))),
        shown,
        rw range refl,
        refl,
        refl,
        refl,
      )

module _ (j : Json) (parse_url : Text → Option (Text × Text)) (shell : Shell) where
  -- The address by the precedence of the flag, the environment and the saved configuration.
  abbrev pub server_url_of : Text → Config → Text
  server_url_of flag c =
      if is_set flag
      then flag
      else if is_set shell.env_server_url
      then shell.env_server_url
      else c.server_url

  saved-Runs :
      {B : Type 0} (f : Config → B) (b : B) (m : Machine) (c : Config)
      → config_at j m ≡ some c
      → Runs (saved_or j parse_url shell f b) m (f c) m
  unfolding Runs
  saved-Runs f b m c h = ap (or_value f b) (unfold Runs in load-Runs j m c h)

  resolve-Runs :
      (flag : Text) (m : Machine) (c : Config)
      → config_at j m ≡ some c
      → Runs (resolve_server_url j parse_url shell flag) m (server_url_of flag c) m
  unfolding resolve_server_url
  resolve-Runs flag m c h = elim (Bool-cases (is_set flag)) [
    | inl e ↦ rw e (pure-Runs flag m)
    | inr e ↦ elim (Bool-cases (is_set shell.env_server_url)) [
      | inl e' ↦ rw (e, e') (pure-Runs shell.env_server_url m)
      | inr e' ↦ rw (e, e') (saved-Runs (λ c. c.server_url) [] m c h)
    ]
  ]

  found_manifest-Runs :
      (m : Machine) (raw : Option Text)
      → (mf : Option Manifest) × (or_value
            (λ (mf : Option Manifest). mf)
            none
            (Installer.Manifest.parse_stored j.parse_manifest j.print_manifest raw (calm m))
          ≡ (done mf, calm m))
  unfolding ◌>>=◌
  found_manifest-Runs m none = (none, refl)
  found_manifest-Runs m (some raw) = elim (Option-cases (j.parse_manifest raw)) [
    | inl e ↦ (none, rw e refl)
    | inr (mf, e) ↦ (some mf, rw e refl)
  ]

  load_manifest-Runs :
      (m : Machine)
      → (mf : Option Manifest) × Runs
          (λ m.
            or_value
              (λ (mf : Option Manifest). mf)
              none
              (load_manifest j.parse_manifest j.print_manifest m))
          m
          mf
          m
  unfolding Runs ◌>>=◌ load_manifest read_file read_call
  load_manifest-Runs m = found_manifest-Runs m (content_at m manifest_file)

  service-Runs :
      (m : Machine) (active : Bool)
      → (k : Machine) × Runs
          (λ m. passed_over ((if active then restart_unit else start_unit) m))
          m
          tt
          k
        × (k.files ≡ m.files)
  unfolding Runs restart_unit start_unit call
  service-Runs m true = (record m { unit_active = true }, refl, refl)
  service-Runs m false = (record m { unit_active = true }, refl, refl)

  activate_found-Runs :
      (m : Machine) (mf : Option Manifest)
      → (k : Machine) × Runs (activate_found j parse_url shell mf) m tt k × (k.files ≡ m.files)
  unfolding unit_is_active
  activate_found-Runs m none = (m, pure-Runs tt m, refl)
  activate_found-Runs m (some mf) =
      let (k, started, same_files) = service-Runs m m.unit_active in
      elim (Bool-cases shell.shell_systemd) [
        | inr e ↦ (
          m,
          bind-Runs _ _ m m m shell.shell_systemd tt (ask-Runs _ m)
              (then-Runs (not shell.shell_systemd) _ _ m m tt (rw e refl) (pure-Runs tt m)),
          refl,
        )
        | inl e ↦ (
          k,
          bind-Runs _ _ m m k shell.shell_systemd tt (ask-Runs _ m) (
              else-Runs (not shell.shell_systemd) _ _ m k tt (rw e refl)
                (bind-Runs _ _ m m k m.unit_active tt (ask-Runs _ m) started)),
          same_files,
        )
      ]

  activate-Runs :
      (m : Machine)
      → (k : Machine) × Runs (activate_installed_service j parse_url shell) m tt k
        × (k.files ≡ m.files)
  unfolding activate_installed_service
  activate-Runs m =
      let (mf, found) = load_manifest-Runs m in
      let (k, r, same_files) = activate_found-Runs m mf in
      (k, bind-Runs _ _ m m k mf tt found r, same_files)

  -- If no call fails and the server confirms the pairing, `link` gives exit status 0, and the
  -- saved configuration has the new device and its server, and the threshold that it had before.
  pub run_link-keeps_threshold :
      (parse_paired : Text → Option (Bool × Text × Text)) (exchange : Text → PairRequest → Exchange)
      (flag code device_id token : Text) (m : Machine) (c : Config)
      → config_at j m ≡ some c
      → is_set (server_url_of flag c) ≡ true
      → pair_with_server j parse_url shell parse_paired exchange (server_url_of flag c) code
        ≡ some (device_id, token)
      → Kept j (linked_config (server_url_of flag c) device_id token c)
      → (k : Machine) × (s : Config) × Runs
          (run_link j parse_url shell parse_paired exchange flag code)
          m
          0
          k
        × (config_at j k ≡ some s)
        × (threshold s ≡ threshold c)
        × (s.server_url ≡ server_url_of flag c)
        × (s.device_id ≡ device_id)
        × (s.device_token ≡ token)
  unfolding run_link config_at threshold
  run_link-keeps_threshold parse_paired exchange flag code device_id token m c there set paired
        kept =
      let (k, saved, shown, keeps, units) =
        save-Runs j m (linked_config (server_url_of flag c) device_id token c) kept in
      let (l, activated, same_files) = activate-Runs k in
      (
        l,
        linked_config (server_url_of flag c) device_id token c,
        bind-Runs _ _ m m l _ 0 (resolve-Runs flag m c there) (
            else-Runs (not (is_set (server_url_of flag c))) _ _ m l 0 (rw set refl) (
              or_exit-Runs _ _ m m l (device_id, token) 0 (found-Runs m _ _ paired)
                (bind-Runs _ _ m m l _ 0
                  (saved-Runs (λ c. c.notification_threshold) (percent 0) m c there)
                  (or_exit-Runs _ _ m k l tt 0 saved
                    (bind-Runs _ _ k l l tt 0 activated (pure-Runs 0 l)))))),
        ap (λ f. config_of j (content_of (f config_file))) same_files ∙ shown,
        refl,
        refl,
        refl,
        refl,
      )
