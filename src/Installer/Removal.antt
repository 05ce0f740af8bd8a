-- ===== src/Installer/Removal.antt =====
-- The effects of ApplyUninstall (internal/installer/apply.go) when no call fails.
use ai_limit_notifier.Prelude.{
  ◌≡◌, refl, sym, ◌∙◌, ap, Bool, true, false, not, ◌&&◌, Text, [], ◌∷◌, none, some, arith,
  Bool-cases, inl, inr, if◌then◌else◌,
}
use mathlib.Core.Path.{subst}
use ai_limit_notifier.Files.{
  Place, Machine, Io, settings_file, manifest_file, installed_binary, unit_file, socket_file, call,
  remove,
}
use ai_limit_notifier.Installer.Manifest.{remove_manifest}
use ai_limit_notifier.Installer.Unit.{
  daemon_reload_user, stop_unit, disable_unit, remove_unit, remove_installed_binary, place_of,
}
use ai_limit_notifier.Store.Event.{same}
use ai_limit_notifier.Installer.Plan.{Json, Site, Plan}
use ai_limit_notifier.Installer.Compute.{is_set}
use ai_limit_notifier.Installer.Apply.{when, remove_stale_socket_if_any, apply_uninstall}
use ai_limit_notifier.Installer.Calm.{
  Runs, Keeps, SameUnit, bind-Runs, else-Runs, then-Runs, pure-Runs, ask-Runs, remove-Runs,
}

stop-Runs :
    (b : Bool) (m : Machine)
    → (k : Machine) × Runs (when b stop_unit) m tt k
      × (k.files ≡ m.files)
      × (k.unit_enabled ≡ m.unit_enabled)
      × (k.unit_active ≡ (if b then false else m.unit_active))
unfolding Runs stop_unit call
stop-Runs true m = (record m { unit_active = false }, refl, refl, refl, refl)
stop-Runs false m = (m, refl, refl, refl, refl)

disable-Runs :
    (b : Bool) (m : Machine)
    → (k : Machine) × Runs (when b disable_unit) m tt k
      × (k.files ≡ m.files)
      × (k.unit_active ≡ m.unit_active)
      × (k.unit_enabled ≡ (if b then false else m.unit_enabled))
unfolding Runs disable_unit call
disable-Runs true m = (record m { unit_enabled = false }, refl, refl, refl, refl)
disable-Runs false m = (m, refl, refl, refl, refl)

reload-Runs : (b : Bool) (m : Machine) → Runs (when b daemon_reload_user) m tt m
unfolding Runs daemon_reload_user call
reload-Runs true m = refl
reload-Runs false m = refl

pub when-Runs :
    (b : Bool) (io : Io Unit) (m k : Machine) → b ≡ true → Runs io m tt k → Runs (when b io) m tt k
when-Runs true io m k e h = h
when-Runs false io m k e h = absurd (ground arith)

pub cleared : (a b : Bool) → a ≡ true → (if a && (a && b) then false else b) ≡ false
cleared a b e = ground arith

when-remove-Runs :
    (b : Bool) (p : Place) (m : Machine)
    → (k : Machine) × Runs (when b (remove p)) m tt k × Keeps p m k × SameUnit m k
when-remove-Runs true p m = let (k, r, gone, keeps, units) = remove-Runs p m in (k, r, keeps, units)
when-remove-Runs false p m = (m, pure-Runs tt m, (λ q e t. refl), (refl, refl))

socket-Runs :
    (site : Site) (m : Machine)
    → (k : Machine) × Runs (remove_stale_socket_if_any site) m tt k
      × Keeps socket_file m k
      × SameUnit m k
unfolding remove_stale_socket_if_any
socket-Runs site m =
    let missing : Bool = elim (m.files socket_file) [ none ↦ true | some x ↦ false ] in
    let (k, removed, keeps, units) = when-remove-Runs (not site.socket_listening) socket_file m in
    elim (Bool-cases missing) [
      | inl e ↦ (
        m,
        bind-Runs _ _ m m m missing tt (ask-Runs _ m)
            (then-Runs missing _ _ m m tt e (pure-Runs tt m)),
        (λ q e t. refl),
        (refl, refl),
      )
      | inr e ↦ (
        k,
        bind-Runs _ _ m m k missing tt (ask-Runs _ m)
            (else-Runs missing _ _ m k tt e (bind-Runs _ _ m m k _ tt (ask-Runs _ m) removed)),
        keeps,
        units,
      )
    ]

binary-Runs :
    (path : Text) (m : Machine)
    → is_set path ≡ true
    → (k : Machine) × Runs (remove_installed_binary path path) m tt k
      × (k.files installed_binary ≡ none)
      × Keeps installed_binary m k
      × SameUnit m k
unfolding remove_installed_binary place_of
binary-Runs [] m h = absurd (ground arith)
binary-Runs (c ∷ s) m h =
    let itself : same (c ∷ s) (c ∷ s) ≡ true = ground arith in
    rw itself (remove-Runs installed_binary m)

module _ (site : Site) (j : Json) (named : is_set site.binary_path ≡ true) where
  -- What ApplyUninstall leaves.
  pub record Removed (p : Plan) (m k : Machine) : Type 0 where
    pub binary_gone : k.files installed_binary ≡ none
    pub unit_gone : k.files unit_file ≡ none
    pub manifest_gone : k.files manifest_file ≡ none
    pub settings_same : k.files settings_file ≡ m.files settings_file
    pub now_enabled :
        k.unit_enabled
        ≡ (if p.systemd_available && p.unit_currently_enabled then false else m.unit_enabled)
    pub now_active :
        k.unit_active
        ≡ (if p.systemd_available && p.unit_currently_active then false else m.unit_active)

  pub apply_uninstall-Runs :
      (p : Plan) (m : Machine)
      → p.not_installed ≡ false
      → p.blocked ≡ false
      → p.plan_binary ≡ site.binary_path
      → (k : Machine) × Runs (apply_uninstall site j p) m tt k × Removed p m k
  unfolding apply_uninstall remove_unit remove_manifest
  apply_uninstall-Runs p m new free path =
      let (a, stopped, fa, ea, aa) = stop-Runs (p.systemd_available && p.unit_currently_active) m in
      let (b, disabled, fb, ab, eb) =
        disable-Runs (p.systemd_available && p.unit_currently_enabled) a in
      let (c, unit_removed, gc, kc, uc) = remove-Runs unit_file b in
      let (d, socket_removed, kd, ud) = socket-Runs site c in
      let (e, binary_removed, ge, ke, ue) = binary-Runs site.binary_path d named in
      let (f, manifest_removed, gf, kf, uf) = remove-Runs manifest_file e in
      let at : Runs (remove_installed_binary site.binary_path p.plan_binary) d tt e =
        subst (λ x. Runs (remove_installed_binary site.binary_path x) d tt e) (sym path)
          binary_removed in
      (
        f,
        else-Runs p.not_installed _ _ m f tt new (
            else-Runs p.blocked _ _ m f tt free (
              bind-Runs _ _ m a f _ _ stopped (
                bind-Runs _ _ a b f _ _ disabled (
                  bind-Runs _ _ b c f _ _ unit_removed (
                    bind-Runs _ _ c c f _ _ (reload-Runs p.systemd_available c) (
                      bind-Runs _ _ c d f _ _ socket_removed
                        (bind-Runs _ _ d e f _ _ at manifest_removed))))))),
        record {
          binary_gone = kf installed_binary refl refl ∙ ge;
          unit_gone = kf unit_file refl refl ∙ ke unit_file refl refl ∙ kd unit_file refl refl ∙ gc;
          manifest_gone = gf;
          settings_same =
              kf settings_file refl refl
              ∙ ke settings_file refl refl
              ∙ kd settings_file refl refl
              ∙ kc settings_file refl refl
              ∙ ap (λ r. r settings_file) fb
              ∙ ap (λ r. r settings_file) fa;
          now_enabled =
              uf.0
              ∙ ue.0
              ∙ ud.0
              ∙ uc.0
              ∙ eb
              ∙ ap (λ x. if p.systemd_available && p.unit_currently_enabled then false else x) ea;
          now_active = uf.1 ∙ ue.1 ∙ ud.1 ∙ uc.1 ∙ ab ∙ aa;
        },
      )
