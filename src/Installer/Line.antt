-- ===== src/Installer/Line.antt =====
-- The promise of install and uninstall: what they do to the status line command.
use ai_limit_notifier.Prelude.{
  ◌≡◌, ◌≢◌, refl, sym, true, false, if◌then◌else◌, Text, ascii, [], ◌∷◌, Option, none, some, arith,
  Bool-cases, Option-cases, inl, inr,
}
use ai_limit_notifier.Store.Event.{same}
use ai_limit_notifier.Installer.RoundTrip.{join-first}
use ai_limit_notifier.Installer.Manifest.{Before, Manifest}
use ai_limit_notifier.Installer.StatusLine.{
  StatusLineState, ClassifiedStatusLine, absent, malformed, notifier_with_original,
  notifier_without_original, existing_non_notifier, managed, classify_other, contains, is_blank,
  parse_fail_open_command, parse_legacy_manual_wrapper_command, classify_status_line,
  build_status_line_command, sh, dash_c, script,
}
use ai_limit_notifier.Installer.Plan.{
  Site, Plan, is_existing, expected_managed_command, with_service, choose_fresh, choose_install,
}
use ai_limit_notifier.Installer.Compute.{is_set}

-- The command, and what is remembered of the one before the installation, if there is one.
abbrev pub Line : Type 0
Line = Text × Option Before

abbrev pub before_of : Text → Before
before_of c = record {
  existed = is_existing (classify_status_line c).state;
  original = (classify_status_line c).original_command;
}

unfoldable pub install_line : Text → Line → Line
install_line binary (c, none) = (expected_managed_command binary (before_of c), some (before_of c))
install_line binary (c, some b) = (c, some b)

unfoldable pub uninstall_line : Line → Line
uninstall_line (c, none) = (c, none)
uninstall_line (c, some b) = (if b.existed then b.original else [], none)

abbrev Consistent : ClassifiedStatusLine → Type 0
Consistent r = is_existing r.state ≡ is_set r.original_command

managed-Consistent : (o : Text) → Consistent (managed o)
managed-Consistent [] = refl
managed-Consistent (c ∷ s) = refl

other-Consistent : (c : Text) → is_blank 0 c ≡ false → Consistent (classify_other c)
unfolding classify_other is_blank
other-Consistent [] h = absurd (ground arith)
other-Consistent (a ∷ s) h = elim (Bool-cases (contains (a ∷ s) (ascii "statusline-wrapper"))) [
  | inl e ↦ rw e refl
  | inr e ↦ rw e refl
]

-- A command before an installation is remembered exactly if there was one.
pub classify-Consistent : (c : Text) → Consistent (classify_status_line c)
unfolding classify_status_line
classify-Consistent c = elim (Bool-cases (is_blank 0 c)) [
  | inl e ↦ rw e refl
  | inr e ↦ elim (Option-cases (parse_fail_open_command c)) [
    | inr (o, e') ↦ rw (e, e') (managed-Consistent o)
    | inl e' ↦ elim (Option-cases (parse_legacy_manual_wrapper_command c)) [
      | inr (o, e'') ↦ rw (e, e', e'') (managed-Consistent o)
      | inl e'' ↦ rw (e, e', e'') (other-Consistent c e)
    ]
  ]
]

pub build-set : (binary original : Text) → is_set (build_status_line_command binary original) ≡ true
unfolding build_status_line_command
build-set binary original =
    let (r, e) = join-first sh (dash_c ∷ script ∷ sh ∷ original ∷ binary ∷ []) in rw e refl

-- A plan that is carried out, by what it says of the command.
pub record Chosen (site : Site) (line : Line) (q p : Plan) : Type 0 where
  pub free : p.blocked ≡ false
  pub proposed : p.proposed_command ≡ line.0
  pub before :
      some (record { existed = p.original_existed; original = p.original_command }) ≡ line.1
  pub same_binary : p.plan_binary ≡ q.plan_binary
  pub same_systemd : p.systemd_available ≡ q.systemd_available
  pub same_unit : p.plan_unit_path ≡ q.plan_unit_path
  pub codex : p.plan_codex_dir ≡ site.codex_bin_dir

unset : (t : Text) → is_set t ≡ false → t ≡ []
unset [] h = refl
unset (c ∷ s) h = absurd (ground arith)

module _ (site : Site) (c : Text) (q : Plan) where
  abbrev FreshChoice : StatusLineState → Text → Type 0
  FreshChoice state original =
      let before : Before = record { existed = is_existing state; original = original } in
      Chosen site (expected_managed_command site.binary_path before, some before) q
        (choose_fresh site c state original q)

  -- The switch without a manifest, for a plan that holds nothing of the command yet.
  pub fresh-Chosen :
      (state : StatusLineState) (original : Text)
      → is_existing state ≡ is_set original
      → state ≢ malformed
      → q.blocked ≡ false
      → q.original_existed ≡ false
      → q.original_command ≡ []
      → FreshChoice state original
  unfolding with_service expected_managed_command
  fresh-Chosen absent original h sound free existed none_yet =
      let e : original ≡ [] = unset original (sym h) in
      record {
        free = free;
        proposed = refl;
        before = rw (e, none_yet) refl;
        same_binary = refl;
        same_systemd = refl;
        same_unit = refl;
        codex = refl;
      }
  fresh-Chosen existing_non_notifier original h sound free existed none_yet = record {
    free = free;
    proposed = refl;
    before = refl;
    same_binary = refl;
    same_systemd = refl;
    same_unit = refl;
    codex = refl;
  }
  fresh-Chosen notifier_with_original original h sound free existed none_yet = record {
    free = free;
    proposed = refl;
    before = refl;
    same_binary = refl;
    same_systemd = refl;
    same_unit = refl;
    codex = refl;
  }
  fresh-Chosen notifier_without_original original h sound free existed none_yet =
      let e : original ≡ [] = unset original (sym h) in
      record {
        free = free;
        proposed = rw e refl;
        before = refl;
        same_binary = refl;
        same_systemd = refl;
        same_unit = refl;
        codex = refl;
      }
  fresh-Chosen malformed original h sound free existed none_yet = absurd (sound refl)

  -- The branch with a manifest whose command is still there.
  pub kept-Chosen :
      (mf : Manifest)
      → q.blocked ≡ false
      → c ≡ expected_managed_command mf.installed_binary_path mf.before_install
      → Chosen site (c, some mf.before_install) q (choose_install site c (some mf) q)
  unfolding choose_install with_service
  kept-Chosen mf free e =
      let same_one : same c (expected_managed_command mf.installed_binary_path mf.before_install)
          ≡ true =
        ground arith in
      rw same_one (record {
        free = free;
        proposed = sym e;
        before = refl;
        same_binary = refl;
        same_systemd = refl;
        same_unit = refl;
        codex = refl;
      })

  -- Without a manifest nothing counts as installed.
  pub fresh-new :
      (state : StatusLineState) (original : Text)
      → q.already_installed ≡ false
      → (choose_fresh site c state original q).already_installed ≡ false
  unfolding with_service
  fresh-new absent original h = h
  fresh-new existing_non_notifier original h = h
  fresh-new notifier_with_original original h = h
  fresh-new notifier_without_original original h = h
  fresh-new malformed original h = h
