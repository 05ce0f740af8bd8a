-- ===== src/Files/Atomic.antt =====
-- The replacement of a file (Files.Replace), whatever becomes of its calls.
use ai_limit_notifier.Prelude.{
  ℕ, zero, suc, ◌<◌, ◌≡◌, refl, ◌⊎◌, inl, inr, true, false, Text, List, [], ◌∷◌, Option, none, some,
  arith, ltb, take, Bool-cases,
}
use ai_limit_notifier.Files.{
  Place, temporary, installed_binary, unit_file, manifest_file, settings_file, config_file,
  socket_file, elsewhere, same_place, File, Fate, works, fails, dies, Machine, Result, os_failed,
  done, failed, killed, Io, ◌>>=◌, ◌>>◌, call, set_file, create_temp, write_all, chmod, rename,
  remove, other_call, Trouble, fails_after,
}
use ai_limit_notifier.Files.Replace.{fill_and_rename, replace_file, unless_committed}

pub same_place_self : (p : Place) → same_place p p ≡ true
same_place_self installed_binary = refl
same_place_self unit_file = refl
same_place_self manifest_file = refl
same_place_self settings_file = refl
same_place_self config_file = refl
same_place_self socket_file = refl
same_place_self (temporary n) = ground arith
same_place_self (elsewhere s) = ground arith

abbrev Files : Type 0
Files = Place → Option File

-- What is at the place after a replacement that began with the given files.
abbrev pub Target : Files → Place → File → Result Unit → Files → Type 0
Target before target new (done _) after = after target ≡ some new
Target before target new (failed _) after = after target ≡ before target
Target before target new killed after = (after target ≡ before target) ⊎ (after target ≡ some new)

-- No file but the target and the temporary one has changed.
abbrev pub Others : Files → Place → ℕ → Files → Type 0
Others before target t after =
    (q : Place)
    → same_place q target ≡ false
    → same_place q (temporary t) ≡ false
    → after q ≡ before q

module _ (S S' : Files → Type 0) (R : Result Unit → Files → Type 0) where
  -- A call and what follows it, by what holds before and after its effect.
  call-then :
      (act : Machine → Machine) (next : Io Unit)
      → ((m : Machine) → S m.files → S' (act m).files)
      → ((r : Files) → S r → R (failed os_failed) r × R killed r)
      → ((r : Files) → S' r → R killed r)
      → ((m : Machine) → S' m.files → let (r, m') = next m in R r m'.files)
      → (m : Machine) (fs : List Fate) → S m.files
      → let (r, m') = (call act >> next) (record m { fates = fs }) in R r m'.files
  unfolding call ◌>>=◌
  call-then act next effect stop stop' go m [] h =
      go (act (record m { fates = [] })) (effect (record m { fates = [] }) h)
  call-then act next effect stop stop' go m (works ∷ fs) h =
      go (act (record m { fates = fs })) (effect (record m { fates = fs }) h)
  call-then act next effect stop stop' go m (fails n ∷ fs) h = (stop m.files h).0
  call-then act next effect stop stop' go m (dies n ∷ fs) h = elim (Bool-cases (ltb 0 n)) [
    | inl e ↦
        rw e (stop' (act (record m { fates = fs })).files (effect (record m { fates = fs }) h))
    | inr e ↦ rw e (stop m.files h).1
  ]

module _ (before : Files) (target : Place) (content : Text) (mode : ℕ) (t : ℕ)
    (apart : same_place target (temporary t) ≡ false) where
  abbrev new : File
  new = record { content = content; mode = mode }

  -- Only the temporary file has changed.
  abbrev Holds : Option File → Files → Type 0
  Holds f r =
      ((q : Place) → same_place q (temporary t) ≡ false → r q ≡ before q) × (r (temporary t) ≡ f)

  abbrev Ends : Result Unit → Files → Type 0
  Ends res r = Target before target new res r × Others before target t r

  stop_early : (f : Option File) (r : Files) → Holds f r → Ends (failed os_failed) r × Ends killed r
  stop_early f r h =
      ((h.0 target apart, λ q _ e. h.0 q e), (inl (h.0 target apart), λ q _ e. h.0 q e))

  set_temporary :
      (f g : Option File) (m : Machine)
      → Holds f m.files
      → Holds g (set_file (temporary t) g m).files
  unfolding set_file
  set_temporary f g m h = (λ q e. rw e (h.0 q e), rw (same_place_self (temporary t)) refl)

  moved : Machine → Machine
  moved m = set_file (temporary t) none (set_file target (m.files (temporary t)) m)

  renamed :
      (m : Machine)
      → Holds (some new) m.files
      → Ends (done tt) (moved m).files × Ends killed (moved m).files
  unfolding set_file moved
  renamed m h =
      let at : (moved m).files target ≡ some new = rw (apart, same_place_self target) h.1 in
      let others : Others before target t (moved m).files = λ q e e'. rw (e', e) (h.0 q e') in
      ((at, others), (inr at, others))

  rename-Ends :
      (m : Machine) (fs : List Fate)
      → Holds (some new) m.files
      → let (r, m') = rename (temporary t) target (record m { fates = fs }) in Ends r m'.files
  unfolding rename call set_file moved
  rename-Ends m [] h = (renamed m h).0
  rename-Ends m (works ∷ fs) h = (renamed m h).0
  rename-Ends m (fails n ∷ fs) h = (stop_early (some new) m.files h).0
  rename-Ends m (dies n ∷ fs) h = elim (Bool-cases (ltb 0 n)) [
    | inl e ↦ rw e (renamed m h).1
    | inr e ↦ rw e (stop_early (some new) m.files h).1
  ]

  abbrev written : ℕ → File
  written k = record { content = content; mode = k }

  chmod_and_rename : Io Unit
  chmod_and_rename = chmod (temporary t) mode >> rename (temporary t) target

  chmod-Ends :
      (k : ℕ) (m : Machine) (fs : List Fate)
      → Holds (some (written k)) m.files
      → let (r, m') = chmod_and_rename (record m { fates = fs }) in Ends r m'.files
  unfolding chmod chmod_and_rename
  chmod-Ends k m fs h =
      call-then (Holds (some (written k))) (Holds (some new)) Ends _ (rename (temporary t) target)
        (λ m h. rw h.1 (set_temporary (some (written k)) (some new) m h))
        (stop_early (some (written k))) (λ r h. (stop_early (some new) r h).1)
        (λ m h. rename-Ends m m.fates h) m fs h

  -- A call without effect before the rest.
  other-Ends :
      (next : Io Unit) (f : Option File)
      → ((m : Machine) → Holds f m.files → let (r, m') = next m in Ends r m'.files)
      → (m : Machine) (fs : List Fate) → Holds f m.files
      → let (r, m') = (other_call >> next) (record m { fates = fs }) in Ends r m'.files
  other-Ends next f go =
      call-then (Holds f) (Holds f) Ends (λ m. m) next (λ m h. h) (stop_early f)
        (λ r h. (stop_early f r h).1) go

  synced-Ends :
      (k : ℕ) (m : Machine)
      → Holds (some (written k)) m.files
      → let (r, m') = (other_call >> (other_call >> chmod_and_rename)) m in Ends r m'.files
  synced-Ends k m h =
      other-Ends (other_call >> chmod_and_rename) (some (written k))
        (λ m h.
          other-Ends chmod_and_rename (some (written k)) (λ m h. chmod-Ends k m m.fates h) m m.fates
            h)
        m m.fates h

  fill-Ends :
      (k : ℕ) (m : Machine) (fs : List Fate)
      → Holds (some (record { content = []; mode = k })) m.files
      → let (r, m') = fill_and_rename target content mode t (record m { fates = fs }) in
        Ends r m'.files
  unfolding ◌>>=◌ fill_and_rename write_all chmod_and_rename
  fill-Ends k m [] h =
      synced-Ends k _ (rw h.1 (set_temporary _ (some (written k)) (record m { fates = [] }) h))
  fill-Ends k m (works ∷ fs) h =
      synced-Ends k _ (rw h.1 (set_temporary _ (some (written k)) (record m { fates = fs }) h))
  fill-Ends k m (fails n ∷ fs) h =
      (stop_early (some (record { content = take n content; mode = k })) _ (
        rw h.1 (
          set_temporary _ (some (record { content = take n content; mode = k }))
            (record m { fates = fs }) h))).0
  fill-Ends k m (dies n ∷ fs) h =
      (stop_early (some (record { content = take n content; mode = k })) _ (
        rw h.1 (
          set_temporary _ (some (record { content = take n content; mode = k }))
            (record m { fates = fs }) h))).1

  erased :
      (m : Machine)
      → Ends (failed os_failed) m.files
      → let after = (set_file (temporary t) none m).files in
        Ends (failed os_failed) after × Ends killed after
  unfolding set_file
  erased m h =
      let at : (set_file (temporary t) none m).files target ≡ before target = rw apart h.0 in
      let others : Others before target t (set_file (temporary t) none m).files =
        λ q e e'. rw e' (h.1 q e e') in
      ((at, others), (inl at, others))

  cleanup-Ends :
      (e : Trouble) (m : Machine) (fs : List Fate)
      → Ends (failed e) m.files
      → let (r, m') = unless_committed t (failed e, record m { fates = fs }) in Ends r m'.files
  unfolding remove call set_file
  cleanup-Ends e m [] h = (erased m h).0
  cleanup-Ends e m (works ∷ fs) h = (erased m h).0
  cleanup-Ends e m (fails n ∷ fs) h = h
  cleanup-Ends e m (dies n ∷ fs) h = elim (Bool-cases (ltb 0 n)) [
    | inl e ↦ rw e (erased m h).1
    | inr e ↦ rw e (inl h.0, h.1)
  ]

  committed-Ends :
      (p : Result Unit × Machine)
      → Ends p.0 p.1.files
      → let (r, m') = unless_committed t p in Ends r m'.files
  committed-Ends (done u, m) h = h
  committed-Ends (killed, m) h = h
  committed-Ends (failed e, m) h = cleanup-Ends e m m.fates h

module _ (target : Place) (content : Text) (mode : ℕ) where
  fresh-Ends :
      (m : Machine) (apart : same_place target (temporary m.temps) ≡ false)
      → let (r, m') = unless_committed m.temps (
          fill_and_rename target content mode m.temps (
            set_file
              (temporary m.temps)
              (some (record { content = []; mode = 384 }))
              (record m { temps = suc m.temps }))) in
        Ends m.files target content mode m.temps apart r m'.files
  unfolding set_file
  fresh-Ends m apart =
      let start : Machine =
        set_file (temporary m.temps) (some (record { content = []; mode = 384 }))
          (record m { temps = suc m.temps }) in
      committed-Ends m.files target content mode m.temps apart
        (fill_and_rename target content mode m.temps start)
        (fill-Ends m.files target content mode m.temps apart 384 start m.fates (
          set_temporary m.files target content mode m.temps apart (m.files (temporary m.temps)) _
            (record m { temps = suc m.temps }) ((λ q e. refl), refl)))

  created-Ends :
      (m : Machine) (fs : List Fate)
      → same_place target (temporary m.temps) ≡ false
      → let (r, m') = replace_file target content mode (record m { fates = fs }) in
        Target m.files target (record { content = content; mode = mode }) r m'.files
        × Others m.files target m.temps m'.files
  unfolding ◌>>=◌ replace_file create_temp
  created-Ends m [] apart = fresh-Ends (record m { fates = [] }) apart
  created-Ends m (works ∷ fs) apart = fresh-Ends (record m { fates = fs }) apart
  created-Ends m (fails n ∷ fs) apart = (refl, λ q _ _. refl)
  created-Ends m (dies n ∷ fs) apart = (inl refl, λ q _ _. refl)

  -- Whatever fails and whenever the process is killed, a replacement that returns without an
  -- error has put the whole new file in place, one that returns an error has left the old file,
  -- and one that is cut off has left either the old file or the whole new one. No other file but
  -- the temporary one has changed.
  pub replace_file-Atomic :
      (m : Machine)
      → same_place target (temporary m.temps) ≡ false
      → let (r, m') = replace_file target content mode m in
        Target m.files target (record { content = content; mode = mode }) r m'.files
        × Others m.files target m.temps m'.files
  replace_file-Atomic m apart = created-Ends m m.fates apart

-- If one call fails, whichever of the six calls of a replacement it is, the replacement returns
-- an error and leaves no temporary file behind.
pub replace_file-NoTrace :
    (target : Place) (content : Text) (mode n k : ℕ) (m : Machine)
    → k < 6
    → m.files (temporary m.temps) ≡ none
    → let (r, m') = replace_file target content mode (record m { fates = fails_after k n }) in
      (r ≡ failed os_failed) × (m'.files (temporary m.temps) ≡ none)
unfolding ◌>>=◌ replace_file create_temp fill_and_rename write_all chmod rename remove call set_file
    fails_after
replace_file-NoTrace target content mode n zero m below fresh = (refl, fresh)
replace_file-NoTrace target content mode n (suc zero) m below fresh =
    (refl, rw (same_place_self (temporary m.temps)) refl)
replace_file-NoTrace target content mode n (suc (suc zero)) m below fresh =
    (refl, rw (same_place_self (temporary m.temps)) refl)
replace_file-NoTrace target content mode n (suc (suc (suc zero))) m below fresh =
    (refl, rw (same_place_self (temporary m.temps)) refl)
replace_file-NoTrace target content mode n (suc (suc (suc (suc zero)))) m below fresh =
    (refl, rw (same_place_self (temporary m.temps)) refl)
replace_file-NoTrace target content mode n (suc (suc (suc (suc (suc zero))))) m below fresh =
    (refl, rw (same_place_self (temporary m.temps)) refl)
replace_file-NoTrace target content mode n (suc (suc (suc (suc (suc (suc k)))))) m below fresh =
    absurd (ground arith)

-- Without a failing call a replacement succeeds and touches nothing but files.
pub replace_file-calm :
    (target : Place) (content : Text) (mode : ℕ) (m : Machine)
    → m.fates ≡ []
    → let (r, m') = replace_file target content mode m in
      (r ≡ done tt)
      × (m'.fates ≡ [])
      × (m'.unit_enabled ≡ m.unit_enabled)
      × (m'.unit_active ≡ m.unit_active)
unfolding ◌>>=◌ replace_file create_temp fill_and_rename write_all chmod rename remove call set_file
replace_file-calm target content mode m h = rw h (refl, refl, refl, refl)
