-- ===== src/Installer/Calm.antt =====
-- Runs of the installer in which no call fails.
use ai_limit_notifier.Prelude.{
  ℕ, ◌≡◌, refl, ◌∙◌, ap, Bool, true, false, Text, [], none, some, arith, if◌then◌else◌,
}
use ai_limit_notifier.Files.{
  Place, temporary, Machine, done, Io, ◌>>=◌, go_on, pure, ask, settings_file, manifest_file,
  installed_binary, unit_file, socket_file, config_file, elsewhere, same_place, set_file, call,
  remove, other_call, write_all, create_temp, chmod, rename,
}
use ai_limit_notifier.Files.Replace.{replace_file, fill_and_rename}
use ai_limit_notifier.Files.Atomic.{replace_file-Atomic, same_place_self}
use ai_limit_notifier.Installer.Apply.{or_exit, go_on_or_exit}

-- No call fails from here on.
abbrev pub calm : Machine → Machine
calm m = record m { fates = [] }

-- Without failing calls, a computation gives an answer and leads to a machine.
unfoldable pub Runs : {A : Type 0} → Io A → Machine → A → Machine → Type 0
Runs io m a k = io (calm m) ≡ (done a, calm k)

abbrev pub is_temporary : Place → Bool
is_temporary (temporary n) = true
is_temporary _ = false

-- No file has changed but the given one and temporary ones.
abbrev pub Keeps : Place → Machine → Machine → Type 0
Keeps p m k = (q : Place) → same_place q p ≡ false → is_temporary q ≡ false → k.files q ≡ m.files q

abbrev pub SameUnit : Machine → Machine → Type 0
SameUnit m k = (k.unit_enabled ≡ m.unit_enabled) × (k.unit_active ≡ m.unit_active)

module _ {A : Type 0} where
  pub bind-Runs :
      {B : Type 0} (io : Io A) (next : A → Io B) (m k l : Machine) (a : A) (b : B)
      → Runs io m a k
      → Runs (next a) k b l
      → Runs (io >>= next) m b l
  unfolding Runs ◌>>=◌
  bind-Runs io next m k l a b h h' = ap (go_on next) h ∙ h'

  pub pure-Runs : (a : A) (m : Machine) → Runs (pure a) m a m
  unfolding Runs
  pure-Runs a m = refl

pub or_exit-Runs :
    {A : Type 0} (io : Io A) (next : A → Io ℕ) (m k l : Machine) (a : A) (n : ℕ)
    → Runs io m a k
    → Runs (next a) k n l
    → Runs (or_exit io next) m n l
unfolding Runs or_exit
or_exit-Runs io next m k l a n h h' = ap (go_on_or_exit next) h ∙ h'

-- The branch that a test takes.
pub else-Runs :
    {A : Type 0} (b : Bool) (x y : Io A) (m k : Machine) (a : A)
    → b ≡ false
    → Runs y m a k
    → Runs (if b then x else y) m a k
else-Runs true x y m k a e h = absurd (ground arith)
else-Runs false x y m k a e h = h

pub then-Runs :
    {A : Type 0} (b : Bool) (x y : Io A) (m k : Machine) (a : A)
    → b ≡ true
    → Runs x m a k
    → Runs (if b then x else y) m a k
then-Runs true x y m k a e h = h
then-Runs false x y m k a e h = absurd (ground arith)

pub other-Runs : (m : Machine) → Runs other_call m tt m
unfolding Runs call
other-Runs m = refl

pub ask-Runs : (answer : Machine → Bool) (m : Machine) → Runs (ask answer) m (answer (calm m)) m
unfolding Runs ask
ask-Runs answer m = refl

not-temporary : (q : Place) (t : ℕ) → is_temporary q ≡ false → same_place q (temporary t) ≡ false
not-temporary installed_binary t h = refl
not-temporary unit_file t h = refl
not-temporary manifest_file t h = refl
not-temporary settings_file t h = refl
not-temporary config_file t h = refl
not-temporary socket_file t h = refl
not-temporary (temporary n) t h = absurd (ground arith)
not-temporary (elsewhere s) t h = refl

-- A replacement puts the file in place and keeps the others.
abbrev pub Wrote : Place → Text → ℕ → Machine → Machine → Type 0
Wrote p content mode m k =
    (k.files p ≡ some (record { content = content; mode = mode })) × Keeps p m k × SameUnit m k

pub replace-Runs :
    (p : Place) (content : Text) (mode : ℕ) (m : Machine)
    → is_temporary p ≡ false
    → (k : Machine) × Runs (replace_file p content mode) m tt k × Wrote p content mode m k
unfolding Runs ◌>>=◌ replace_file create_temp fill_and_rename write_all chmod rename call set_file
replace-Runs p content mode m h =
    let (at, others) = replace_file-Atomic p content mode (calm m) (not-temporary p m.temps h) in
    (
      (replace_file p content mode (calm m)).1,
      refl,
      (at, (λ q e t. others q e (not-temporary q m.temps t)), (refl, refl)),
    )

pub remove-Runs :
    (p : Place) (m : Machine)
    → (k : Machine) × Runs (remove p) m tt k × (k.files p ≡ none) × Keeps p m k × SameUnit m k
unfolding Runs remove call set_file
remove-Runs p m =
    (set_file p none m, refl, rw (same_place_self p) refl, (λ q e t. rw e refl), (refl, refl))
