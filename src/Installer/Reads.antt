-- ===== src/Installer/Reads.antt =====
-- Computations of the installer that only read: they leave files and units alone whatever fails,
-- and their answers are about the machine that they began on.
use ai_limit_notifier.Prelude.{ℕ, ◌≡◌, refl, Bool, Text, List, [], ◌∷◌, Option, none, some}
use ai_limit_notifier.Files.{
  Place, File, Fate, works, fails, dies, Machine, Result, done, failed, killed, Io, go_on, ◌>>=◌,
  pure, read_call, ask, read_file, or_malformed,
}
use ai_limit_notifier.Installer.Apply.{or_exit, go_on_or_exit}

-- Files and units are the same.
abbrev pub Same : Machine → Machine → Type 0
Same m k = (k.files ≡ m.files) × (k.unit_enabled ≡ m.unit_enabled) × (k.unit_active ≡ m.unit_active)

abbrev pub Any : {A : Type 0} → A → Type 0
Any a = Unit

abbrev pub Answer : {A : Type 0} → (A → Type 0) → Result A → Type 0
Answer P (done a) = P a
Answer P (failed e) = Unit
Answer P killed = Unit

abbrev pub content_of : Option File → Option Text
content_of none = none
content_of (some x) = some x.content

module _ (m : Machine) where
  -- From a machine with the files and units of `m`.
  unfoldable pub Reads : {A : Type 0} → (A → Type 0) → Io A → Type 0
  Reads P io = (k : Machine) → Same m k → let (r, k') = io k in Same m k' × Answer P r

  module _ {A B : Type 0} (P : A → Type 0) (Q : B → Type 0) where
    then-Reads :
        (next : A → Io B)
        → ((a : A) → P a → Reads Q (next a))
        → (p : Result A × Machine) → Same m p.1 × Answer P p.0
        → let (r, k') = go_on next p in Same m k' × Answer Q r
    unfolding Reads
    then-Reads next h (done a, k) s = h a s.1 k s.0
    then-Reads next h (failed e, k) s = s
    then-Reads next h (killed, k) s = s

    pub bind-Reads :
        (io : Io A) (next : A → Io B)
        → Reads P io
        → ((a : A) → P a → Reads Q (next a))
        → Reads Q (io >>= next)
    unfolding Reads ◌>>=◌
    bind-Reads io next h h' k s = then-Reads next h' (io k) (h k s)

  module _ {A : Type 0} (P : A → Type 0) (code : ℕ → Type 0) where
    then_exit-Reads :
        (next : A → Io ℕ)
        → code 1
        → ((a : A) → P a → Reads code (next a))
        → (p : Result A × Machine) → Same m p.1 × Answer P p.0
        → let (r, k') = go_on_or_exit next p in Same m k' × Answer code r
    unfolding Reads
    then_exit-Reads next one h (done a, k) s = h a s.1 k s.0
    then_exit-Reads next one h (failed e, k) s = (s.0, one)
    then_exit-Reads next one h (killed, k) s = s

    pub or_exit-Reads :
        (io : Io A) (next : A → Io ℕ)
        → code 1
        → Reads P io
        → ((a : A) → P a → Reads code (next a))
        → Reads code (or_exit io next)
    unfolding Reads or_exit
    or_exit-Reads io next one h h' k s = then_exit-Reads next one h' (io k) (h k s)

  module _ {A : Type 0} (P : A → Type 0) where
    pub pure-Reads : (a : A) → P a → Reads P (pure a)
    unfolding Reads
    pure-Reads a h k s = (s, h)

    read_fates :
        (answer : Machine → Result A)
        → ((k : Machine) → Same m k → Answer P (answer k))
        → (k : Machine) (fs : List Fate) → Same m k
        → let (r, k') = read_call answer (record k { fates = fs }) in Same m k' × Answer P r
    unfolding read_call
    read_fates answer h k [] s = (s, h (record k { fates = [] }) s)
    read_fates answer h k (works ∷ fs) s = (s, h (record k { fates = fs }) s)
    read_fates answer h k (fails n ∷ fs) s = (s, tt)
    read_fates answer h k (dies n ∷ fs) s = (s, tt)

    pub read_call-Reads :
        (answer : Machine → Result A)
        → ((k : Machine) → Same m k → Answer P (answer k))
        → Reads P (read_call answer)
    unfolding Reads
    read_call-Reads answer h k s = read_fates answer h k k.fates s

    pub or_malformed-Reads :
        (o : Option A) → ((a : A) → o ≡ some a → P a) → Reads P (or_malformed o)
    unfolding Reads
    or_malformed-Reads none h k s = (s, tt)
    or_malformed-Reads (some a) h k s = (s, h a refl)

  ask_fates :
      (answer : Machine → Bool) (k : Machine) (fs : List Fate)
      → Same m k
      → let (r, k') = ask answer (record k { fates = fs }) in Same m k' × Answer Any r
  unfolding ask
  ask_fates answer k [] s = (s, tt)
  ask_fates answer k (works ∷ fs) s = (s, tt)
  ask_fates answer k (fails n ∷ fs) s = (s, tt)
  ask_fates answer k (dies n ∷ fs) s = (s, tt)

  pub ask-Reads : (answer : Machine → Bool) → Reads Any (ask answer)
  unfolding Reads
  ask-Reads answer k s = ask_fates answer k k.fates s

  abbrev pub content_at : Place → Option Text
  content_at p = content_of (m.files p)

  pub read_file-Reads : (p : Place) → Reads (λ raw. raw ≡ content_at p) (read_file p)
  unfolding read_file
  read_file-Reads p = read_call-Reads _ _ (λ k s. rw s.0 refl)
