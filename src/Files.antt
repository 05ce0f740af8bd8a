-- ===== src/Files.antt =====
-- The local files of the client and the calls of package os on them, as internal/localconfig,
-- internal/installer and internal/provider/claude make them. Any call may fail, and the process
-- may be killed during any call.
pub mod Replace
pub mod Atomic
use ai_limit_notifier.Prelude.{
  ℕ, zero, suc, Bool, true, false, if◌then◌else◌, holds, Text, text_discrete, List, [], ◌∷◌, Option,
  ◌==◌, none, some, take, ltb,
}

-- One constructor for each file that the program names; `temporary n` is the n-th file of
-- `os.CreateTemp`, which picks an unused name.
pub data Place : Type 0 where
  installed_binary unit_file manifest_file settings_file config_file socket_file : Place
  temporary : ℕ → Place
  elsewhere : Text → Place

abbrev pub same_place : Place → Place → Bool
same_place installed_binary installed_binary = true
same_place unit_file unit_file = true
same_place manifest_file manifest_file = true
same_place settings_file settings_file = true
same_place config_file config_file = true
same_place socket_file socket_file = true
same_place (temporary n) (temporary k) = n == k
same_place (elsewhere s) (elsewhere t) = holds (text_discrete s t)
same_place _ _ = false

pub record File : Type 0 where
  pub content : Text
  pub mode : ℕ

-- What becomes of one call. A call that fails or during which the process dies has an effect
-- only as far as the number says: of a write that many bytes, of any other call the whole
-- effect if the process dies and the number is not 0.
pub data Fate : Type 0 where
  works : Fate
  fails dies : ℕ → Fate

pub data Trouble : Type 0 where
  os_failed malformed is_blocked : Trouble

pub data Result (A : Type 0) : Type 0 where
  done : A → Result A
  failed : Trouble → Result A
  killed : Result A

-- The files, what systemd knows of the unit, and the fates of the calls to come; calls beyond
-- the list work.
pub record Machine : Type 0 where
  pub files : Place → Option File
  pub unit_enabled : Bool
  pub unit_active : Bool
  pub fates : List Fate
  pub temps : ℕ

abbrev pub Io : Type 0 → Type 0
Io A = Machine → Result A × Machine

abbrev pub next_fate : Machine → Fate × Machine
next_fate m = elim m.fates [ [] ↦ (works, m) | f ∷ fs ↦ (f, record m { fates = fs }) ]

module _ {A : Type 0} where
  abbrev pub pure : A → Io A
  pure a m = (done a, m)

  abbrev pub fail : Trouble → Io A
  fail e m = (failed e, m)

  -- A call that gives an answer and has no effect.
  abbrev read_fate : (Machine → Result A) → Fate × Machine → Result A × Machine
  read_fate answer (works, m) = (answer m, m)
  read_fate answer (fails _, m) = (failed os_failed, m)
  read_fate answer (dies _, m) = (killed, m)

  unfoldable pub read_call : (Machine → Result A) → Io A
  read_call answer m = read_fate answer (next_fate m)

-- What follows a computation that came to the given end.
abbrev pub go_on : {A B : Type 0} → (A → Io B) → Result A × Machine → Result B × Machine
go_on next (done a, m) = next a m
go_on next (failed e, m) = (failed e, m)
go_on next (killed, m) = (killed, m)

infixl 5 ◌>>=◌ ◌>>◌
unfoldable pub ◌>>=◌ : {A B : Type 0} → Io A → (A → Io B) → Io B
◌>>=◌ io next m = go_on next (io m)

abbrev pub ◌>>◌ : {A B : Type 0} → Io A → Io B → Io B
io >> next = io >>= λ _. next

-- A run of a program whose exit status is 0 or not 0 and that is asked about: a question to
-- another program, answered `false` when it cannot be run.
abbrev ask_fate : (Machine → Bool) → Fate × Machine → Result Bool × Machine
ask_fate answer (works, m) = (done (answer m), m)
ask_fate answer (fails _, m) = (done false, m)
ask_fate answer (dies _, m) = (killed, m)

unfoldable pub ask : (Machine → Bool) → Io Bool
ask answer m = ask_fate answer (next_fate m)

abbrev call_fate : (Machine → Machine) → Fate × Machine → Result Unit × Machine
call_fate act (works, m) = (done tt, act m)
call_fate act (fails _, m) = (failed os_failed, m)
call_fate act (dies n, m) = (killed, if ltb 0 n then act m else m)

-- A call with an effect.
unfoldable pub call : (Machine → Machine) → Io Unit
call act m = call_fate act (next_fate m)

unfoldable pub set_file : Place → Option File → Machine → Machine
set_file p f m = record m { files = λ q. if same_place q p then f else m.files q }

abbrev pub map_file : (File → File) → Option File → Option File
map_file f none = none
map_file f (some x) = some (f x)

abbrev pub set_content : Place → Text → Machine → Machine
set_content p content m = set_file p (map_file (λ x. record x { content = content }) (m.files p)) m

abbrev write_fate : Place → Text → Fate × Machine → Result Unit × Machine
write_fate p content (works, m) = (done tt, set_content p content m)
write_fate p content (fails n, m) = (failed os_failed, set_content p (take n content) m)
write_fate p content (dies n, m) = (killed, set_content p (take n content) m)

-- `f.Write` on a new file.
unfoldable pub write_all : Place → Text → Io Unit
write_all p content m = write_fate p content (next_fate m)

-- `f.Sync`, `f.Close`, and the calls on directories, which are not modelled.
abbrev pub other_call : Io Unit
other_call = call (λ m. m)

unfoldable pub chmod : Place → ℕ → Io Unit
chmod p mode = call (λ m. set_file p (map_file (λ x. record x { mode = mode }) (m.files p)) m)

-- `os.Rename`: atomic, and it replaces the file that is there.
unfoldable pub rename : Place → Place → Io Unit
rename p q = call (λ m. set_file p none (set_file q (m.files p) m))

-- `os.Remove`; `none` in the answer of a missing file, which the callers allow.
unfoldable pub remove : Place → Io Unit
remove p = call (set_file p none)

abbrev created_fate : Fate × Machine → Result ℕ × Machine
created_fate (works, m) = (
  done m.temps,
  set_file (temporary m.temps) (some (record { content = []; mode = 384 }))
      (record m { temps = suc m.temps }),
)
created_fate (fails _, m) = (failed os_failed, m)
created_fate (dies n, m) = (killed, m)

-- `os.CreateTemp`: a new empty file of mode 0600.
unfoldable pub create_temp : Io ℕ
create_temp m = created_fate (next_fate m)

-- The fates of calls of which only the one at the given index fails.
unfoldable pub fails_after : ℕ → ℕ → List Fate
fails_after zero n = fails n ∷ []
fails_after (suc k) n = works ∷ fails_after k n

-- `os.ReadFile`, where a missing file is no error.
unfoldable pub read_file : Place → Io (Option Text)
read_file p = read_call (λ m. done (elim (m.files p) [ none ↦ none | some x ↦ some x.content ]))

-- A file that was read and parsed.
abbrev pub or_malformed : {A : Type 0} → Option A → Io A
or_malformed none m = (failed malformed, m)
or_malformed (some a) m = (done a, m)

-- `os.Stat` without an error.
unfoldable pub exists : Place → Io Bool
exists p = ask (λ m. elim (m.files p) [ none ↦ false | some x ↦ true ])
