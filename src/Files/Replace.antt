-- ===== src/Files/Replace.antt =====
-- The way in which localconfig.Save, SaveManifest, InstallBinary, WriteUnit and patchSettings put
-- a file in place.
use ai_limit_notifier.Prelude.{ℕ, Text}
use ai_limit_notifier.Files.{
  Place, temporary, Machine, Result, done, failed, killed, Io, ◌>>=◌, ◌>>◌, create_temp, write_all,
  other_call, chmod, rename, remove,
}

-- What the deferred function leaves: it removes the temporary file unless it was renamed, and
-- passes over an error of that.
abbrev pub after_cleanup : Result Unit → Result Unit × Machine → Result Unit × Machine
after_cleanup r (killed, m) = (killed, m)
after_cleanup r (done _, m) = (r, m)
after_cleanup r (failed _, m) = (r, m)

abbrev pub unless_committed : ℕ → Result Unit × Machine → Result Unit × Machine
unless_committed t (done u, m) = (done u, m)
unless_committed t (killed, m) = (killed, m)
unless_committed t (failed e, m) = after_cleanup (failed e) (remove (temporary t) m)

-- From the write of the temporary file to the rename. The close that follows a failed write or
-- sync has no effect on the files.
unfoldable pub fill_and_rename : Place → Text → ℕ → ℕ → Io Unit
fill_and_rename target content mode t = do
  write_all (temporary t) content
  other_call
  other_call
  chmod (temporary t) mode
  rename (temporary t) target

unfoldable pub replace_file : Place → Text → ℕ → Io Unit
replace_file target content mode = do
  t ← create_temp
  λ m. unless_committed t (fill_and_rename target content mode t m)
