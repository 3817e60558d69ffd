-- ===== src/Reminder/Migrations/Applying.antt =====
-- reminder/migrate.go: what a run of the migrations has applied.
use wego.Prelude.{◌⊎◌, ◌≡◌, All, true, Option, none, some, List, Text}
use wego.Reminder.Migrations.{
  File, Schema, Faults, MigrateError, version_of, sorted_files, is_applied, migrate,
}

-- The versions of a schema are those of another, and more.
abbrev pub Keeps : Schema → Schema → Type 0
Keeps s t = (v : Text) → is_applied v s ≡ true → is_applied v t ≡ true

-- Statements that look, or that begin and end the transaction, do not fail.
pub record IsQuiet (F : Faults) : Type 0 where
  pub begins : F.begin ≡ none
  pub creates : (s : Schema) → F.create_table s ≡ none
  pub queries : (v : Text) (s : Schema) → F.query v s ≡ none
  pub commits : (s : Schema) → F.commit s ≡ none

-- The commit returned an error, and has committed every migration.
pub record IsCommitted (F : Faults) (files : List File) (t : Schema) : Type 0 where
  pub error : Text
  pub commits : F.commit t ≡ some (error, true)
  pub applied : All (λ f. is_applied (version_of f) t ≡ true) (sorted_files files)

-- How a run ends.
pub record Migrates (F : Faults) (files : List File) (s : Schema) (r : Option MigrateError × Schema)
    : Type 0 where
  pub undone : (e : MigrateError) → r.0 ≡ some e → (r.1 ≡ s) ⊎ IsCommitted F files (r.1)
  pub applied : r.0 ≡ none → All (λ f. is_applied (version_of f) (r.1) ≡ true) (sorted_files files)
  pub keeps : Keeps s (r.1)
  pub once : r.0 ≡ none → (G : Faults) → IsQuiet G → migrate G true files (r.1) ≡ (none, r.1)
