-- ===== src/Reminder/Migrations.antt =====
-- reminder/migrate.go: the migrations of the reminder's tables, in one transaction. What PostgreSQL
-- may refuse is the argument `Faults`; a statement that it does not refuse does what it says. The
-- embedded files are a list of names with what reading one gives.
pub mod Applying
mod Examples
use wego.Prelude.{
  nat_beq, ◌≡◌, text_beq, any, All, ℕ, zero, suc, ◌+◌, ◌-◌, ◌*◌, ◌/◌, ◌%◌, ◌^◌, ◌≤◌, ◌<◌, refl, ap,
  ◌∙◌, sym, subst, Bool, true, false, Option, none, some, List, [], ◌∷◌, ◌++◌, map, Text, codes,
  Unicode, is_empty, ltb, leb, ℤ, pos, negsuc, is_pos, if◌then◌else◌, ◌&&◌, ◌||◌, not, arith,
  append_assoc, append_nil,
}
use wego.Action.{Result, ok, err}

pub record File : Type 0 where
  pub name : Text
  pub is_dir : Bool
  pub content : Result Text Text

-- What the transaction sees: the versions of the component in wego_schema_migrations, and the
-- migrations that were executed.
pub record Schema : Type 0 where
  pub versions : List Text
  pub executed : List Text

-- The error of each statement, if any.
pub record Faults : Type 0 where
  pub begin : Option Text
  pub create_table : Schema → Option Text
  pub query : (version : Text) → Schema → Option Text
  pub exec : (sql : Text) → Schema → Option Text
  pub record_version : (version : Text) → Schema → Option Text
  -- With whether the transaction was committed nevertheless.
  pub commit : Schema → Option (Text × Bool)

pub data MigrateError : Type 0 where
  -- ErrInvalidReminder, where there is no database
  no_database : MigrateError
  failed : Text → MigrateError
  -- apply reminder migration …: …
  apply_failed : (version message : Text) → MigrateError

-- strings.HasSuffix(s, suffix)
unfoldable pub has_suffix : (suffix s : Text) → Bool
has_suffix suffix [] = text_beq [] suffix
has_suffix suffix (c ∷ s) = let rest = has_suffix suffix s in text_beq (c ∷ s) suffix || rest

-- strings.TrimSuffix(s, suffix)
unfoldable pub trim_suffix : (suffix s : Text) → Text
trim_suffix suffix [] = []
trim_suffix suffix (c ∷ s) =
    let rest = trim_suffix suffix s in if text_beq (c ∷ s) suffix then [] else c ∷ rest

-- The version of a file, whose extension is .sql.
abbrev pub version_of : File → Text
version_of file = trim_suffix (codes ".sql") file.name

-- `s <= t`, by code points
unfoldable pub text_leb : Text → Text → Bool
text_leb [] t = true
text_leb (a ∷ s) [] = false
text_leb (a ∷ s) (b ∷ t) =
    let rest = text_leb s t in if ltb a b then true else if nat_beq a b then rest else false

unfoldable pub insert_file : File → List File → List File
unfolding text_leb
insert_file f [] = f ∷ []
insert_file f (g ∷ fs) =
    let rest = insert_file f fs in if text_leb f.name g.name then f ∷ g ∷ fs else g ∷ rest

-- The files of SQL, sorted by their names.
unfoldable pub sorted_files : List File → List File
unfolding insert_file has_suffix
sorted_files [] = []
sorted_files (f ∷ fs) =
    let rest = sorted_files fs in
    if not f.is_dir && has_suffix (codes ".sql") f.name then insert_file f rest else rest

abbrev pub is_applied : Text → Schema → Bool
is_applied version s = any (λ v. text_beq v version) s.versions

-- `if err != nil { return err }`
abbrev pub unless_failed :
    Option Text → (Text → MigrateError) → Result MigrateError Schema → Result MigrateError Schema
unless_failed (some e) wrap next = err (wrap e)
unless_failed none wrap next = next

module _ (F : Faults) where
  -- The statements of a migration that is not applied.
  abbrev pub apply_content :
      (version : Text) → Result Text Text → Schema → Result MigrateError Schema
  apply_content version (err e) s = err (failed e)
  apply_content version (ok sql) s =
      let done = record s { executed = s.executed ++ sql ∷ [] } in
      unless_failed (F.exec sql s) (apply_failed version) (
        unless_failed (F.record_version version done) failed
          (ok (record done { versions = version ∷ done.versions })))

  unfoldable pub migrate_file : File → Schema → Result MigrateError Schema
  unfolding trim_suffix
  migrate_file file s =
      let applied = apply_content (version_of file) file.content s in
      unless_failed (F.query (version_of file) s) failed
        (if is_applied (version_of file) s then ok s else applied)

  abbrev pub after_file :
      (Schema → Result MigrateError Schema)
      → Result MigrateError Schema
      → Result MigrateError Schema
  after_file rest (err e) = err e
  after_file rest (ok s) = rest s

  -- The loop over the names.
  unfoldable pub migrate_files : List File → Schema → Result MigrateError Schema
  unfolding migrate_file
  migrate_files [] s = ok s
  migrate_files (f ∷ fs) s = after_file (migrate_files fs) (migrate_file f s)

  -- The transaction, before its commit.
  unfoldable pub migrate_transaction : List File → Schema → Result MigrateError Schema
  unfolding sorted_files migrate_files
  migrate_transaction files s =
      unless_failed F.begin failed
        (unless_failed (F.create_table s) failed (migrate_files (sorted_files files) s))

  abbrev pub after_commit :
      (before after : Schema) → Option (Text × Bool) → Option MigrateError × Schema
  after_commit before after (some (e, committed)) =
      (some (failed e), if committed then after else before)
  after_commit before after none = (none, after)

  -- The deferred Rollback undoes a transaction that was not committed.
  abbrev pub commit_or_roll_back :
      (before : Schema) → Result MigrateError Schema → Option MigrateError × Schema
  commit_or_roll_back before (err e) = (some e, before)
  commit_or_roll_back before (ok s) = after_commit before s (F.commit s)

  -- Migrate
  unfoldable pub migrate : (has_db : Bool) → List File → Schema → Option MigrateError × Schema
  unfolding migrate_transaction
  migrate has_db files s =
      let run = commit_or_roll_back s (migrate_transaction files s) in
      if has_db then run else (some no_database, s)
