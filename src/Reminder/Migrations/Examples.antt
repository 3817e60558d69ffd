-- ===== src/Reminder/Migrations/Examples.antt =====
-- Two migrations, of which the second is refused at first.
use wego.Prelude.{◌≡◌, refl, true, false, none, List, [], ◌∷◌, codes}
use wego.Action.{ok, err}
use wego.Reminder.Migrations.{File, Schema, Faults, migrate}

abbrev files : List File
files =
    record { name = codes "002_more.sql"; is_dir = false; content = ok (codes "B") }
    ∷ record { name = codes "001_first.sql"; is_dir = false; content = ok (codes "A") }
    ∷ record { name = codes "readme.md"; is_dir = false; content = err (codes "no") }
    ∷ []

abbrev no_faults : Faults
no_faults = record {
  begin = none;
  create_table = λ s. none;
  query = λ v s. none;
  exec = λ sql s. none;
  record_version = λ v s. none;
  commit = λ s. none;
}

abbrev empty : Schema
empty = record { versions = []; executed = [] }

in_order : (migrate no_faults true files empty).1.executed ≡ codes "A" ∷ codes "B" ∷ []
unfolding migrate
in_order = refl
