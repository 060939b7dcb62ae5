-- ===== src/Restore/Clearing.antt =====
-- `ClearDatabaseTables` of executor/backup.go with `isValidMySQLIdentifier` of executor/mariadb.go, and
-- what the task of a restore and a process of mysql answer.
use wp_panel_en_private.Base.{
  ℕ, Bool, false, not, ◌&&◌, ◌||◌, Option, none, some, List, [], ◌∷◌, ◌++◌, length, all, leb,
  if◌then◌else◌,
}
use wp_panel_en_private.Base.Fault.{Fault, on_fault}
use wp_panel_en_private.Base.Text.{Text, codes, text_eq, is_digit}

-- What a task does to the database, as its processes end: a script that empties it, with the error of its
-- process, and the bytes that the mysql of an import has got.
pub data Event : Type 0 where
  emptied : Text → Fault → Event
  filled : Text → Event

-- What the task has done: the answer, the events in their order, and the file it removes.
pub record Outcome : Type 0 where
  pub ok : Bool
  pub message : Text
  pub events : List Event
  pub removed : Option Text

abbrev pub refused : Text → Outcome
refused message = record { ok = false; message = message; events = []; removed = none }

-- The answers of a process of mysql: its pipe, its start, how many bytes it takes, the closing of the
-- pipe, its end, and what it says.
pub record Process : Type 0 where
  pub pipe : Fault
  pub starts : Fault
  pub room : Option (ℕ × Text)
  pub closes : Fault
  pub ends : Fault
  pub stderr : Text

abbrev pub is_word_char : ℕ → Bool
is_word_char c =
    leb b'A' c && leb c b'Z'
    || leb b'a' c && leb c b'z'
    || is_digit c
    || text_eq (c ∷ []) (codes "_")

abbrev pub is_valid_mysql_identifier : Text → Bool
is_valid_mysql_identifier name =
    not (text_eq name []) && leb (length name) 64 && all is_word_char name

-- The error, and the script that is sent. `listing` is the output of the query for the tables.
unfoldable pub clear_database_tables : Text → Text → Text → Fault → Process → Fault × Option Text
unfolding on_fault
clear_database_tables db_name db_pass listing listed p =
    if not (is_valid_mysql_identifier db_name)
    then (some (codes "invalid database name"), none)
    else if text_eq db_pass []
    then (some (codes "unable to read database password"), none)
    else on_fault listed (λ why. (some (codes "failed to get table list: " ++ listing), none))
        (on_fault p.pipe (λ why. (some (codes "failed to prepare database operation"), none))
          (on_fault p.starts (λ why. (some (codes "failed to start database operation"), none))
            (
              on_fault p.ends (λ why. some (codes "failed to clear database: " ++ p.stderr)) none,
              some (
                  codes "SET FOREIGN_KEY_CHECKS = 0;\n"
                  ++ (listing ++ codes "\nSET FOREIGN_KEY_CHECKS = 1;\n")),
            )))
