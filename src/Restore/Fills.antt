-- ===== src/Restore/Fills.antt =====
-- What an import (executor/backup.go) adds to the events of a restore: one sending to mysql, if any.
use wp_panel_en_private.Base.{ℕ, Option, none, some, List, [], ◌∷◌, ◌++◌, map, if-Both}
use wp_panel_en_private.Base.Fault.{Fault, on_fault-Both, Reply, broken, given, on_reply}
use wp_panel_en_private.Base.Text.{Text, codes, text_eq, to_lower}
use wp_panel_en_private.Restore.Sanitize.{write_sanitized_restore_sql}
use wp_panel_en_private.Restore.Validate.{BackupFile, ZipMember, sql_member}
use wp_panel_en_private.Restore.Import.{
  write_string, left, keys_off, keys_on, import_answer, import_rest, restore_sql_reader,
  restore_from_gz, restore_from_sql, restore_from_zip, restore_by_format,
}
use wp_panel_en_private.Restore.Clearing.{Event, filled, Outcome, refused, Process}
use wp_panel_en_private.Restore.Sent.{Source}

-- Events that send something to an import, and no other.
pub data AreFills : List Event → Type 0 where
  no_fill : AreFills []
  fill : (sent : Text) → AreFills (filled sent ∷ [])

abbrev Fills : Outcome → Type 0
Fills o = AreFills o.events

import_answer-AreFills : (p : Process) (f : Fault) (sent : Text) → Fills (import_answer p f sent)
import_answer-AreFills p (some why) sent = fill sent
import_answer-AreFills p none sent =
    on_fault-Both Fills p.closes (λ why. fill sent)
      (on_fault-Both Fills p.ends (λ why. fill sent) (fill sent))

module _ (upper_rest lower_rest : ℕ → ℕ) (p : Process) where
  import_rest-AreFills :
      (source : Source) (opening : Text)
      → Fills (import_rest upper_rest lower_rest p source opening)
  unfolding import_rest
  import_rest-AreFills source opening =
      let room = left p.room opening in
      let copied = write_sanitized_restore_sql upper_rest room source.0 source.1 in
      let closing = write_string (left room copied.0) keys_on in
      on_fault-Both Fills copied.1
        (λ why. import_answer-AreFills p (some why) (opening ++ copied.0))
        (import_answer-AreFills p closing.1 (opening ++ (copied.0 ++ closing.0)))

  restore_sql_reader-AreFills :
      (source : Source) → Fills (restore_sql_reader upper_rest lower_rest p source)
  unfolding restore_sql_reader
  restore_sql_reader-AreFills source =
      let opening = write_string p.room keys_off in
      on_fault-Both Fills p.pipe (λ why. no_fill)
        (on_fault-Both Fills p.starts (λ why. no_fill)
          (on_fault-Both Fills opening.1 (λ why. fill opening.0)
            (import_rest-AreFills source opening.0)))

  given-AreFills :
      (why : Text) (reply : Reply Source)
      → Fills (on_reply reply (λ _. refused why) (restore_sql_reader upper_rest lower_rest p))
  unfolding on_reply
  given-AreFills why (broken because) = no_fill
  given-AreFills why (given source) = restore_sql_reader-AreFills source

  member-AreFills :
      (why absent : Text) (member : Option ZipMember)
      → Fills (elim member [
        | none ↦ refused absent
        | some m ↦ on_reply m.opens (λ _. refused why) (restore_sql_reader upper_rest lower_rest p)
      ])
  member-AreFills why absent none = no_fill
  member-AreFills why absent (some m) = given-AreFills why m.opens

  zip-AreFills : (f : BackupFile) → Fills (restore_from_zip upper_rest lower_rest p f)
  unfolding restore_from_zip on_reply
  zip-AreFills f = opened-AreFills f.zip
    where
      opened-AreFills :
          (zip : Reply (List ZipMember))
          → Fills (
              on_reply zip
                (λ _. refused (codes "Failed to unzip"))
                (λ members. elim (sql_member lower_rest members) [
                  | none ↦ refused (codes "No .sql file found in the zip archive")
                  | some m ↦
                      on_reply m.opens
                        (λ _. refused (codes "Failed to read file inside zip"))
                        (restore_sql_reader upper_rest lower_rest p)
                ]))
      opened-AreFills (broken why) = no_fill
      opened-AreFills (given members) = member-AreFills _ _ (sql_member lower_rest members)

  pub restore_by_format-AreFills :
      (ext : Text) (f : BackupFile) → Fills (restore_by_format upper_rest lower_rest ext p f)
  unfolding restore_by_format restore_from_gz restore_from_sql
  restore_by_format-AreFills ext f =
      let lower = map (to_lower lower_rest) ext in
      if-Both Fills (text_eq lower (codes ".gz"))
        (on_fault-Both Fills f.opens (λ why. no_fill) (given-AreFills _ f.gzip))
        (if-Both Fills (text_eq lower (codes ".sql"))
          (on_fault-Both Fills f.opens (λ why. no_fill) (restore_sql_reader-AreFills f.plain))
          (if-Both Fills (text_eq lower (codes ".zip")) (zip-AreFills f) no_fill))
