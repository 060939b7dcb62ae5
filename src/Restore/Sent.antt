-- ===== src/Restore/Sent.antt =====
-- What a restore (executor/backup.go) sends to mysql: on success the whole of the sanitized file.
use wp_panel_en_private.Base.{
  ℕ, ◌≡◌, ◌≢◌, refl, sym, ap, ◌∙◌, subst, inl, inr, true, Option, none, some, List, [], ◌∷◌, ◌++◌,
  map, length, ltb, if◌then◌else◌, Bool-cases,
}
use wp_panel_en_private.Base.Fault.{
  Fault, on_fault-Both, on_fault-By, Reply, broken, given, on_reply,
}
use wp_panel_en_private.Base.Text.{Text, codes, text_eq, to_lower}
use wp_panel_en_private.Restore.Sanitize.{
  Scan, scan_byte, start, sanitized, accept, write_bytes, write_chunks, write_sanitized_restore_sql,
}
use wp_panel_en_private.Restore.Validate.{BackupFile, ZipMember, sql_member}
use wp_panel_en_private.Restore.Import.{
  write_string, left, keys_off, keys_on, import_answer, import_rest, restore_sql_reader,
  restore_from_gz, restore_from_sql, restore_from_zip, restore_by_format,
}
use wp_panel_en_private.Restore.Clearing.{filled, Outcome, refused, Process}
use wp_panel_en_private.Restore.Chunks.{concat, write_sanitized_restore_sql-sanitized}

abbrev pub Source : Type 0
Source = List Text × Fault

abbrev pub given_source : Reply Source → Option Source
given_source (broken why) = none
given_source (given s) = some s

-- What a file holds, by its extension.
unfoldable pub source_of : (ℕ → ℕ) → Text → BackupFile → Option Source
unfolding on_reply
source_of lower_rest ext f =
    let lower = map (to_lower lower_rest) ext in
    if text_eq lower (codes ".gz")
    then given_source f.gzip
    else if text_eq lower (codes ".sql")
    then some f.plain
    else if text_eq lower (codes ".zip")
    then on_reply f.zip (λ why. none)
        (λ members. elim (sql_member lower_rest members) [
          | none ↦ none
          | some m ↦ given_source m.opens
        ])
    else none

accept_whole :
    (limit : Option (ℕ × Text)) (sent t : Text)
    → (accept limit sent t (λ s. (s, none))).1 ≡ none
    → (accept limit sent t (λ s. (s, none))).0 ≡ sent ++ t
accept_whole none sent t h = refl
accept_whole (some (room, why)) sent t h = elim (Bool-cases (ltb room (length (sent ++ t)))) [
  | inl e ↦ cc (h, e)
  | inr e ↦ rw e refl
]

module _ (upper_rest : ℕ → ℕ) where
  write_bytes_fails :
      (limit : Option (ℕ × Text)) (s : Scan) (bytes sent : Text) (next : Scan → Text → Text × Fault)
      → ((s' : Scan) (sent' : Text) → (next s' sent').1 ≢ none)
      → (write_bytes upper_rest limit s bytes sent next).1 ≢ none
  write_bytes_fails limit s [] sent next h = h s sent
  write_bytes_fails none s (b ∷ bytes) sent next h =
      write_bytes_fails none (scan_byte upper_rest s b).0 bytes
        (sent ++ (scan_byte upper_rest s b).1) next h
  write_bytes_fails (some (room, why)) s (b ∷ bytes) sent next h =
      let step = scan_byte upper_rest s b in
      elim (Bool-cases (ltb room (length (sent ++ step.1)))) [
        | inl e ↦ rw e (λ q. cc (q))
        | inr e ↦ rw e (write_bytes_fails (some (room, why)) step.0 bytes (sent ++ step.1) next h)
      ]

  write_chunks_fails :
      (limit : Option (ℕ × Text)) (why : Text) (chunks : List Text) (s : Scan) (sent : Text)
      → (write_chunks upper_rest limit s chunks (some why) sent).1 ≢ none
  write_chunks_fails limit why [] s sent = λ q. cc (q)
  write_chunks_fails limit why (chunk ∷ chunks) s sent =
      write_bytes_fails limit s chunk sent _ (write_chunks_fails limit why chunks)

  -- A copy without an error is a copy of the whole.
  copied_whole :
      (limit : Option (ℕ × Text)) (source : Source)
      → (write_sanitized_restore_sql upper_rest limit source.0 source.1).1 ≡ none
      → (source.1 ≡ none)
        × ((write_sanitized_restore_sql upper_rest limit source.0 source.1).0
            ≡ sanitized upper_rest (concat source.0))
  unfolding write_sanitized_restore_sql
  copied_whole limit (chunks, some why) h = absurd (write_chunks_fails limit why chunks start [] h)
  copied_whole limit (chunks, none) h =
      let e = write_sanitized_restore_sql-sanitized upper_rest limit chunks in
      (
        refl,
        ap (λ t. t.0) e
            ∙ accept_whole limit [] (sanitized upper_rest (concat chunks))
                (sym (ap (λ t. t.1) e) ∙ h),
      )

  -- A success has sent all that this source is to become, between the two settings.
  abbrev pub IsImport : Option Source → Outcome → Type 0
  IsImport source o =
      o.ok ≡ true
      → (chunks : List Text) × (source ≡ some (chunks, none))
        × (o.events ≡ filled (keys_off ++ (sanitized upper_rest (concat chunks) ++ keys_on)) ∷ [])

  refused-IsImport : (source : Option Source) (why : Text) → IsImport source (refused why)
  refused-IsImport source why h = cc (h)

  abbrev Answered : Fault → Text → Outcome → Type 0
  Answered f sent o = o.ok ≡ true → (f ≡ none) × (o.events ≡ filled sent ∷ [])

  import_answer-Answered :
      (p : Process) (f : Fault) (sent : Text) → Answered f sent (import_answer p f sent)
  import_answer-Answered p (some why) sent = λ h. cc (h)
  import_answer-Answered p none sent =
      on_fault-Both (Answered none sent) p.closes (λ why h. cc (h))
        (on_fault-Both (Answered none sent) p.ends (λ why h. cc (h)) (λ h. (refl, refl)))

  import_rest-IsImport :
      (lower_rest : ℕ → ℕ) (p : Process) (source : Source)
      → IsImport (some source) (import_rest upper_rest lower_rest p source keys_off)
  unfolding import_rest
  import_rest-IsImport lower_rest p source =
      let room = left p.room keys_off in
      let copied = write_sanitized_restore_sql upper_rest room source.0 source.1 in
      let closing = write_string (left room copied.0) keys_on in
      on_fault-By (IsImport (some source)) copied.1 (λ why e h. cc (h))
        (λ e h.
          let whole = copied_whole room source e in
          let last = import_answer-Answered p closing.1 (keys_off ++ (copied.0 ++ closing.0)) h in
          (
            source.0,
            ap (λ f. some (source.0, f)) whole.0,
            last.1
                ∙ ap (λ t. filled (keys_off ++ (t ++ closing.0)) ∷ []) whole.1
                ∙ ap (λ t. filled (keys_off ++ (sanitized upper_rest (concat source.0) ++ t)) ∷ [])
                    (accept_whole (left room copied.0) [] keys_on last.0),
          ))

  restore_sql_reader-IsImport :
      (lower_rest : ℕ → ℕ) (p : Process) (source : Source)
      → IsImport (some source) (restore_sql_reader upper_rest lower_rest p source)
  unfolding restore_sql_reader
  restore_sql_reader-IsImport lower_rest p source =
      let opening = write_string p.room keys_off in
      on_fault-Both (IsImport (some source)) p.pipe (λ why h. cc (h))
        (on_fault-Both (IsImport (some source)) p.starts (λ why h. cc (h))
          (on_fault-By (IsImport (some source)) opening.1 (λ why e h. cc (h))
            (λ e.
              subst (λ t. IsImport (some source) (import_rest upper_rest lower_rest p source t))
                (sym (accept_whole p.room [] keys_off e))
                (import_rest-IsImport lower_rest p source))))

  given-IsImport :
      (lower_rest : ℕ → ℕ) (p : Process) (why : Text) (reply : Reply Source)
      → IsImport
          (given_source reply)
          (on_reply reply (λ _. refused why) (restore_sql_reader upper_rest lower_rest p))
  unfolding on_reply
  given-IsImport lower_rest p why (broken because) h = cc (h)
  given-IsImport lower_rest p why (given source) h =
      restore_sql_reader-IsImport lower_rest p source h

  member-IsImport :
      (lower_rest : ℕ → ℕ) (p : Process) (why : Text) (absent : Text) (member : Option ZipMember)
      → IsImport
          (elim member [ none ↦ none | some m ↦ given_source m.opens ])
          (elim member [
            | none ↦ refused absent
            | some m ↦
                on_reply m.opens (λ _. refused why) (restore_sql_reader upper_rest lower_rest p)
          ])
  member-IsImport lower_rest p why absent none h = cc (h)
  member-IsImport lower_rest p why absent (some m) h = given-IsImport lower_rest p why m.opens h

  zip-IsImport :
      (lower_rest : ℕ → ℕ) (p : Process) (why closed absent : Text) (zip : Reply (List ZipMember))
      → IsImport
          (on_reply zip
            (λ _. none)
            (λ members. elim (sql_member lower_rest members) [
              | none ↦ none
              | some m ↦ given_source m.opens
            ]))
          (on_reply zip
            (λ _. refused closed)
            (λ members. elim (sql_member lower_rest members) [
              | none ↦ refused absent
              | some m ↦
                  on_reply m.opens (λ _. refused why) (restore_sql_reader upper_rest lower_rest p)
            ]))
  unfolding on_reply
  zip-IsImport lower_rest p why closed absent (broken because) h = cc (h)
  zip-IsImport lower_rest p why closed absent (given members) h =
      member-IsImport lower_rest p why absent (sql_member lower_rest members) h

  pub restore_by_format-IsImport :
      (lower_rest : ℕ → ℕ) (ext : Text) (p : Process) (f : BackupFile)
      → IsImport (source_of lower_rest ext f) (restore_by_format upper_rest lower_rest ext p f)
  unfolding source_of restore_by_format restore_from_gz restore_from_sql restore_from_zip
  restore_by_format-IsImport lower_rest ext p f =
      let lower = map (to_lower lower_rest) ext in
      elim (Bool-cases (text_eq lower (codes ".gz"))) [
        | inl e ↦ rw e (
            on_fault-Both (IsImport (given_source f.gzip)) f.opens (λ why h. cc (h))
              (given-IsImport lower_rest p _ f.gzip))
        | inr e ↦ rw e (elim (Bool-cases (text_eq lower (codes ".sql"))) [
          | inl e' ↦ rw e' (
              on_fault-Both (IsImport (some f.plain)) f.opens (λ why h. cc (h))
                (restore_sql_reader-IsImport lower_rest p f.plain))
          | inr e' ↦ rw e' (elim (Bool-cases (text_eq lower (codes ".zip"))) [
            | inl e'' ↦ rw e'' (zip-IsImport lower_rest p _ _ _ f.zip)
            | inr e'' ↦ rw e'' (λ h. cc (h))
          ])
        ])
      ]
