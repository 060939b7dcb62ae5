-- ===== src/Restore/Chunks.antt =====
-- What `writeSanitizedRestoreSQL` (executor/backup.go) sends is that of its scan of the whole file.
use mathlib.Core.Path.{fun_ext}
use wp_panel_en_private.Base.{
  ℕ, zero, suc, ◌≤◌, ◌≡◌, refl, sym, ap, ◌∙◌, arith, inl, inr, true, Option, none, some, List, [],
  ◌∷◌, ◌++◌, append_assoc, take, length, length-append, ltb, Bool-cases,
}
use wp_panel_en_private.Base.Fault.{Fault}
use wp_panel_en_private.Base.Text.{Text}
use wp_panel_en_private.Restore.Sanitize.{
  Scan, start, scan_byte, scan, flush_end, sanitized, accept, write_bytes, write_chunks,
  write_sanitized_restore_sql,
}

abbrev pub concat : List Text → Text
concat [] = []
concat (chunk ∷ chunks) = chunk ++ concat chunks

take_within : (n : ℕ) (s t : Text) → n ≤ length s → take n (s ++ t) ≡ take n s
take_within zero s t h = refl
take_within (suc n) [] t h = ground arith
take_within (suc n) (c ∷ s) t h = ap (λ t. c ∷ t) (take_within n s t (omega arith))

module _ (upper_rest : ℕ → ℕ) where
  abbrev done : Text → Text × Fault
  done sent = (sent, none)

  accept-accept :
      (limit : Option (ℕ × Text)) (sent more rest : Text)
      → accept limit sent more (λ sent'. accept limit sent' rest done)
        ≡ accept limit sent (more ++ rest) done
  accept-accept none sent more rest = ap done (append_assoc sent more rest)
  accept-accept (some (room, why)) sent more rest =
      rw (sym (append_assoc sent more rest)) (elim (Bool-cases (ltb room (length (sent ++ more)))) [
        | inl e ↦
            let over : ltb room (length ((sent ++ more) ++ rest)) ≡ true =
              ground (arith, e, length-append (sent ++ more) rest) in
            rw e (
              rw over (
                ap (λ t. (t, some why))
                  (sym (take_within room (sent ++ more) rest (ground (arith, e))))))
        | inr e ↦ rw e refl
      ])

  write_bytes-accept :
      (limit : Option (ℕ × Text)) (s : Scan) (bytes sent : Text) (rest : Scan → Text)
      (next : Scan → Text → Text × Fault)
      → ((s' : Scan) (sent' : Text) → next s' sent' ≡ accept limit sent' (rest s') done)
      → write_bytes upper_rest limit s bytes sent next
        ≡ accept limit sent ((scan upper_rest s bytes).1 ++ rest (scan upper_rest s bytes).0) done
  write_bytes-accept limit s [] sent rest next h = h s sent
  write_bytes-accept limit s (b ∷ bytes) sent rest next h =
      let step = scan_byte upper_rest s b in
      let ih : (sent' : Text)
          → write_bytes upper_rest limit step.0 bytes sent' next
            ≡ accept limit sent'
                ((scan upper_rest step.0 bytes).1 ++ rest (scan upper_rest step.0 bytes).0) done =
        λ (sent' : Text). write_bytes-accept limit step.0 bytes sent' rest next h in
      rw (fun_ext ih) (
        rw
          (append_assoc step.1 (scan upper_rest step.0 bytes).1
            (rest (scan upper_rest step.0 bytes).0))
          (accept-accept limit sent step.1
            ((scan upper_rest step.0 bytes).1 ++ rest (scan upper_rest step.0 bytes).0)))

  pub scan-append :
      (s : Scan) (a b : Text)
      → scan upper_rest s (a ++ b) ≡ (
        (scan upper_rest (scan upper_rest s a).0 b).0,
        (scan upper_rest s a).1 ++ (scan upper_rest (scan upper_rest s a).0 b).1,
      )
  scan-append s [] b = refl
  scan-append s (c ∷ a) b =
      let step = scan_byte upper_rest s c in
      rw (scan-append step.0 a b) (
        ap (λ t. ((scan upper_rest (scan upper_rest step.0 a).0 b).0, t))
          (sym (
            append_assoc step.1 (scan upper_rest step.0 a).1
              (scan upper_rest (scan upper_rest step.0 a).0 b).1)))

  abbrev rest_of : List Text → Scan → Text
  rest_of chunks s = let end = scan upper_rest s (concat chunks) in end.1 ++ flush_end end.0

  rest_of-append :
      (s : Scan) (chunk : Text) (chunks : List Text)
      → (scan upper_rest s chunk).1 ++ rest_of chunks (scan upper_rest s chunk).0
        ≡ rest_of (chunk ∷ chunks) s
  rest_of-append s chunk chunks = rw (scan-append s chunk (concat chunks)) (
      sym (
        append_assoc (scan upper_rest s chunk).1
          (scan upper_rest (scan upper_rest s chunk).0 (concat chunks)).1 _))

  write_chunks-accept :
      (limit : Option (ℕ × Text)) (chunks : List Text) (s : Scan) (sent : Text)
      → write_chunks upper_rest limit s chunks none sent ≡ accept limit sent (rest_of chunks s) done
  write_chunks-accept limit [] s sent = refl
  write_chunks-accept limit (chunk ∷ chunks) s sent =
      write_bytes-accept limit s chunk sent (rest_of chunks) _ (write_chunks-accept limit chunks)
      ∙ ap (λ t. accept limit sent t done) (rest_of-append s chunk chunks)

-- What reaches mysql does not depend on how the reads cut the file: when the reads end without an
-- error, the destination has the scan's output for the whole file, and no error is returned; where it
-- takes only `room` bytes and then fails, it has their first `room` bytes and that failure is returned.
pub write_sanitized_restore_sql-sanitized :
    (upper_rest : ℕ → ℕ) (limit : Option (ℕ × Text)) (chunks : List Text)
    → write_sanitized_restore_sql upper_rest limit chunks none
      ≡ accept limit [] (sanitized upper_rest (concat chunks)) (λ sent. (sent, none))
unfolding write_sanitized_restore_sql
write_sanitized_restore_sql-sanitized upper_rest limit chunks =
    write_chunks-accept upper_rest limit chunks start []
