-- ===== src/Restore/Run.antt =====
-- `writeSanitizedRestoreSQL` (executor/backup.go) once a statement is decided: it is dropped, or copied.
use wp_panel_en_private.Base.{
  ℕ, ◌≡◌, refl, sym, ap, ◌∙◌, arith, inl, inr, Bool, true, false, ◌&&◌, Option, none, some, [], ◌∷◌,
  ◌++◌, append_assoc, ◌==◌, if◌then◌else◌, Bool-cases,
}
use wp_panel_en_private.Base.Text.{Text}
use wp_panel_en_private.Restore.Sanitize.{
  Quotes, unquoted, outside, quote_byte, Scan, start, statement_byte, scan_byte, scan, flush_end,
}

-- The quotes after a stretch of a statement; none where a bare `;` ends the statement in it.
unfoldable pub follows : Quotes → Text → Option Quotes
follows q [] = some q
follows q (b ∷ s) =
    let rest = follows (quote_byte q b) s in if outside q && b == b';' then none else rest

-- A statement that is decided: skipped, with its first bytes still held, or copied.
abbrev pub decided : Bool → Text → Quotes → Scan
decided skip p q = record {
  prefix = p;
  held = if skip then p else [];
  in_statement = true;
  skip_statement = skip;
  decision_made = true;
  quotes = q;
}

joined :
    (skip : Bool) (b : ℕ) (s out : Text)
    → (if skip then [] else b ∷ []) ++ ((if skip then [] else s ++ (b';' ∷ [])) ++ out)
      ≡ (if skip then [] else b ∷ (s ++ (b';' ∷ []))) ++ out
joined true b s out = refl
joined false b s out = refl

module _ (upper_rest : ℕ → ℕ) where
  -- All that is written from a state on.
  unfoldable pub emitted : Scan → Text → Text
  emitted s bytes = let end = scan upper_rest s bytes in end.1 ++ flush_end end.0

  pub emitted_step :
      (s : Scan) (b : ℕ) (bytes : Text)
      → emitted s (b ∷ bytes)
        ≡ (scan_byte upper_rest s b).1 ++ emitted (scan_byte upper_rest s b).0 bytes
  unfolding emitted
  emitted_step s b bytes = append_assoc (scan_byte upper_rest s b).1 _ _

  pub decided_step :
      (skip : Bool) (p : Text) (q : Quotes) (b : ℕ)
      → (outside q && b == b';') ≡ false
      → scan_byte upper_rest (decided skip p q) b
        ≡ (decided skip p (quote_byte q b), if skip then [] else b ∷ [])
  unfolding scan_byte statement_byte
  decided_step true p q b h = ground (arith)
  decided_step false p q b h = ground (arith)

  pub decided_end :
      (skip : Bool) (p : Text)
      → scan_byte upper_rest (decided skip p unquoted) b';'
        ≡ (start, if skip then [] else b';' ∷ [])
  unfolding scan_byte statement_byte
  decided_end true p = refl
  decided_end false p = refl

  -- A decided statement is dropped or copied to its end, and the scan starts again.
  pub emitted-decided :
      (skip : Bool) (p : Text) (q : Quotes) (s more : Text)
      → follows q s ≡ some unquoted
      → emitted (decided skip p q) (s ++ (b';' ∷ more))
        ≡ (if skip then [] else s ++ (b';' ∷ [])) ++ emitted start more
  unfolding follows
  emitted-decided skip p q [] more h =
      let e : q ≡ unquoted = cc (h) in
      rw e (rw (emitted_step (decided skip p unquoted) b';' more) (rw (decided_end skip p) refl))
  emitted-decided skip p q (b ∷ s) more h = elim (Bool-cases (outside q && b == b';')) [
    | inl e ↦ cc (sym (ap (λ t. if t then none else follows (quote_byte q b) s) e) ∙ h)
    | inr e ↦
        let later : follows (quote_byte q b) s ≡ some unquoted =
          sym (ap (λ t. if t then none else follows (quote_byte q b) s) e) ∙ h in
        rw (emitted_step (decided skip p q) b (s ++ (b';' ∷ more))) (
          rw (decided_step skip p q b e) (
            rw (emitted-decided skip p (quote_byte q b) s more later)
              (joined skip b s (emitted start more))))
  ]
