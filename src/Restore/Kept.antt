-- ===== src/Restore/Kept.antt =====
-- What `writeSanitizedRestoreSQL` (executor/backup.go) makes of a dump that is a list of statements: the
-- statements that are to be left out are gone, and the others are as they were.
use wp_panel_en_private.Base.{
  ℕ, ◌≡◌, refl, sym, ap, ◌∙◌, arith, inl, inr, Bool, true, false, Option, none, some, [], ◌∷◌, ◌++◌,
  append_assoc, ltb, leb, ◌==◌, if◌then◌else◌, Bool-cases,
}
use wp_panel_en_private.Base.Text.{Text}
use wp_panel_en_private.Restore.{restore_statement_decision}
use wp_panel_en_private.Restore.Sanitize.{
  unquoted, is_blank, prefix_len, max_statement_prefix, Scan, start, decided_byte, statement_byte,
  scan_byte, sanitized,
}
use wp_panel_en_private.Restore.Run.{decided, emitted, emitted_step, emitted-decided}
use wp_panel_en_private.Restore.Pieces.{is_plain, Pieces, follows-Pieces}

module _ (upper_rest : ℕ → ℕ) where
  -- The verdict on a prefix: whether the statement is left out; a prefix of the greatest length is
  -- undecided no longer, and its statement stays.
  abbrev pub verdict : Text → Option Bool
  verdict before = elim (restore_statement_decision upper_rest before) [
    | some skip ↦ some skip
    | none ↦ if leb max_statement_prefix (prefix_len before) then some false else none
  ]

  -- Plain bytes of which the last, and none before, brings the verdict.
  pub data Head (skip : Bool) : Text → Text → Type 0 where
    last :
        (before : Text) (b : ℕ)
        → is_plain b ≡ true
        → verdict (before ++ b ∷ []) ≡ some skip
        → Head skip before (b ∷ [])
    more :
        (before : Text) (b : ℕ) {s : Text}
        → verdict (before ++ b ∷ []) ≡ none
        → Head skip (before ++ b ∷ []) s
        → Head skip before (b ∷ s)

  -- A dump, and what is to be left of it: blanks between statements, each with its head, the rest of its
  -- text, and a `;`.
  pub data Dump : Text → Text → Type 0 where
    finished : Dump [] []
    blank : (b : ℕ) {s kept : Text} → is_blank b ≡ true → Dump s kept → Dump (b ∷ s) (b ∷ kept)
    left_out :
        (b : ℕ) (head rest : Text) {s kept : Text}
        → is_blank b ≡ false
        → Head true [] (b ∷ head)
        → Pieces rest
        → Dump s kept
        → Dump ((b ∷ head) ++ (rest ++ (b';' ∷ s))) kept
    copied :
        (b : ℕ) (head rest : Text) {s kept : Text}
        → is_blank b ≡ false
        → Head false [] (b ∷ head)
        → Pieces rest
        → Dump s kept
        → Dump ((b ∷ head) ++ (rest ++ (b';' ∷ s))) ((b ∷ head) ++ ((rest ++ (b';' ∷ [])) ++ kept))

  abbrev undecided : Text → Scan
  undecided p = record start { prefix = p; held = p; in_statement = true }

  undecided_step :
      (p : Text) (b : ℕ)
      → ltb (prefix_len p) max_statement_prefix ≡ true
      → scan_byte upper_rest (undecided p) b
        ≡ decided_byte
            (undecided (p ++ b ∷ []))
            b
            (restore_statement_decision upper_rest (p ++ b ∷ []))
  unfolding scan_byte statement_byte
  undecided_step p b short = rw short refl

  decided_byte-last :
      (skip : Bool) (p : Text) (b : ℕ) (d : Option Bool)
      → is_plain b ≡ true
      → elim d [
        | some skip' ↦ some skip'
        | none ↦ if leb max_statement_prefix (prefix_len p) then some false else none
      ]
        ≡ some skip
      → decided_byte (undecided p) b d ≡ (decided skip p unquoted, if skip then [] else p)
  decided_byte-last true p b (some true) h e =
      let no_end : (b == b';') ≡ false = ground (arith, h) in rw no_end refl
  decided_byte-last false p b (some true) h e = cc (e)
  decided_byte-last true p b (some false) h e = cc (e)
  decided_byte-last false p b (some false) h e = refl
  decided_byte-last skip p b none h e =
      elim (Bool-cases (leb max_statement_prefix (prefix_len p))) [
        | inl long ↦ rw long (kept_long skip (cc (e, long)))
        | inr short ↦ cc (e, short)
      ]
    where
      kept_long :
          (skip : Bool)
          → false ≡ skip
          → ◌≡◌ {A = Scan × Text}
              (decided false p unquoted, p)
              (decided skip p unquoted, if skip then [] else p)
      kept_long true q = cc (q)
      kept_long false q = refl

  decided_byte-more :
      (p : Text) (b : ℕ) (d : Option Bool)
      → elim d [
        | some skip' ↦ some skip'
        | none ↦ if leb max_statement_prefix (prefix_len p) then some false else none
      ]
        ≡ none
      → (decided_byte (undecided p) b d ≡ (undecided p, []))
        × (ltb (prefix_len p) max_statement_prefix ≡ true)
  decided_byte-more p b (some skip) e = cc (e)
  decided_byte-more p b none e = elim (Bool-cases (leb max_statement_prefix (prefix_len p))) [
    | inl long ↦ cc (e, long)
    | inr short ↦ rw short (refl, ground (arith, short))
  ]

  emitted-Head :
      (skip : Bool) (p s tail : Text)
      → Head skip p s
      → ltb (prefix_len p) max_statement_prefix ≡ true
      → emitted upper_rest (undecided p) (s ++ tail)
        ≡ (if skip then [] else p ++ s) ++ emitted upper_rest (decided skip (p ++ s) unquoted) tail
  emitted-Head skip p _ tail (last _ b h e) short =
      emitted_step upper_rest (undecided p) b tail
      ∙ ap (λ t. t.1 ++ emitted upper_rest t.0 tail)
          (undecided_step p b short
            ∙ decided_byte-last skip (p ++ b ∷ []) b
                (restore_statement_decision upper_rest (p ++ b ∷ [])) h e)
  emitted-Head skip p _ tail (more _ b {s = s} e later) short =
      let step =
        decided_byte-more (p ++ b ∷ []) b (restore_statement_decision upper_rest (p ++ b ∷ [])) e in
      emitted_step upper_rest (undecided p) b (s ++ tail)
      ∙ ap (λ t. t.1 ++ emitted upper_rest t.0 (s ++ tail)) (undecided_step p b short ∙ step.0)
      ∙ emitted-Head skip (p ++ b ∷ []) s tail later step.1
      ∙ ap (λ t. (if skip then [] else t) ++ emitted upper_rest (decided skip t unquoted) tail)
          (append_assoc p (b ∷ []) s)

  start_step :
      (b : ℕ) (bytes : Text)
      → is_blank b ≡ false
      → emitted upper_rest start (b ∷ bytes) ≡ emitted upper_rest (undecided []) (b ∷ bytes)
  unfolding scan_byte statement_byte
  start_step b bytes e =
      emitted_step upper_rest start b bytes
      ∙ rw e (sym (emitted_step upper_rest (undecided []) b bytes))

  blank_step :
      (b : ℕ) (bytes : Text)
      → is_blank b ≡ true
      → emitted upper_rest start (b ∷ bytes) ≡ b ∷ emitted upper_rest start bytes
  unfolding scan_byte
  blank_step b bytes e = emitted_step upper_rest start b bytes ∙ rw e refl

  emitted_statement :
      (skip : Bool) (b : ℕ) (head rest s : Text)
      → is_blank b ≡ false
      → Head skip [] (b ∷ head)
      → Pieces rest
      → emitted upper_rest start ((b ∷ head) ++ (rest ++ (b';' ∷ s)))
        ≡ (if skip then [] else b ∷ head)
          ++ ((if skip then [] else rest ++ (b';' ∷ [])) ++ emitted upper_rest start s)
  emitted_statement skip b head rest s e h pieces =
      start_step b (head ++ (rest ++ (b';' ∷ s))) e
      ∙ emitted-Head skip [] (b ∷ head) (rest ++ (b';' ∷ s)) h refl
      ∙ ap (λ t. (if skip then [] else b ∷ head) ++ t)
          (emitted-decided upper_rest skip (b ∷ head) unquoted rest s (follows-Pieces rest pieces))

  emitted-Dump : (bytes kept : Text) → Dump bytes kept → emitted upper_rest start bytes ≡ kept
  unfolding emitted
  emitted-Dump [] [] finished = refl
  emitted-Dump _ _ (blank b {s = s} {kept = kept} e d) =
      blank_step b s e ∙ ap (λ t. b ∷ t) (emitted-Dump s kept d)
  emitted-Dump _ _ (left_out b head rest {s = s} {kept = kept} e h pieces d) =
      emitted_statement true b head rest s e h pieces ∙ emitted-Dump s kept d
  emitted-Dump _ _ (copied b head rest {s = s} {kept = kept} e h pieces d) =
      emitted_statement false b head rest s e h pieces
      ∙ ap (λ t. (b ∷ head) ++ ((rest ++ (b';' ∷ [])) ++ t)) (emitted-Dump s kept d)

-- A dump is blanks and statements, where each statement begins with plain bytes of which the last
-- decides it, goes on with plain bytes, strings and names in which quotes close and a `;` is quoted, and
-- ends with a `;`. Of such a dump exactly the statements that are decided to be left out are gone, and
-- all else reaches mysql as it is, byte for byte.
pub sanitized-Dump :
    (upper_rest : ℕ → ℕ) (bytes kept : Text)
    → Dump upper_rest bytes kept
    → sanitized upper_rest bytes ≡ kept
unfolding emitted
sanitized-Dump upper_rest bytes kept d = emitted-Dump upper_rest bytes kept d
