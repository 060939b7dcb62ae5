-- ===== src/Restore/Sanitize.antt =====
-- `writeSanitizedRestoreSQL` of executor/backup.go: the state of its loop, the step on one byte with what
-- it writes, and the loop over what the reads give.
use wp_panel_en_private.Base.{
  ℕ, ◌+◌, Bool, true, false, not, ◌&&◌, ◌||◌, Option, none, some, List, [], ◌∷◌, ◌++◌, take, length,
  ltb, leb, ◌==◌, if◌then◌else◌,
}
use wp_panel_en_private.Base.Fault.{Fault}
use wp_panel_en_private.Base.Text.{Text}
use wp_panel_en_private.Restore.{restore_statement_decision}

-- inSingleQuote, inDoubleQuote, inBacktick and escaped, which both scanners keep.
pub record Quotes : Type 0 where
  pub single : Bool
  pub double : Bool
  pub backtick : Bool
  pub escaped : Bool

abbrev pub unquoted : Quotes
unquoted = record { single = false; double = false; backtick = false; escaped = false }

abbrev pub outside : Quotes → Bool
outside q = not q.single && not q.double && not q.backtick

-- A byte inside a string.
abbrev pub string_byte : Quotes → ℕ → Quotes
string_byte q b =
    if q.escaped
    then record q { escaped = false }
    else if b == b'\\'
    then record q { escaped = true }
    else if q.single && b == b'\''
    then record q { single = false }
    else if q.double && b == b'"'
    then record q { double = false }
    else q

-- A byte outside all quotes.
abbrev pub open_quote : Quotes → ℕ → Quotes
open_quote q b =
    if b == b'\''
    then record q { single = true }
    else if b == b'"'
    then record q { double = true }
    else if b == b'`'
    then record q { backtick = true }
    else q

unfoldable pub quote_byte : Quotes → ℕ → Quotes
quote_byte q b =
    if q.single || q.double
    then string_byte q b
    else if q.backtick
    then if b == b'`' then record q { backtick = false } else q
    else open_quote q b

abbrev pub is_blank : ℕ → Bool
is_blank b = b == b'\r' || b == b'\n' || b == b'\t' || b == b' '

-- The length of the prefix: string(b) has two bytes from 128 on.
abbrev pub prefix_len : Text → ℕ
prefix_len [] = 0
prefix_len (c ∷ s) = (if ltb c 128 then 1 else 2) + prefix_len s

abbrev pub max_statement_prefix : ℕ
max_statement_prefix = 256

pub record Scan : Type 0 where
  pub prefix : Text
  pub held : Text
  pub in_statement : Bool
  pub skip_statement : Bool
  pub decision_made : Bool
  pub quotes : Quotes

abbrev pub start : Scan
start = record {
  prefix = [];
  held = [];
  in_statement = false;
  skip_statement = false;
  decision_made = false;
  quotes = unquoted;
}

abbrev pub begin_statement : Scan → Scan
begin_statement s = record s {
  in_statement = true;
  skip_statement = false;
  decision_made = false;
  prefix = [];
  held = [];
}

abbrev pub end_statement : Scan → Scan
end_statement s = record s {
  in_statement = false;
  skip_statement = false;
  decision_made = false;
  prefix = [];
  held = [];
}

-- The state afterwards and the bytes written.
abbrev pub decided_byte : Scan → ℕ → Option Bool → Scan × Text
decided_byte s b (some true) =
    if b == b';'
    then (end_statement s, [])
    else (record s { decision_made = true; skip_statement = true }, [])
decided_byte s b (some false) =
    (record s { decision_made = true; skip_statement = false; held = [] }, s.held)
decided_byte s b none =
    if leb max_statement_prefix (prefix_len s.prefix)
    then (record s { decision_made = true; held = [] }, s.held)
    else (s, [])

abbrev pub copy_byte : Scan → ℕ → Scan × Text
copy_byte s b = if s.skip_statement then (s, []) else (record s { held = [] }, s.held ++ b ∷ [])

abbrev pub track_byte : Scan → ℕ → Scan
track_byte s b =
    if outside s.quotes && b == b';'
    then end_statement s
    else record s { quotes = quote_byte s.quotes b }

abbrev pub is_undecided : Scan → Bool
is_undecided s =
    s.in_statement
    && outside s.quotes
    && not s.decision_made
    && ltb (prefix_len s.prefix) max_statement_prefix

-- What is written at the end of the file.
abbrev pub flush_end : Scan → Text
flush_end s = if s.skip_statement then [] else s.held

-- The destination takes `room` bytes, or any
-- number where that is none, and then fails. The bytes that it has, and the error.
abbrev pub accept : Option (ℕ × Text) → Text → Text → (Text → Text × Fault) → Text × Fault
accept none sent more next = next (sent ++ more)
accept (some (room, why)) sent more next =
    if ltb room (length (sent ++ more))
    then (take room (sent ++ more), some why)
    else next (sent ++ more)

module _ (upper_rest : ℕ → ℕ) where
  abbrev pub prefix_byte : Scan → ℕ → Scan × Text
  prefix_byte s b =
      let longer = record s { prefix = s.prefix ++ b ∷ []; held = s.held ++ b ∷ [] } in
      decided_byte longer b (restore_statement_decision upper_rest longer.prefix)

  unfoldable pub statement_byte : Scan → ℕ → Scan × Text
  unfolding restore_statement_decision quote_byte
  statement_byte s b =
      if is_undecided s
      then prefix_byte s b
      else (let copied = copy_byte s b in (track_byte copied.0 b, copied.1))

  unfoldable pub scan_byte : Scan → ℕ → Scan × Text
  unfolding statement_byte
  scan_byte s b =
      if outside s.quotes && not s.in_statement
      then if is_blank b then (s, b ∷ []) else statement_byte (begin_statement s) b
      else statement_byte s b

  abbrev pub scan : Scan → Text → Scan × Text
  scan s [] = (s, [])
  scan s (b ∷ bytes) =
      let next = scan_byte s b in let rest = scan next.0 bytes in (rest.0, next.1 ++ rest.1)

  abbrev pub sanitized : Text → Text
  sanitized bytes = let end = scan start bytes in end.1 ++ flush_end end.0

  abbrev pub write_bytes :
      Option (ℕ × Text) → Scan → Text → Text → (Scan → Text → Text × Fault) → Text × Fault
  write_bytes limit s [] sent next = next s sent
  write_bytes limit s (b ∷ bytes) sent next =
      let step = scan_byte s b in
      accept limit sent step.1 (λ sent'. write_bytes limit step.0 bytes sent' next)

  -- The reads give chunks, and then the end or an error.
  abbrev pub write_chunks : Option (ℕ × Text) → Scan → List Text → Fault → Text → Text × Fault
  write_chunks limit s [] (some why) sent = (sent, some why)
  write_chunks limit s [] none sent = accept limit sent (flush_end s) (λ sent'. (sent', none))
  write_chunks limit s (chunk ∷ chunks) fault sent =
      write_bytes limit s chunk sent (λ s' sent'. write_chunks limit s' chunks fault sent')

  unfoldable pub write_sanitized_restore_sql : Option (ℕ × Text) → List Text → Fault → Text × Fault
  unfolding scan_byte
  write_sanitized_restore_sql limit chunks fault = write_chunks limit start chunks fault []
