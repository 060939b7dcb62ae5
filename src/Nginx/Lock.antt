-- ===== src/Nginx/Lock.antt =====
-- The lock file of `withNginxBanLock` (executor/nginx_ban.go): how its loop ends.
use wp_panel_en_private.Base.{
  ℕ, zero, suc, ◌+◌, ◌*◌, ◌≤◌, ◌≡◌, ◌≢◌, refl, arith, inl, inr, Bool, true, false, Bool-cases,
  Option, none, some, ltb, if◌then◌else◌,
}
use wp_panel_en_private.Base.Fault.{Fault}
use wp_panel_en_private.Base.Text.{Text, codes}

-- A round of the loop, with the milliseconds that its calls take: the lock file is made; or it cannot
-- be made, though it is not there; or it is there and at most 30 seconds old; or it is there and older.
pub data LockRound : Type 0 where
  made : ℕ → LockRound
  broken : Text → LockRound
  taken : ℕ → LockRound
  stale : ℕ → LockRound

abbrev pub after_round : ℕ → (ℕ → Option Fault) → LockRound → Option Fault
after_round elapsed again (made time) = some none
after_round elapsed again (broken why) = some (some why)
after_round elapsed again (stale time) = again (elapsed + time)
after_round elapsed again (taken time) =
    if ltb 5000 (elapsed + time)
    then some (some (codes "timeout waiting for nginx ban lock"))
    else again (elapsed + time + 100)

-- The answer of the lock, or none for a lack of fuel. `elapsed` is the time since the loop began, in
-- milliseconds, and `k` the number of rounds so far. A stale file is removed, and the next round begins
-- at once, whatever the removal answers.
unfoldable pub await_lock : (ℕ → LockRound) → ℕ → ℕ → ℕ → Option Fault
await_lock rounds zero elapsed k = none
await_lock rounds (suc fuel) elapsed k =
    after_round elapsed (λ later. await_lock rounds fuel later (suc k)) (rounds k)

abbrev pub is_stale : LockRound → Bool
is_stale (stale time) = true
is_stale (made time) = false
is_stale (broken why) = false
is_stale (taken time) = false

-- The rounds that do not find a stale file, of a given number of rounds from the k-th on.
abbrev pub fresh_rounds : (ℕ → LockRound) → ℕ → ℕ → ℕ
fresh_rounds rounds k zero = 0
fresh_rounds rounds k (suc n) =
    (if is_stale (rounds k) then 0 else 1) + fresh_rounds rounds (suc k) n

stale_again :
    (elapsed : ℕ) (again : ℕ → Option Fault) (round : LockRound)
    → is_stale round ≡ true
    → ((later : ℕ) → again later ≡ none)
    → after_round elapsed again round ≡ none
stale_again elapsed again (made time) e h = cc
stale_again elapsed again (broken why) e h = cc
stale_again elapsed again (stale time) e h = h (elapsed + time)
stale_again elapsed again (taken time) e h = cc

spins :
    (rounds : ℕ → LockRound)
    → ((k : ℕ) → is_stale (rounds k) ≡ true)
    → (fuel elapsed k : ℕ) → await_lock rounds fuel elapsed k ≡ none
unfolding await_lock
spins rounds h zero elapsed k = refl
spins rounds h (suc fuel) elapsed k =
    stale_again elapsed (λ later. await_lock rounds fuel later (suc k)) (rounds k) (h k)
      (λ later. spins rounds h fuel later (suc k))

-- One round of the argument for the end: `rest` rounds to come find no stale file.
round_ends :
    (elapsed rest : ℕ) (again : ℕ → Option Fault) (round : LockRound)
    → 1 ≤ (if is_stale round then 0 else 1) + rest
    → 5101 ≤ elapsed + 100 * ((if is_stale round then 0 else 1) + rest)
    → ((later : ℕ) → 1 ≤ rest → 5101 ≤ later + 100 * rest → again later ≢ none)
    → after_round elapsed again round ≢ none
round_ends elapsed rest again (made time) h e next = λ f. cc
round_ends elapsed rest again (broken why) h e next = λ f. cc
round_ends elapsed rest again (stale time) h e next =
    next (elapsed + time) (omega arith) (omega arith)
round_ends elapsed rest again (taken time) h e next =
    elim (Bool-cases (ltb 5000 (elapsed + time))) [
      | inl late ↦ rw late (λ f. cc)
      | inr early ↦ rw early (next (elapsed + time + 100) (ground arith) (ground arith))
    ]

ends_from :
    (rounds : ℕ → LockRound) (fuel elapsed k : ℕ)
    → 1 ≤ fresh_rounds rounds k fuel
    → 5101 ≤ elapsed + 100 * fresh_rounds rounds k fuel
    → await_lock rounds fuel elapsed k ≢ none
unfolding await_lock
ends_from rounds zero elapsed k some_fresh enough = ground arith
ends_from rounds (suc fuel) elapsed k some_fresh enough =
    round_ends elapsed (fresh_rounds rounds (suc k) fuel)
      (λ later. await_lock rounds fuel later (suc k)) (rounds k) some_fresh enough
      (λ later h e. ends_from rounds fuel later (suc k) h e)

-- The wait for the lock ends, with the lock or with an error, once 52 rounds have not found a stale
-- file, however many rounds have found one.
pub await_lock-ends :
    (rounds : ℕ → LockRound) (fuel : ℕ)
    → 52 ≤ fresh_rounds rounds 0 fuel
    → await_lock rounds fuel 0 0 ≢ none
await_lock-ends rounds fuel enough = ends_from rounds fuel 0 0 (omega arith) (omega arith)

-- Where every round finds a stale lock file, as when it cannot be removed, the wait has no end: such a
-- round does not look at the deadline of five seconds.
pub await_lock_spins :
    (rounds : ℕ → LockRound)
    → ((k : ℕ) → is_stale (rounds k) ≡ true)
    → (fuel : ℕ) → await_lock rounds fuel 0 0 ≡ none
await_lock_spins rounds h fuel = spins rounds h fuel 0 0
