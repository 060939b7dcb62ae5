-- ===== src/Access/Counting.antt =====
-- Counts of rows, and what the times in the rows of bans and of attempts imply of each other: the
-- WHERE clauses of middleware/login_attempt.go.
use Prim.Native.Nat.{ℕ, ◌+◌, ◌≤◌, ◌<◌}
use native.Mathlib.Omega.{arith}
use wp_panel_en_private.Base.{
  ◌≡◌, refl, inl, inr, Bool, true, false, not, ◌&&◌, ◌||◌, Option, none, some, List, [], ◌∷◌, ltb,
  leb, any, all, Bool-cases,
}
use wp_panel_en_private.Base.Text.{Text, text_eq}
use wp_panel_en_private.Access.Bans.{Ban, Attempt, count_where, unexpired, stands, is_active}
use wp_panel_en_private.Access.Login.{Tracker, recent}

pub count-any {ℓ} : {A : Type ℓ} (p : A → Bool) (xs : List A) → ltb 0 (count_where p xs) ≡ any p xs
count-any p [] = refl
count-any p (x ∷ xs) = elim (Bool-cases (p x)) [
  | inl e ↦ ground arith
  | inr e ↦ ground (arith, count-any p xs)
]

pub count-imp {ℓ} :
    {A : Type ℓ} (p q : A → Bool)
    → ((x : A) → p x ≡ true → q x ≡ true)
    → (xs : List A) → count_where p xs ≤ count_where q xs
count-imp p q i [] = omega arith
count-imp p q i (x ∷ xs) = ground (arith, i x, count-imp p q i xs)

pub any-imp {ℓ} :
    {A : Type ℓ} (p q : A → Bool)
    → ((x : A) → p x ≡ true → q x ≡ true)
    → (xs : List A) → any p xs ≡ true
    → any q xs ≡ true
any-imp p q i [] h = h
any-imp p q i (x ∷ xs) h = ground (arith, i x, any-imp p q i xs)

pub any-all {ℓ} :
    {A : Type ℓ} (p q : A → Bool) (xs : List A)
    → all (λ x. not (p x) || q x) xs ≡ true
    → any p xs ≡ true
    → any q xs ≡ true
any-all p q [] a h = h
any-all p q (x ∷ xs) a h = ground (arith, any-all p q xs)

pub any-false-all {ℓ} :
    {A : Type ℓ} (p q : A → Bool) (xs : List A)
    → any p xs ≡ false
    → all (λ x. not (p x) || q x) xs ≡ true
any-false-all p q [] h = refl
any-false-all p q (x ∷ xs) h = ground (arith, any-false-all p q xs)

-- expires_at IS NULL OR expires_at >= until
abbrev pub lasts : Option ℕ → ℕ → Bool
lasts none until = true
lasts (some e) until = leb until e

-- A ban of the address that keeps it out until the given time.
abbrev pub covers : Text → ℕ → Ban → Bool
covers ip until b = stands ip b && lasts b.expires_at until

-- An attempt of the address since the given time.
abbrev pub since : Text → ℕ → Attempt → Bool
since ip t0 a = text_eq a.ip_address ip && leb t0 a.created_at

expires_earlier :
    (t0 now : ℕ) → t0 ≤ now → (e : Option ℕ) → unexpired e now ≡ true → unexpired e t0 ≡ true
expires_earlier t0 now le none h = refl
expires_earlier t0 now le (some e) h = ground arith

pub active_earlier :
    (ip : Text) (t0 now : ℕ)
    → t0 ≤ now
    → (b : Ban) → is_active ip now b ≡ true
    → is_active ip t0 b ≡ true
active_earlier ip t0 now le b h = ground (arith, expires_earlier t0 now le b.expires_at)

lasts-unexpired :
    (until now : ℕ) → now < until → (e : Option ℕ) → lasts e until ≡ true → unexpired e now ≡ true
lasts-unexpired until now lt none h = refl
lasts-unexpired until now lt (some e) h = ground arith

pub covers_active :
    (ip : Text) (until now : ℕ)
    → now < until
    → (b : Ban) → covers ip until b ≡ true
    → is_active ip now b ≡ true
covers_active ip until now lt b h = ground (arith, lasts-unexpired until now lt b.expires_at)

pub since-recent :
    (t : Tracker) (ip : Text) (t0 now : ℕ)
    → now < t0 + t.attempt_window
    → (a : Attempt) → since ip t0 a ≡ true
    → recent t ip now a ≡ true
since-recent t ip t0 now lt a h = ground arith
