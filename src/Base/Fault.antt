-- ===== src/Base/Fault.antt =====
-- Steps that call the system: an error, as Go returns it, and the branch on it.
use mathlib.Core.Path.{◌≡◌, refl}
use mathlib.Core.Option.{Option, none, some}
use wp_panel_en_private.Base.Text.{Text}

-- none is success, else what the error says.
abbrev pub Fault : Type 0
Fault = Option Text

unfoldable pub on_fault {ℓ} : {A : Type ℓ} → Fault → (Text → A) → A → A
on_fault none bad good = good
on_fault (some why) bad good = bad why

pub on_fault-Both {ℓ κ} :
    {A : Type ℓ} (P : A → Type κ) (f : Fault) {bad : Text → A} {good : A}
    → ((why : Text) → P (bad why))
    → P good
    → P (on_fault f bad good)
unfolding on_fault
on_fault-Both P none p q = q
on_fault-Both P (some why) p q = p why

-- As above, with what the step answered.
pub on_fault-By {ℓ κ} :
    {A : Type ℓ} (P : A → Type κ) (f : Fault) {bad : Text → A} {good : A}
    → ((why : Text) → f ≡ some why → P (bad why))
    → (f ≡ none → P good)
    → P (on_fault f bad good)
unfolding on_fault
on_fault-By P none p q = q refl
on_fault-By P (some why) p q = p why refl

-- A read that fails or gives a value.
pub data Reply {ℓ} (A : Type ℓ) : Type ℓ where
  broken : Text → Reply A
  given : A → Reply A

unfoldable pub on_reply {ℓ κ} : {A : Type ℓ} {B : Type κ} → Reply A → (Text → B) → (A → B) → B
on_reply (broken why) bad good = bad why
on_reply (given a) bad good = good a
