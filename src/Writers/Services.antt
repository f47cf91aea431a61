-- ===== src/Writers/Services.antt =====
-- modules/ems_adapter/ha_adapter.py: set_number and set_boolean, the two service calls of the
-- writers, and the monad in which the writers run. What Home Assistant makes of a call is an
-- argument.
pub mod Calls
pub mod Effects
use ha_ems.Prelude.{ℕ, Bool, true, false, ◌||◌, String, same, ℤ, ◌≡◌, refl, if◌then◌else◌, ◌==◌}
use ha_ems.Domain.EvPower.{EvPowerError}
use Prim.Native.Char.{code}

-- The states of the number entities and of the switch entities.
pub record Store : Type 0 where
  pub number : String → ℤ
  pub switch : String → Bool

pub data ServiceCall : Type 0 where
  set_value : String → ℤ → ServiceCall
  turn : String → Bool → ServiceCall

abbrev pub HomeAssistant : Type 0
HomeAssistant = ServiceCall → Store → Store

-- What the services document: a call sets the state of its entity and no other.
pub record CarriesOut (ha : HomeAssistant) : Type 0 where
  pub set_value-number :
      (entity : String) (value : ℤ) (s : Store) (x : String)
      → (ha (set_value entity value) s).number x ≡ (if same x entity then value else s.number x)
  pub set_value-switch :
      (entity : String) (value : ℤ) (s : Store) (x : String)
      → (ha (set_value entity value) s).switch x ≡ s.switch x
  pub turn-number :
      (entity : String) (is_on : Bool) (s : Store) (x : String)
      → (ha (turn entity is_on) s).number x ≡ s.number x
  pub turn-switch :
      (entity : String) (is_on : Bool) (s : Store) (x : String)
      → (ha (turn entity is_on) s).switch x ≡ (if same x entity then is_on else s.switch x)

-- A ValueError that ends the loop.
pub data WriterError : Type 0 where
  unsupported_domain : String → WriterError
  ev_power : EvPowerError → WriterError

pub data Outcome (A : Type 0) : Type 0 where
  done : A → Store → Outcome A
  raised : WriterError → Store → Outcome A

abbrev pub Writer : Type 0 → Type 0
Writer A = Store → Outcome A

infixl 5 ◌>>=◌ ◌>>◌
abbrev pub ◌>>=◌ : {A B : Type 0} → Writer A → (A → Writer B) → Writer B
◌>>=◌ m f s = elim (m s) [ done a s' ↦ f a s' | raised e s' ↦ raised e s' ]

abbrev pub ◌>>◌ : {B : Type 0} → Writer (Unit {0}) → Writer B → Writer B
m >> k = m >>= λ _. k

abbrev pub pure : {A : Type 0} → A → Writer A
pure a s = done a s

abbrev pub raise : {A : Type 0} → WriterError → Writer A
raise e s = raised e s

-- `entity_id.split('.', 1)[0]`.
unfoldable pub domain : String → String
domain String.[] = ""
domain (String.◌∷◌ c s) = if code c == b'.' then "" else String.◌∷◌ c (domain s)

abbrev pub is_number_domain : String → Bool
is_number_domain d = same d "input_number" || same d "number"

abbrev pub is_switch_domain : String → Bool
is_switch_domain d = same d "input_boolean" || same d "switch"

unfoldable pub set_number : HomeAssistant → String → ℤ → Writer (Unit {0})
set_number ha entity value s =
    if is_number_domain (domain entity)
    then done tt (ha (set_value entity value) s)
    else raised (unsupported_domain entity) s

unfoldable pub set_boolean : HomeAssistant → String → Bool → Writer (Unit {0})
set_boolean ha entity is_on s =
    if is_switch_domain (domain entity)
    then done tt (ha (turn entity is_on) s)
    else raised (unsupported_domain entity) s

-- A call that is made only where a test holds; whether it was made.
unfoldable pub set_number_if : HomeAssistant → Bool → String → ℤ → Writer Bool
unfolding set_number
set_number_if ha false entity value = pure false
set_number_if ha true entity value = do set_number ha entity value; pure true

unfoldable pub set_boolean_if : HomeAssistant → Bool → String → Bool → Writer Bool
unfolding set_boolean
set_boolean_if ha false entity is_on = pure false
set_boolean_if ha true entity is_on = do set_boolean ha entity is_on; pure true

input_number_domain : domain "input_number.victron_setpoint" ≡ "input_number"
unfolding domain
input_number_domain = refl
