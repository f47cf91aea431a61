-- ===== src/Writers/Services/Effects.antt =====
-- What the calls of Writers/Services do to the entities, where Home Assistant carries them out.
use ha_ems.Prelude.{
  Bool, true, false, ◌≡◌, refl, sym, subst, ◌∙◌, String, same, ℤ, if◌then◌else◌, Bool-cases, inl,
  inr, Option, none, some, ◌⊎◌,
}
use ha_ems.Writers.Services.{
  WriterError, Store, HomeAssistant, CarriesOut, Outcome, done, raised, Writer, ◌>>=◌, set_number,
  set_boolean, domain, is_number_domain, is_switch_domain, set_number_if, set_boolean_if, pure,
  ◌>>◌,
}

-- The store that a writer leaves, also when it raises.
unfoldable pub store_of : {A : Type 0} → Outcome A → Store
store_of (done a s) = s
store_of (raised e s) = s

-- A run that ends without an error, with a result and a store of which `P` holds.
unfoldable pub Returns : {A : Type 0} → Outcome A → (A → Store → Type 0) → Type 0
Returns (done a s) P = P a s
Returns (raised e s) P = ⊥

pub returns_more :
    {A : Type 0} {P Q : A → Store → Type 0} (r : Outcome A)
    → Returns r P
    → ((a : A) (s : Store) → P a s → Q a s)
    → Returns r Q
unfolding Returns
returns_more (done a s) h f = f a s h
returns_more (raised e s) h f = elim h [ ]

-- By an equation with a run of which it holds.
pub returns_eq :
    {A : Type 0} {r r' : Outcome A} (P : A → Store → Type 0) → r ≡ r' → Returns r' P → Returns r P
returns_eq P e h = subst (λ x. Returns x P) (sym e) h

-- An entity has the same state in two stores.
pub record IsSame (x : String) (s s' : Store) : Type 0 where
  pub number : s'.number x ≡ s.number x
  pub switch : s'.switch x ≡ s.switch x

pub IsSame-refl : (x : String) (s : Store) → IsSame x s s
IsSame-refl x s = record { number = refl; switch = refl }

pub IsSame-trans :
    (x : String) (s s' s'' : Store) → IsSame x s s' → IsSame x s' s'' → IsSame x s s''
IsSame-trans x s s' s'' h h' = record {
  number = h'.number ∙ h.number;
  switch = h'.switch ∙ h.switch;
}

-- A writer that leaves an entity alone, whatever it returns.
unfoldable pub KeepsEntity : {A : Type 0} → String → Writer A → Type 0
KeepsEntity x m = (s : Store) → IsSame x s (store_of (m s))

pub pure-KeepsEntity : {A : Type 0} (x : String) (a : A) → KeepsEntity x (pure a)
unfolding KeepsEntity store_of
pure-KeepsEntity x a s = IsSame-refl x s

pub bind-KeepsEntity :
    {A B : Type 0} (x : String) (m : Writer A) (f : A → Writer B)
    → KeepsEntity x m
    → ((a : A) → KeepsEntity x (f a))
    → KeepsEntity x (m >>= f)
unfolding KeepsEntity store_of
bind-KeepsEntity {A = A} {B = B} x m f hm hf s = bound (m s) (hm s)
  where
    bound :
        (r : Outcome A)
        → IsSame x s (store_of r)
        → IsSame x s (store_of (elim r [ done a s' ↦ f a s' | raised e s' ↦ raised e s' ]))
    bound (done a s') h = IsSame-trans x s s' (store_of (f a s')) h (hf a s')
    bound (raised e s') h = h

pub if-IsSame :
    {A : Type 0} {x : String} {s : Store} (b : Bool) (r r' : Outcome A)
    → IsSame x s (store_of r)
    → IsSame x s (store_of r')
    → IsSame x s (store_of (if b then r else r'))
if-IsSame true r r' h h' = h
if-IsSame false r r' h h' = h'

-- How a `do` block goes on.
pub bind_done :
    {A B : Type 0} (m : Writer A) (f : A → Writer B) (s : Store) {a : A} {s' : Store}
    → m s ≡ done a s'
    → (m >>= f) s ≡ f a s'
bind_done m f s e = rw (e, ◌>>=◌)

pub bind_raised :
    {A B : Type 0} (m : Writer A) (f : A → Writer B) (s : Store) {e : WriterError} {s' : Store}
    → m s ≡ raised e s'
    → (m >>= f) s ≡ raised e s'
bind_raised m f s h = rw (h, ◌>>=◌)

pub Outcome-cases :
    {A : Type 0} (r : Outcome A)
    → ((a : A) × (s : Store) × (r ≡ done a s))
      ⊎ ((e : WriterError) × (s : Store) × (r ≡ raised e s))
Outcome-cases (done a s) = inl (a, s, refl)
Outcome-cases (raised e s) = inr (e, s, refl)

pub returns_bind :
    {A B : Type 0} (P : A → Store → Type 0) (Q : B → Store → Type 0) (m : Writer A)
    (f : A → Writer B) (s : Store)
    → Returns (m s) P
    → ((a : A) (s' : Store) → P a s' → Returns (f a s') Q)
    → Returns ((m >>= f) s) Q
unfolding Returns
returns_bind {A = A} {B = B} P Q m f s h hf = bound (m s) h
  where
    bound :
        (r : Outcome A)
        → Returns r P
        → Returns (elim r [ done a s' ↦ f a s' | raised e s' ↦ raised e s' ]) Q
    bound (done a s') h = hf a s' h
    bound (raised e s') h = elim h [ ]

-- A case that the code treats by an early return.
pub option-IsSame :
    {A B : Type 0} {x : String} {s : Store} (o : Option B) (r : Outcome A) (f : B → Outcome A)
    → IsSame x s (store_of r)
    → ((b : B) → o ≡ some b → IsSame x s (store_of (f b)))
    → IsSame x s (store_of (elim o [ none ↦ r | some b ↦ f b ]))
option-IsSame none r f h hf = h
option-IsSame (some b) r f h hf = hf b refl

pub result-IsSame :
    {A B C : Type 0} {x : String} {s : Store} (o : C ⊎ B) (r : C → Outcome A) (f : B → Outcome A)
    → ((c : C) → IsSame x s (store_of (r c)))
    → ((b : B) → IsSame x s (store_of (f b)))
    → IsSame x s (store_of (elim o [ inl c ↦ r c | inr b ↦ f b ]))
result-IsSame (inl c) r f h hf = h c
result-IsSame (inr b) r f h hf = hf b

-- A call followed by a return.
pub then-IsSame :
    {A : Type 0} {x : String} (m : Writer (Unit {0})) (a : A) (s : Store)
    → KeepsEntity x m
    → IsSame x s (store_of ((m >> pure a) s))
unfolding KeepsEntity
then-IsSame {x = x} m a s h = bind-KeepsEntity x m (λ _. pure a) h (λ _. pure-KeepsEntity x a) s

module _ (ha : HomeAssistant) (carries : CarriesOut ha) where
  pub set_number-KeepsEntity :
      (x entity : String) (v : ℤ) → same x entity ≡ false → KeepsEntity x (set_number ha entity v)
  unfolding KeepsEntity store_of set_number
  set_number-KeepsEntity x entity v apart s = elim (Bool-cases (is_number_domain (domain entity))) [
    | inl e ↦ rw e (record {
      number = carries.set_value-number entity v s x ∙ rw apart;
      switch = carries.set_value-switch entity v s x;
    })
    | inr e ↦ rw e (IsSame-refl x s)
  ]

  pub set_boolean-KeepsEntity :
      (x entity : String) (v : Bool)
      → same x entity ≡ false
      → KeepsEntity x (set_boolean ha entity v)
  unfolding KeepsEntity store_of set_boolean
  set_boolean-KeepsEntity x entity v apart s =
      elim (Bool-cases (is_switch_domain (domain entity))) [
        | inl e ↦ rw e (record {
          number = carries.turn-number entity v s x;
          switch = carries.turn-switch entity v s x ∙ rw apart;
        })
        | inr e ↦ rw e (IsSame-refl x s)
      ]

  pub set_number_if-KeepsEntity :
      (b : Bool) (x entity : String) (v : ℤ)
      → same x entity ≡ false
      → KeepsEntity x (set_number_if ha b entity v)
  unfolding set_number_if
  set_number_if-KeepsEntity true x entity v apart =
      bind-KeepsEntity x (set_number ha entity v) (λ _. pure true)
        (set_number-KeepsEntity x entity v apart) (λ _. pure-KeepsEntity x true)
  set_number_if-KeepsEntity false x entity v apart = pure-KeepsEntity x false

  pub set_boolean_if-KeepsEntity :
      (b : Bool) (x entity : String) (v : Bool)
      → same x entity ≡ false
      → KeepsEntity x (set_boolean_if ha b entity v)
  unfolding set_boolean_if
  set_boolean_if-KeepsEntity true x entity v apart =
      bind-KeepsEntity x (set_boolean ha entity v) (λ _. pure true)
        (set_boolean-KeepsEntity x entity v apart) (λ _. pure-KeepsEntity x true)
  set_boolean_if-KeepsEntity false x entity v apart = pure-KeepsEntity x false
