-- ===== src/Prelude/Effects.antt =====
-- Exceptions, and actions on a state. The state comes back after a raise too, since what was
-- written stays written.
use mathlib.Core.Path.{◌≡◌, refl}
use mathlib.Core.Bool.{Bool, true, false}
use mathlib.Core.Logic.{◌⊎◌, inl, inr}
use rebecca_reseller_bot.Prelude.Tests.{if◌then◌else◌}
use rebecca_reseller_bot.Prelude.Text.{Text}

-- The classes of app/rebecca/exceptions.py, `AmbiguousEntitlementState` of app/payments/service.py,
-- and the built-in ones that the code raises or that a library raises into it.
pub data ErrorKind : Type 0 where
  rebecca_error rebecca_unavailable capability_missing verification_error : ErrorKind
  not_found ambiguous_entitlement_state : ErrorKind
  value_error runtime_error type_error key_error attribute_error : ErrorKind
  http_error http_exception other_error : ErrorKind

pub record Exception : Type 0 where
  pub kind : ErrorKind
  pub message : Text

-- `isinstance(error, VerificationError)`; `AmbiguousEntitlementState` is a subclass.
abbrev pub is_verification : ErrorKind → Bool
is_verification ErrorKind.verification_error = true
is_verification ErrorKind.ambiguous_entitlement_state = true
is_verification _ = false

-- `isinstance(error, RebeccaError)`
abbrev pub is_rebecca : ErrorKind → Bool
is_rebecca ErrorKind.rebecca_error = true
is_rebecca ErrorKind.rebecca_unavailable = true
is_rebecca ErrorKind.capability_missing = true
is_rebecca ErrorKind.verification_error = true
is_rebecca ErrorKind.ambiguous_entitlement_state = true
is_rebecca ErrorKind.not_found = true
is_rebecca _ = false

pub data Result {ℓ} (A : Type ℓ) : Type ℓ where
  ok : A → Result A
  raised : Exception → Result A

pub Result-cases {ℓ} :
    {A : Type ℓ} (r : Result A) → ((a : A) × (r ≡ ok a)) ⊎ ((e : Exception) × (r ≡ raised e))
Result-cases (ok a) = inl (a, refl)
Result-cases (raised e) = inr (e, refl)

abbrev pub is_ok {ℓ} : {A : Type ℓ} → Result A → Bool
is_ok (ok _) = true
is_ok (raised _) = false

abbrev pub Action {ℓ κ} : Type ℓ → Type κ → Type (ℓ ⊔ κ)
Action S A = S → Result A × S

module _ {ℓ κ} {S : Type ℓ} {A : Type κ} where
  abbrev pub pure : A → Action S A
  pure a s = (ok a, s)

  abbrev pub raise : ErrorKind → Text → Action S A
  raise k m s = (raised (record { kind = k; message = m }), s)

  abbrev pub reraise : Exception → Action S A
  reraise e s = (raised e, s)

  abbrev pub gets : (S → A) → Action S A
  gets f s = (ok (f s), s)

  -- `try: m except Exception as e: h(e)`
  abbrev pub catch : Action S A → (Exception → Action S A) → Action S A
  catch m h s = let (r, t) = m s in elim r [ ok a ↦ (ok a, t) | raised e ↦ h e t ]

  -- A callable that works on one part of the state.
  abbrev pub zoom {ι} : {T : Type ι} → (S → T) → (S → T → S) → Action T A → Action S A
  zoom get put m s = let (r, t) = m (get s) in (r, put s t)

module _ {ℓ} {S : Type ℓ} where
  abbrev pub modify : (S → S) → Action S (Unit {0})
  modify f s = (ok tt, f s)

  abbrev pub raise_if : Bool → ErrorKind → Text → Action S (Unit {0})
  raise_if c k m s = (if c then raised (record { kind = k; message = m }) else ok tt, s)

infixl 5 ◌>>=◌ ◌>>◌
abbrev pub ◌>>=◌ {ℓ κ ι} :
    {S : Type ℓ} {A : Type κ} {B : Type ι} → Action S A → (A → Action S B) → Action S B
◌>>=◌ m f s = let (r, t) = m s in elim r [ ok a ↦ f a t | raised e ↦ (raised e, t) ]

abbrev pub ◌>>◌ {ℓ κ ι} :
    {S : Type ℓ} {A : Type κ} {B : Type ι} → Action S A → Action S B → Action S B
m >> k = m >>= λ _. k

-- Inversion of a successful bind: what the first part returned, and that the rest succeeded.
pub >>=-eq-ok {ℓ κ ι} :
    {S : Type ℓ} {A : Type κ} {B : Type ι} (m : Action S A) (f : A → Action S B) (s : S) {b : B}
    → ((m >>= f) s).0 ≡ ok b
    → (a : A) × ((m s).0 ≡ ok a) × ((f a (m s).1).0 ≡ ok b)
>>=-eq-ok m f s h = elim (Result-cases (m s).0) [
  | inl (a, e) ↦ (a, e, rw (e, ◌>>=◌) at h)
  | inr (x, e) ↦ absurd (cc (h, e))
]

-- The state after a bind whose first part succeeded.
pub >>=-state {ℓ κ ι} :
    {S : Type ℓ} {A : Type κ} {B : Type ι} (m : Action S A) (f : A → Action S B) (s : S) {a : A}
    → (m s).0 ≡ ok a
    → (m >>= f) s ≡ f a (m s).1
>>=-state m f s h = rw (h, ◌>>=◌)

-- A bind whose first part raised.
pub >>=-raised {ℓ κ ι} :
    {S : Type ℓ} {A : Type κ} {B : Type ι} (m : Action S A) (f : A → Action S B) (s : S)
    {e : Exception}
    → (m s).0 ≡ raised e
    → (m >>= f) s ≡ (raised e, (m s).1)
>>=-raised m f s h = rw (h, ◌>>=◌) refl
