-- ===== src/Admin/Action.antt =====
-- src/admin.rs: requests in sequence, as an action over a world that may fail: the operator `?`
-- returns an error at once, with what has been done by then.
use postgres_test_harness.Base.{Result, ok, err, Error, Bool, false, true, if◌then◌else◌, ◌≡◌, refl}

abbrev pub Action : Type 0 → Type 0 → Type 0
Action World A = World → Result A × World

module _ {World A : Type 0} where
  abbrev pub pure : A → Action World A
  pure a w = (ok a, w)

  abbrev pub raise : Error → Action World A
  raise e w = (err e, w)

  -- A result that needs no request.
  abbrev pub given : Result A → Action World A
  given r w = (r, w)

abbrev pub after : {World A B : Type 0} → Result A × World → (A → Action World B) → Result B × World
after (ok a, w) next = next a w
after (err e, w) next = (err e, w)

infixl 5 ◌>>=◌ ◌>>◌
abbrev pub ◌>>=◌ : {World A B : Type 0} → Action World A → (A → Action World B) → Action World B
◌>>=◌ m next w = after (m w) next

abbrev pub ◌>>◌ : {World A B : Type 0} → Action World A → Action World B → Action World B
m >> k = m >>= λ _. k

abbrev pub raise_if : {World : Type 0} → Bool → Error → Action World (Unit {0})
raise_if c e w = (if c then err e else ok tt, w)

-- What holds of a success; of an error nothing is said.
abbrev pub Post : {World A : Type 0} → (A → World → Type 0) → Result A × World → Type 0
Post Q (ok a, w) = Q a w
Post Q (err e, w) = Unit {0}

-- From a world with `P`, a success of the action has `Q`.
abbrev pub Runs :
    {World A : Type 0} → (World → Type 0) → Action World A → (A → World → Type 0) → Type 0
Runs P m Q = (w : _) → P w → Post Q (m w)

pub anything : {World A : Type 0} (r : Result A × World) → Post (λ _ _. Unit {0}) r
anything (ok a, w) = tt
anything (err e, w) = tt

module _ {World A B : Type 0} (Q : A → World → Type 0) (R : B → World → Type 0)
    (next : A → Action World B) where
  pub after-Post :
      (r : Result A × World) → Post Q r → ((a : A) → Runs (Q a) (next a) R) → Post R (after r next)
  after-Post (ok a, w) q k = k a w q
  after-Post (err e, w) q k = tt

-- What the rest does is enough.
pub whatever :
    {World A B : Type 0} (R : B → World → Type 0) (m : Action World A) (next : A → Action World B)
    (w : World)
    → ((a : A) (v : World) → Post R (next a v))
    → Post R (after (m w) next)
whatever R m next w k = after-Post (λ _ _. Unit {0}) R next (m w) (anything (m w)) (λ a v _. k a v)

pub raise_if-Post :
    {World : Type 0} (P : World → Type 0) (c : Bool) (e : Error) (w : World)
    → (c ≡ false → P w)
    → Post (λ _. P) (raise_if c e w)
raise_if-Post P true e w h = tt
raise_if-Post P false e w h = h refl
