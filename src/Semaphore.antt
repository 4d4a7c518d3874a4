-- ===== src/Semaphore.antt =====
-- What the crate relies on of tokio's Semaphore, a counter of permits that can be closed.
-- An acquisition is one poll: it may be granted, refused because the semaphore is closed, or wait.
use postgres_test_harness.Base.{
  ℕ, ◌+◌, ◌-◌, ◌≡◌, refl, ◌≢◌, Bool, true, false, arith, leb, if◌then◌else◌,
}

pub data Poll {ℓ} (A : Type ℓ) : Type ℓ where
  granted : A → Poll A
  closed : Poll A
  pending : Poll A

pub record Semaphore : Type 1 where
  pub State : Type 0
  pub new : ℕ → State
  pub available_permits : State → ℕ
  pub is_closed : State → Bool
  pub close : State → State
  pub add_permits : ℕ → State → State
  pub acquire_many : ℕ → State → Poll State
  pub available-new : (n : ℕ) → available_permits (new n) ≡ n
  pub is_closed-new : (n : ℕ) → is_closed (new n) ≡ false
  pub available-close : (s : State) → available_permits (close s) ≡ available_permits s
  pub is_closed-close : (s : State) → is_closed (close s) ≡ true
  pub available-add :
      (n : ℕ) (s : State) → available_permits (add_permits n s) ≡ available_permits s + n
  pub is_closed-add : (n : ℕ) (s : State) → is_closed (add_permits n s) ≡ is_closed s
  pub acquire-closed : (n : ℕ) (s : State) → is_closed s ≡ true → acquire_many n s ≡ closed
  pub acquire-open : (n : ℕ) (s : State) → is_closed s ≡ false → acquire_many n s ≢ closed
  pub available-acquire :
      (n : ℕ) (s t : State)
      → acquire_many n s ≡ granted t
      → available_permits t + n ≡ available_permits s
  pub is_closed-acquire : (n : ℕ) (s t : State) → acquire_many n s ≡ granted t → is_closed t ≡ false

-- A semaphore that meets the laws.
pub record Counter : Type 0 where
  pub permits : ℕ
  pub shut : Bool

abbrev pub counter_acquire : ℕ → Counter → Poll Counter
counter_acquire n c =
    if c.shut
    then closed
    else if leb n c.permits
    then granted (record c { permits = c.permits - n })
    else pending

pub counter_acquire-closed : (n : ℕ) (c : Counter) → c.shut ≡ true → counter_acquire n c ≡ closed
counter_acquire-closed n c h = ground arith

pub counter_acquire-open : (n : ℕ) (c : Counter) → c.shut ≡ false → counter_acquire n c ≢ closed
counter_acquire-open n c h = ground arith

pub counter_acquire-permits :
    (n : ℕ) (c d : Counter) → counter_acquire n c ≡ granted d → d.permits + n ≡ c.permits
counter_acquire-permits n c d h = ground arith

pub counter_acquire-shut :
    (n : ℕ) (c d : Counter) → counter_acquire n c ≡ granted d → d.shut ≡ false
counter_acquire-shut n c d h = ground arith

abbrev pub counting : Semaphore
counting = record {
  State = Counter;
  new = λ n. record { permits = n; shut = false };
  available_permits = λ c. c.permits;
  is_closed = λ c. c.shut;
  close = λ c. record c { shut = true };
  add_permits = λ n c. record c { permits = c.permits + n };
  acquire_many = counter_acquire;
  available-new = λ n. refl;
  is_closed-new = λ n. refl;
  available-close = λ c. refl;
  is_closed-close = λ c. refl;
  available-add = λ n c. refl;
  is_closed-add = λ n c. refl;
  acquire-closed = counter_acquire-closed;
  acquire-open = counter_acquire-open;
  available-acquire = counter_acquire-permits;
  is_closed-acquire = counter_acquire-shut;
}
