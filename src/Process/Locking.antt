-- ===== src/Process/Locking.antt =====
-- The classes Mutex and Semaphore and Thread::equals of TomyGateway/src/libmq/ProcessFramework.cpp. A
-- pthread_t is a number.
use mqtt_s_gateway.Base.{
  ℕ, ◌+◌, ◌-◌, ◌≡◌, refl, sym, ap, subst, Bool, true, false, not, Option, none, some, arith, ltb,
  ◌==◌, if◌then◌else◌, eq→eqb, some-injective,
}

-- The kinds of a pthread mutex that matter here: a normal one, and one that reports errors.
pub data MutexKind : Type 0 where
  normal : MutexKind
  error_check : MutexKind

pub record Mutex : Type 0 where
  pub kind : MutexKind
  pub holder : Option ℕ

-- pthread_mutexattr_init, pthread_mutex_init with the attribute, and pthread_mutexattr_settype, in the
-- order of the source: the mutex has the kind that the attribute had before.
unfoldable pub new_mutex : Mutex
new_mutex = let attr = normal in record { kind = attr; holder = none }

-- How a call ends: the exception is a text that `catch(char*)` does not catch.
pub data Locking : Type 0 where
  done : Mutex → Locking
  blocks : Locking
  throws : Locking

-- Mutex::lock by a thread, as pthread_mutex_lock treats a mutex that is held.
unfoldable pub lock : ℕ → Mutex → Locking
lock self m = elim m.holder [
  | none ↦ done (record m { holder = some self })
  | some other ↦ elim m.kind [
    | normal ↦ blocks
    | error_check ↦ if other == self then throws else blocks
  ]
]

-- Mutex::unlock by the thread that holds the mutex, or by another one.
unfoldable pub unlock : ℕ → Mutex → Locking
unlock self m = elim m.kind [
  | normal ↦ done (record m { holder = none })
  | error_check ↦ elim m.holder [
    | none ↦ throws
    | some other ↦ if other == self then done (record m { holder = none }) else throws
  ]
]

-- Semaphore::post and wait: the count, and `none` as long as the call blocks.
unfoldable pub semaphore_post : ℕ → ℕ
semaphore_post n = n + 1

unfoldable pub semaphore_wait : ℕ → Option ℕ
semaphore_wait n = if ltb 0 n then some (n - 1) else none

-- Thread::equals
unfoldable pub equals : ℕ → ℕ → Bool
equals t1 t2 = if t1 == t2 then false else true

-- A thread that locks a new mutex twice blocks, where a mutex that reports errors would throw.
pub lock_twice :
    (self : ℕ) (m : Mutex)
    → lock self new_mutex ≡ done m
    → (lock self m ≡ blocks) × (lock self (record m { kind = error_check }) ≡ throws)
unfolding lock new_mutex
lock_twice self m e =
    let held : some m ≡ some (record { kind = normal; holder = some self }) = sym (ap mutex_of e) in
    let is = some-injective held in
    let self_is : (self == self) ≡ true = eq→eqb self self refl in
    subst (λ x. (lock self x ≡ blocks) × (lock self (record x { kind = error_check }) ≡ throws))
      (sym is) (refl, rw self_is refl)
  where
    mutex_of : Locking → Option Mutex
    mutex_of (done x) = some x
    mutex_of blocks = none
    mutex_of throws = none

-- A semaphore that was posted lets one wait through, and is then as before.
pub semaphore_wait-semaphore_post : (n : ℕ) → semaphore_wait (semaphore_post n) ≡ some n
unfolding semaphore_wait semaphore_post
semaphore_wait-semaphore_post n =
    let some_left : ltb 0 (n + 1) ≡ true = ground arith in
    let back : n + 1 - 1 ≡ n = omega arith in rw (some_left, back) refl

-- equals says whether the two threads differ.
pub equals_differs : (t1 t2 : ℕ) → equals t1 t2 ≡ not (t1 == t2)
unfolding equals
equals_differs t1 t2 = ground arith
