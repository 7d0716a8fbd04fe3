-- ===== src/ThreadPool/Store.antt =====
-- What the thread pool asks of its allocator (tcpsplit/lib/magazine.h), and what it relies on.
use ktcp_split.Common.{returned, ℕ, ◌+◌, ◌≡◌, Option, some, ◌==◌, if◌then◌else◌}

-- `Env` is the context of a call: the CPU, and what `kzalloc` would return there. `held s e` counts
-- the element `e` in the store.
pub record ElementStore : Type 1 where
  pub Store : Type 0
  pub Env : Type 0
  pub IsValid : Store → Type 0
  pub Fits : Store → Env → Type 0
  pub held : Store → ℕ → ℕ
  pub full_count : Store → ℕ
  pub alloc : Env → Store → Option (Option ℕ × Store)
  pub free : Env → Store → ℕ → Option Store
  pub alloc_law :
      (env : Env) (s : Store)
      → IsValid s
      → Fits s env
      → (elem : Option ℕ) × (s' : Store) × (alloc env s ≡ some (elem, s'))
        × IsValid s'
        × ((e : ℕ) → held s e ≡ held s' e + returned e elem)
  pub free_law :
      (env : Env) (s : Store) (elem : ℕ)
      → IsValid s
      → Fits s env
      → (s' : Store) × (free env s elem ≡ some s')
        × IsValid s'
        × ((e : ℕ) → held s' e ≡ held s e + (if e == elem then 1 else 0))
