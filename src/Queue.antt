-- ===== src/Queue.antt =====
-- libs/ukfusefs/fuse_queue.c: the queue between the file system driver and the daemon thread, each
-- operation run to its end by one thread. `Queue.Threads` has many threads at once.
pub mod Family
pub mod Threads
pub mod Invariant
pub mod Safety
pub mod Alone
use ukfs_fuse.Common.{
  ℕ, zero, suc, ◌+◌, Bool, true, false, List, [], ◌∷◌, ◌++◌, Exec, ok, blocked, fault,
}

-- `struct fuse_ukfs_queue`: the TAILQ, whether the mutex is held, the value of the semaphore.
pub record Queue {ℓ} (A : Type ℓ) : Type ℓ where
  pub head : List A
  pub locked : Bool
  pub count : ℕ

module _ {ℓ} {A : Type ℓ} where
  unfoldable pub fuse_ukfs_queue_init : Queue A
  fuse_ukfs_queue_init = record { head = []; locked = false; count = 0 }

  -- A held mutex blocks the thread.
  unfoldable pub fuse_ukfs_queue_push : A → Queue A → Exec (Queue A)
  fuse_ukfs_queue_push req q = elim q.locked [
    | true ↦ blocked
    | false ↦ ok (record q { head = q.head ++ req ∷ []; count = q.count + 1 })
  ]

  -- `UK_TAILQ_FIRST`, the assertion on it, and `UK_TAILQ_REMOVE`.
  unfoldable pub remove_first : Queue A → List A → Exec (A × Queue A)
  remove_first q [] = fault
  remove_first q (req ∷ rest) = ok (req, record q { head = rest })

  -- An empty semaphore or a held mutex blocks the thread.
  unfoldable pub fuse_ukfs_queue_pop : Queue A → Exec (A × Queue A)
  unfolding remove_first
  fuse_ukfs_queue_pop q = elim q.count [
    | zero ↦ blocked
    | suc n ↦ elim q.locked [
      | true ↦ blocked
      | false ↦ remove_first (record q { count = n }) q.head
    ]
  ]
