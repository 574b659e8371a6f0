-- ===== src/Queue/Safety.antt =====
-- libs/ukfusefs/fuse_queue.c: what holds in every state that the threads can reach.
use ukfs_fuse.Common.{ℕ, ◌<◌, ◌≡◌, ◌≢◌, some, [], ◌++◌, arith, length, ℕ_discrete}
use ukfs_fuse.Queue.Family.{get_elem?, weigh, le-weigh, add-le-weigh}
use ukfs_fuse.Queue.Threads.{Pc, crashed, System, Reach}
use ukfs_fuse.Queue.Invariant.{holds, uncounted, dead, Reach-Inv}

module _ {ℓ} {A : Type ℓ} {n : ℕ} {s : System A} (r : Reach n s) where
  open (Reach-Inv r) use {exclusive, counted, alive, order}

  -- In no interleaving of any number of threads that push and pop does the assertion of
  -- fuse_ukfs_queue_pop fail: behind uk_semaphore_down the list holds a request.
  pub assertion_holds : (i : ℕ) → get_elem? s.threads i ≢ some crashed
  assertion_holds i h = omega (arith, alive, le-weigh dead s.threads i crashed h)

  -- In every state that the threads can reach, two threads between uk_mutex_lock and
  -- uk_mutex_unlock are the same thread.
  pub mutual_exclusion :
      (i j : ℕ) (p q : Pc A)
      → get_elem? s.threads i ≡ some p
      → get_elem? s.threads j ≡ some q
      → holds p ≡ 1
      → holds q ≡ 1
      → i ≡ j
  mutual_exclusion i j p q hi hj cp cq = elim (ℕ_discrete i j) [
    | yes e ↦ e
    | no ne ↦ ground (arith, exclusive, add-le-weigh holds s.threads i j p q ne hi hj)
  ]

  -- In every state that the threads can reach, the requests unlinked so far followed by those in
  -- the list are the requests linked so far, in order: none is lost, doubled or overtaken.
  pub first_in_first_out : s.shared.inserted ≡ s.shared.removed ++ s.shared.head
  first_in_first_out = order

  -- In every state that the threads can reach with no thread between the two halves of an
  -- operation, the semaphore counts the list, so a thread waiting in fuse_ukfs_queue_pop can go on
  -- if the list is not empty.
  pub no_lost_wakeup :
      weigh uncounted s.threads ≡ 0
      → (s.shared.count ≡ length s.shared.head) × (s.shared.head ≢ [] → 0 < s.shared.count)
  no_lost_wakeup h = (omega (arith, h, counted), λ ne. ground (arith, h, counted, ne))
