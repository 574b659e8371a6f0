-- ===== src/Queue/Threads.antt =====
-- libs/ukfusefs/fuse_queue.c with any number of producers and consumers, a shared access at a time.
use ukfs_fuse.Common.{ℕ, ◌+◌, ◌-◌, ◌<◌, ◌≡◌, true, false, some, List, [], ◌∷◌, ◌++◌, replicate}
use ukfs_fuse.Queue.{Queue, fuse_ukfs_queue_init}
use ukfs_fuse.Queue.Family.{get_elem?, set}

-- The queue, with what was linked into it and unlinked from it so far, oldest first.
pub record Shared {ℓ} (A : Type ℓ) : Type ℓ where
  pub queue : Queue A
  pub open queue use *
  pub inserted : List A
  pub removed : List A

-- Where a thread stands in `fuse_ukfs_queue_push` or `fuse_ukfs_queue_pop`.
pub data Pc {ℓ} (A : Type ℓ) : Type ℓ where
  idle : Pc A
  push_entry : A → Pc A  -- before `uk_mutex_lock`
  push_locked : A → Pc A  -- before `UK_TAILQ_INSERT_TAIL`
  push_linked : Pc A  -- before `uk_mutex_unlock`
  push_unlocked : Pc A  -- before `uk_semaphore_up`
  pop_entry : Pc A  -- before `uk_semaphore_down`
  pop_claimed : Pc A  -- before `uk_mutex_lock`
  pop_locked : Pc A  -- before `UK_TAILQ_FIRST` and the assertion
  pop_taken : A → Pc A  -- before `uk_mutex_unlock` and the return
  crashed : Pc A  -- the assertion has failed

pub record System {ℓ} (A : Type ℓ) : Type ℓ where
  pub shared : Shared A
  pub threads : List (Pc A)

module _ {ℓ} {A : Type ℓ} where
  -- One step of one thread. A mutex that is held and a semaphore at 0 stop it.
  pub data Move (s : Shared A) : Pc A → Shared A → Pc A → Type ℓ where
    call_push : (req : A) → Move s idle s (push_entry req)
    lock_push :
        {req : A}
        → s.locked ≡ false
        → Move s
            (push_entry req)
            (record s { queue = record s.queue { locked = true } })
            (push_locked req)
    insert_tail :
        {req : A}
        → Move s
            (push_locked req)
            (record s {
              queue = record s.queue { head = s.head ++ req ∷ [] };
              inserted = s.inserted ++ req ∷ [];
            })
            push_linked
    unlock_push :
        Move s push_linked (record s { queue = record s.queue { locked = false } }) push_unlocked
    up : Move s push_unlocked (record s { queue = record s.queue { count = s.count + 1 } }) idle
    call_pop : Move s idle s pop_entry
    down :
        0 < s.count
        → Move s pop_entry (record s { queue = record s.queue { count = s.count - 1 } }) pop_claimed
    lock_pop :
        s.locked ≡ false
        → Move s pop_claimed (record s { queue = record s.queue { locked = true } }) pop_locked
    remove_head :
        {req : A} {rest : List A}
        → s.head ≡ req ∷ rest
        → Move s pop_locked
            (record s { queue = record s.queue { head = rest }; removed = s.removed ++ req ∷ [] })
            (pop_taken req)
    assert_fails : s.head ≡ [] → Move s pop_locked s crashed
    unlock_pop :
        {req : A}
        → Move s (pop_taken req) (record s { queue = record s.queue { locked = false } }) idle

  pub data Step (s : System A) : System A → Type ℓ where
    pick :
        (i : ℕ) {p p' : Pc A} {m : Shared A}
        → get_elem? s.threads i ≡ some p
        → Move s.shared p m p'
        → Step s (record { shared = m; threads = set s.threads i p' })

  -- `n` threads at the start, after `fuse_ukfs_queue_init`.
  unfoldable pub init : ℕ → System A
  unfolding fuse_ukfs_queue_init
  init n = record {
    shared = record { queue = fuse_ukfs_queue_init; inserted = []; removed = [] };
    threads = replicate n idle;
  }

  pub data Reach (n : ℕ) : System A → Type ℓ where
    start : Reach n (init n)
    later : {s t : System A} → Reach n s → Step s t → Reach n t
