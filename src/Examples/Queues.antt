-- ===== src/Examples/Queues.antt =====
-- libs/ukfusefs/fuse_queue.c: one thread pushes while another pops.
use ukfs_fuse.Common.{ℕ, ◌≡◌, ◌≢◌, ◌<◌, refl, true, false, some, [], ◌∷◌, length, arith}
use ukfs_fuse.Queue.{fuse_ukfs_queue_init, fuse_ukfs_queue_push, fuse_ukfs_queue_pop, remove_first}
use ukfs_fuse.Queue.Family.{get_elem?}
use ukfs_fuse.Queue.Threads.{
  idle, pop_locked, crashed, System, pick, init, Reach, start, later, call_push, lock_push,
  insert_tail, unlock_push, up, call_pop, down, lock_pop,
}
use ukfs_fuse.Queue.Safety.{assertion_holds, mutual_exclusion, first_in_first_out, no_lost_wakeup}
use ukfs_fuse.Queue.Alone.{StepsOf, push_alone, pop_alone}

-- The queue after thread 0 has pushed 7, as thread 1 stands in front of the assertion.
abbrev at_assertion : System ℕ
at_assertion = record {
  shared = record {
    queue = record { head = 7 ∷ []; locked = true; count = 0 };
    inserted = 7 ∷ [];
    removed = [];
  };
  threads = idle ∷ pop_locked ∷ [];
}

abbrev pushed : System ℕ
pushed = record {
  shared = record {
    queue = record { head = 7 ∷ []; locked = false; count = 1 };
    inserted = 7 ∷ [];
    removed = [];
  };
  threads = idle ∷ idle ∷ [];
}

push_run : Reach 2 pushed
unfolding init fuse_ukfs_queue_init
push_run =
    later
      (later
        (later (later (later start (pick 0 refl (call_push 7))) (pick 0 refl (lock_push refl)))
          (pick 0 refl insert_tail))
        (pick 0 refl unlock_push))
      (pick 0 refl up)

pop_run : Reach 2 at_assertion
pop_run =
    later (later (later push_run (pick 1 refl call_pop)) (pick 1 refl (down (omega arith))))
      (pick 1 refl (lock_pop refl))

assertion_holds_example : get_elem? at_assertion.threads 1 ≢ some crashed
assertion_holds_example = assertion_holds pop_run 1

first_in_first_out_example : at_assertion.shared.inserted ≡ 7 ∷ []
first_in_first_out_example = first_in_first_out pop_run

mutual_exclusion_example : ◌≡◌ {A = ℕ} 1 1
mutual_exclusion_example = mutual_exclusion pop_run 1 1 pop_locked pop_locked refl refl refl refl

no_lost_wakeup_example :
    (pushed.shared.count ≡ length pushed.shared.head)
    × (pushed.shared.head ≢ [] → 0 < pushed.shared.count)
no_lost_wakeup_example = no_lost_wakeup push_run refl

push_alone_example :
    (t : System ℕ) × StepsOf 0 pushed t
    × (t.shared.queue ≡ record { head = 7 ∷ 8 ∷ []; locked = false; count = 2 })
    × (get_elem? t.threads 0 ≡ some idle)
unfolding fuse_ukfs_queue_push
push_alone_example =
    push_alone pushed 0 refl 8 (record { head = 7 ∷ 8 ∷ []; locked = false; count = 2 }) refl

pop_alone_example :
    (t : System ℕ) × StepsOf 1 pushed t
    × (t.shared.queue ≡ record { head = []; locked = false; count = 0 })
    × (t.shared.removed ≡ 7 ∷ [])
    × (get_elem? t.threads 1 ≡ some idle)
unfolding fuse_ukfs_queue_pop remove_first
pop_alone_example = pop_alone pushed 1 refl 7 (record { head = []; locked = false; count = 0 }) refl
