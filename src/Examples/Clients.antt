-- ===== src/Examples/Clients.antt =====
-- apps/fuse-correctness-test/main.c on the reference system for its tree.
use ukfs_fuse.Common.{◌≡◌, refl, Returns}
use ukfs_fuse.Clients.Main.{suite_main}
use ukfs_fuse.Clients.Tree.{tree_posix, boot}
use ukfs_fuse.Clients.Counted.Verdict.{IsVerdict, now, later, suite_main-IsVerdict}
use ukfs_fuse.Clients.Tree.Ends.{tree_posix-HasEnds}
use ukfs_fuse.Clients.Balance.{track}
use ukfs_fuse.Clients.Balance.Whole.{from, suite_main-balanced}

suite_main-IsVerdict_example :
    Returns
      (suite_main tree_posix 5 4 (record { os = boot 3; test_passed = 0; test_failed = 0 }))
      (λ (r, t). IsVerdict r t)
suite_main-IsVerdict_example =
    suite_main-IsVerdict tree_posix 5 4 tree_posix-HasEnds (boot 3) refl
      (later refl (later refl (later refl (now refl))))

suite_main-balanced_example :
    Returns
      (suite_main (track tree_posix) 5 4 (from tree_posix (boot 3)))
      (λ (r, t). t.os.closed ≡ t.os.opened)
suite_main-balanced_example =
    suite_main-balanced tree_posix 5 4 tree_posix-HasEnds (boot 3) refl
      (later refl (later refl (later refl (now refl))))
