-- ===== src/Hello/Xattr.antt =====
-- apps/fuse-correctness-test/hello_ll.c: the handlers of extended attributes, which the daemon never
-- calls.
use ukfs_fuse.Common.{
  ℕ, ◌<◌, ◌≡◌, arith, true, some, List, [], ◌∷◌, ◌++◌, length, take, ◌==◌, ◌&&◌, ◌||◌, same_bytes,
  if◌then◌else◌, Exec, fault, Mem,
}
use ukfs_fuse.Errno.{enotsup}
use ukfs_fuse.Request.{Request}
use ukfs_fuse.Libfuse.{Call, fuse_reply_err, fuse_reply_buf}
use ukfs_fuse.Libfuse.Answered.{Answers, started, if-Answers, reply_err-Answers, reply_buf-Answers}

-- "hello_ll_getxattr_name" and so on
abbrev xattr_prefix : List ℕ → List ℕ → List ℕ
xattr_prefix verb suffix =
    (b'h' ∷ b'e' ∷ b'l' ∷ b'l' ∷ b'o' ∷ b'_' ∷ b'l' ∷ b'l' ∷ b'_' ∷ []) ++ (verb ++ suffix)

abbrev xattr_name : List ℕ
xattr_name = b'x' ∷ b'a' ∷ b't' ∷ b't' ∷ b'r' ∷ b'_' ∷ b'n' ∷ b'a' ∷ b'm' ∷ b'e' ∷ []

abbrev xattr_value : List ℕ
xattr_value = b'x' ∷ b'a' ∷ b't' ∷ b't' ∷ b'r' ∷ b'_' ∷ b'v' ∷ b'a' ∷ b'l' ∷ b'u' ∷ b'e' ∷ []

abbrev get_verb : List ℕ
get_verb = b'g' ∷ b'e' ∷ b't' ∷ []

abbrev set_verb : List ℕ
set_verb = b's' ∷ b'e' ∷ b't' ∷ []

abbrev remove_verb : List ℕ
remove_verb = b'r' ∷ b'e' ∷ b'm' ∷ b'o' ∷ b'v' ∷ b'e' ∷ []

-- The value's whole length, whatever the size that is asked for.
unfoldable pub hello_ll_getxattr : Call → ℕ → List ℕ → ℕ → Exec Call
hello_ll_getxattr c ino name size =
    if ino == 1 || ino == 2
    then (if same_bytes name (xattr_prefix get_verb xattr_name)
        then fuse_reply_buf c (some (xattr_prefix get_verb xattr_value))
            (length (xattr_prefix get_verb xattr_value))
        else fuse_reply_err c enotsup)
    else fault

-- `value` holds at least `size` bytes.
unfoldable pub hello_ll_setxattr : Call → ℕ → List ℕ → List ℕ → ℕ → Exec Call
hello_ll_setxattr c ino name value size =
    if ino == 1 || ino == 2
    then (if same_bytes name (xattr_prefix set_verb xattr_name)
          && length (xattr_prefix set_verb xattr_value) == size
          && same_bytes (take size value) (xattr_prefix set_verb xattr_value)
        then fuse_reply_err c 0
        else fuse_reply_err c enotsup)
    else fault

unfoldable pub hello_ll_removexattr : Call → ℕ → List ℕ → Exec Call
hello_ll_removexattr c ino name =
    if ino == 1 || ino == 2
    then (if same_bytes name (xattr_prefix remove_verb xattr_name)
        then fuse_reply_err c 0
        else fuse_reply_err c enotsup)
    else fault

-- The inodes of the two entries.
abbrev IsKnown : ℕ → Type 0
IsKnown ino = (ino == 1 || ino == 2) ≡ true

module _ (req : Request) (m : Mem) (held : 0 < m.live) (ino : ℕ) (known : IsKnown ino) where
  -- On an inode that exists and with the fuse_req allocated, each handler of extended attributes
  -- answers its request exactly once, frees the fuse_req and loses no block.
  pub xattr-Answers :
      (name value : List ℕ) (size : ℕ)
      → Answers req m (hello_ll_getxattr (started req m) ino name size)
        × Answers req m (hello_ll_setxattr (started req m) ino name value size)
        × Answers req m (hello_ll_removexattr (started req m) ino name)
  unfolding hello_ll_getxattr hello_ll_setxattr hello_ll_removexattr
  xattr-Answers name value size = (
    rw known (
        if-Answers _ (reply_buf-Answers req m held _ _ (omega arith))
          (reply_err-Answers req m held _)),
    rw known (if-Answers _ (reply_err-Answers req m held _) (reply_err-Answers req m held _)),
    rw known (if-Answers _ (reply_err-Answers req m held _) (reply_err-Answers req m held _)),
  )
