-- ===== src/Libfuse/Kinds.antt =====
-- libs/libfuse/lib/fuse_lowlevel.c: of what kind the data is that a reply hands over.
use ukfs_fuse.Common.{
  ℕ, ◌≡◌, ap, ◌∙◌, subst, Bool, true, false, Option, none, some, List, arith, if◌then◌else◌, Exec,
  ok, blocked, fault, ◌>>=◌, >>=-eq-ok, ok-injective, Mem, malloc, free,
}
use ukfs_fuse.Request.{Payload, entry, attr, open_out, bytes, EntryParam, Stat}
use ukfs_fuse.Libfuse.Reply.{
  Call, FileInfo, fuse_free_req, fuse_reply_err, answer_copy, fuse_reply_entry, fuse_reply_attr,
  answer_open, fuse_reply_open, answer_buf, fuse_reply_buf,
}

-- The data of the request is of the kind.
abbrev pub HasKind : (Payload → Type 0) → Call → Type 0
HasKind K c = (p : Payload) → c.request.reply_data ≡ some p → K p

-- If the work ends, the data of the request is of the kind.
pub record Gives (K : Payload → Type 0) (x : Exec Call) : Type 0 where
  pub gives : (d : Call) → x ≡ ok d → HasKind K d

module _ (K : Payload → Type 0) where
  pub Gives-fault : Gives K fault
  Gives-fault = record { gives = λ d e. absurd cc }

  pub Gives-blocked : Gives K blocked
  Gives-blocked = record { gives = λ d e. absurd cc }

  pub Gives-if :
      (test : Bool) {x y : Exec Call} → Gives K x → Gives K y → Gives K (if test then x else y)
  Gives-if true h k = h
  Gives-if false h k = k

  Gives-free_req : (c : Call) → HasKind K c → Gives K (fuse_free_req c)
  unfolding fuse_free_req free
  Gives-free_req c h = record { gives = λ d e p q. h p (ground (arith, e, q)) }

  pub Gives-reply_err : (c : Call) (err : ℕ) → Gives K (fuse_reply_err c err)
  unfolding fuse_reply_err
  Gives-reply_err c err = Gives-free_req _ (λ p q. absurd cc)

  kind_copied :
      (c : Call) (p : Payload) (len : ℕ) (r : Bool × Mem) → K p → HasKind K (answer_copy c p len r)
  unfolding answer_copy
  kind_copied c p len (true, m) k q e = subst K (cc) k
  kind_copied c p len (false, m) k q e = absurd cc

  pub Gives-reply_entry :
      (proto_minor : ℕ) (c : Call) (e : EntryParam)
      → K (entry e)
      → Gives K (fuse_reply_entry proto_minor c e)
  unfolding fuse_reply_entry
  Gives-reply_entry proto_minor c e k =
      Gives-if _ (Gives-reply_err c _)
        (Gives-free_req _ (kind_copied c (entry e) _ (malloc c.mem) k))

  pub Gives-reply_attr : (c : Call) (st : Stat) → K (attr st) → Gives K (fuse_reply_attr c st)
  unfolding fuse_reply_attr
  Gives-reply_attr c st k = Gives-free_req _ (kind_copied c (attr st) _ (malloc c.mem) k)

  kind_opened :
      (c : Call) (fh : ℕ) (r : Bool × Mem) → K (open_out fh) → HasKind K (answer_open c fh r)
  unfolding answer_open
  kind_opened c fh (true, m) k q e = subst K (cc) k
  kind_opened c fh (false, m) k q e = absurd cc

  pub Gives-reply_open :
      (c : Call) (fi : FileInfo) → K (open_out fi.fh) → Gives K (fuse_reply_open c fi)
  unfolding fuse_reply_open
  Gives-reply_open c fi k = Gives-free_req _ (kind_opened c fi.fh (malloc c.mem) k)

  kind_buffered :
      (c : Call) (xs : List ℕ) (size : ℕ) (r : Bool × Mem)
      → K (bytes xs)
      → HasKind K (answer_buf c xs size r)
  unfolding answer_buf
  kind_buffered c xs size (true, m) k q e = subst K (cc) k
  kind_buffered c xs size (false, m) k q e = absurd cc

  pub Gives-reply_buf :
      (c : Call) (buf : Option (List ℕ)) (size : ℕ)
      → ((xs : List ℕ) → K (bytes xs))
      → Gives K (fuse_reply_buf c buf size)
  unfolding fuse_reply_buf
  Gives-reply_buf c none size k =
      Gives-if _ Gives-fault (Gives-free_req _ (kind_buffered c _ size (malloc c.mem) (k _)))
  Gives-reply_buf c (some buf) size k =
      Gives-if _ (Gives-free_req _ (kind_buffered c _ size (malloc c.mem) (k _))) Gives-fault

  -- What a handler frees behind its reply.
  pub Gives-freed :
      (x : Exec Call) → Gives K x → Gives K (x >>= λ d. ok (record d { mem = free d.mem }))
  Gives-freed x h = record {
    gives = λ d e p q.
        let (c, k, l) = >>=-eq-ok x (λ d. ok (record d { mem = free d.mem })) e in
        h.gives c k p (ap (λ d. d.request.reply_data) (ok-injective l) ∙ q);
  }
