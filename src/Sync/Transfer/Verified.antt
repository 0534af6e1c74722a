-- ===== src/Sync/Transfer/Verified.antt =====
-- sync/mod.rs, the client: a download that counts was checked against what the server announced.
use krymux.Base.{
  ℕ, zero, suc, ◌+◌, ◌≤◌, ◌≡◌, refl, sym, ap, ◌∙◌, ◌⊎◌, inl, inr, Option, none, some, List, [],
  true, false, not, ◌&&◌, ◌||◌, ◌==◌, length, is_empty, In, if_both, ||-false, ||-false_right,
  Bool-cases, arith,
}
use mathlib.Core.Option.{some-injective}
use krymux.Base.Bytes.{Bytes, bytes_eq, bytes_eq→eq}
use krymux.Sync.Disk.{IsLawful, Outcome}
use krymux.Sync.Protocol.{SyncMessage}
use krymux.Sync.Scanner.{FileEntry}
use krymux.Sync.Server.Paths.{join_path, unique_tmp}
use krymux.Sync.Server.State.{Env, max_file_bytes}
use krymux.Sync.Server.Verified.{empty}
use krymux.Sync.Transfer.Download.{
  Receiving, Attempt, given_up, tried, attempts, hash_of_file, placed_file, check_file,
  received_file, opened_tmp, made_dir, try_download, download_loop, download_file,
}
use krymux.Sync.Transfer.State.{Pass, Passing, onward, stopped}
use krymux.Sync.Transfer.Received.{
  AllHeard, Announced, Delivered, Kept, IsSound, Got, receive_file-Got,
}

module _ {D W : Type 0} (env : Env D W) (heard : SyncMessage → Type 0) where
  -- What a try leaves, of a pass that had downloaded `n` files.
  abbrev Tried : Bytes → ℕ → Attempt D → Type 0
  Tried full n (given_up e) = Unit
  Tried full n (tried true s) = (s.downloaded ≡ n) × Delivered env heard full s.disk
  Tried full n (tried false s) = (s.downloaded ≡ n) × AllHeard heard s.inbox

  placed_file-Tried :
      IsLawful env.disk
      → (tmp full : Bytes) (time : W) (n : ℕ) (r : Receiving D W) (s : Pass D) (o : Outcome D)
      → env.disk.rename tmp full s.disk ≡ o
      → s.downloaded ≡ n
      → AllHeard heard s.inbox
      → (content : Bytes) × (env.disk.read s.disk tmp ≡ some content)
        × (length content ≡ r.meta_size)
        × (r.meta_size ≤ max_file_bytes)
        × ((r.meta_hash ≡ []) ⊎ (env.sha1_hex content ≡ r.meta_hash))
      → Announced heard r.meta_size r.meta_hash
      → Tried full n (placed_file env tmp full time o s)
  unfolding placed_file
  placed_file-Tried L tmp full time n r s (d, none) run e h (content, has, size, cap, hash) a = (
    e,
    record {
      content = content;
      size = r.meta_size;
      hash = r.meta_hash;
      contents = L.read-set_file_times d full full time ∙ L.read-rename s.disk d tmp full run ∙ has;
      measured = size;
      capped = cap;
      matched = hash;
      announced = a;
    },
  )
  placed_file-Tried L tmp full time n r s (d, some x) run e h c a = (e, h)

  -- The test of the hash lets through a file with no announced hash, or with that hash.
  hash_passed :
      (hash content : Bytes) (o : Option Bytes)
      → o ≡ some content
      → (not (is_empty hash) && not (bytes_eq (hash_of_file env o) hash)) ≡ false
      → (hash ≡ []) ⊎ (env.sha1_hex content ≡ hash)
  hash_passed hash content none has e = cc has
  hash_passed hash content (some c) has e = elim (Bool-cases (is_empty hash)) [
    | inl y ↦ inl (empty hash y)
    | inr y ↦ elim (Bool-cases (bytes_eq (env.sha1_hex c) hash)) [
      | inl q ↦ inr (ap env.sha1_hex (sym (some-injective _ _ has)) ∙ bytes_eq→eq _ _ q)
      | inr q ↦ ground (arith, y, q, e)
    ]
  ]

  unless_failed :
      (tmp : Bytes) (r : Receiving D W)
      → r.failed ≡ false
      → (r.failed ≡ true) ⊎ Kept env heard tmp r
      → Kept env heard tmp r
  unless_failed tmp r f (inl e) = cc (sym f ∙ e)
  unless_failed tmp r f (inr k) = k

  check_file-Tried :
      IsLawful env.disk
      → (tmp full : Bytes) (n : ℕ) (r : Receiving D W) (s : Pass D) → s.disk ≡ r.disk
      → s.downloaded ≡ n
      → AllHeard heard s.inbox
      → IsSound env heard tmp r
      → Tried full n (check_file env tmp full r s)
  unfolding check_file
  check_file-Tried L tmp full n r s same e h i =
      if_both (Tried full n) (r.failed || not (r.received == r.meta_size)) _ _ (λ bad. (e, h))
        (λ good.
          if_both (Tried full n)
            (not (is_empty r.meta_hash)
              && not (bytes_eq (hash_of_file env (env.disk.read s.disk tmp)) r.meta_hash))
            _ _ (λ bad. (e, h))
            (λ passed.
              let (content, has, size, cap) = unless_failed tmp r (||-false _ _ good) i.kept in
              let here = ap (λ d. env.disk.read d tmp) same ∙ has in
              let counted : not (r.received == r.meta_size) ≡ false =
                ||-false_right r.failed (not (r.received == r.meta_size)) good in
              let whole : r.received ≡ r.meta_size = ground (arith, counted) in
              placed_file-Tried L tmp full r.meta_mtime n r s (env.disk.rename tmp full s.disk) refl
                e h
                (
                  content,
                  here,
                  size ∙ whole,
                  omega (arith, whole, cap),
                  hash_passed r.meta_hash content _ here passed,
                )
                i.said))

  received_file-Tried :
      IsLawful env.disk
      → (tmp full : Bytes) (n : ℕ) (o : Option (Receiving D W × List SyncMessage)) (s : Pass D)
      → s.downloaded ≡ n
      → Got env heard tmp o
      → Tried full n (received_file env tmp full o s)
  unfolding received_file
  received_file-Tried L tmp full n none s e g = tt
  received_file-Tried L tmp full n (some (r, ms)) s e g =
      check_file-Tried L tmp full n r _ refl e g.1 g.0

  opened_tmp-Tried :
      IsLawful env.disk
      → (tmp full : Bytes) (n : ℕ) (before : D) (o : Outcome D) (s : Pass D)
      → env.disk.create tmp before ≡ o
      → s.downloaded ≡ n
      → AllHeard heard s.inbox
      → Tried full n (opened_tmp env tmp full o s)
  unfolding opened_tmp
  opened_tmp-Tried L tmp full n before (d, some x) s run e h = (e, h)
  opened_tmp-Tried L tmp full n before (d, none) s run e h =
      received_file-Tried L tmp full n _ _ e (
        receive_file-Got env heard L tmp s.inbox _ h record {
          kept = inr ([], L.read-create before d tmp run, refl, omega arith);
          said = inl (refl, refl);
        })

  made_dir-Tried :
      IsLawful env.disk
      → (tmp full : Bytes) (n : ℕ) (o : Outcome D) (s : Pass D) → s.downloaded ≡ n
      → AllHeard heard s.inbox
      → Tried full n (made_dir env tmp full o s)
  unfolding made_dir
  made_dir-Tried L tmp full n (d, some x) s e h = (e, h)
  made_dir-Tried L tmp full n (d, none) s e h =
      opened_tmp-Tried L tmp full n d (env.disk.create tmp d) _ refl e h

  -- What a download leaves of a pass that had downloaded `n` files.
  abbrev pub Fetched : Bytes → ℕ → Passing D → Type 0
  Fetched full n (stopped e) = Unit
  Fetched full n (onward s) =
      (s.downloaded ≡ n) ⊎ ((s.downloaded ≡ n + 1) × Delivered env heard full s.disk)

  next-Fetched :
      (full : Bytes) (n : ℕ) (a : Attempt D) (k : Pass D → Passing D)
      → Tried full n a
      → ((s : Pass D) → s.downloaded ≡ n → AllHeard heard s.inbox → Fetched full n (k s))
      → Fetched full n (elim a [
        | given_up e ↦ stopped e
        | tried true s ↦ onward (record s { downloaded = s.downloaded + 1 })
        | tried false s ↦ k s
      ])
  next-Fetched full n (given_up e) k t h = tt
  next-Fetched full n (tried true s) k t h = inr (ap (λ m. m + 1) t.0, t.1)
  next-Fetched full n (tried false s) k t h = h s t.0 t.1

  download_loop-Fetched :
      IsLawful env.disk
      → (tries : ℕ) (dl : FileEntry W) (full : Bytes) (n : ℕ) (s : Pass D) → s.downloaded ≡ n
      → AllHeard heard s.inbox
      → Fetched full n (download_loop env tries dl full s)
  unfolding download_loop try_download
  download_loop-Fetched L zero dl full n s e h = inl e
  download_loop-Fetched L (suc tries) dl full n s e h =
      next-Fetched full n (try_download env dl full s) _
        (made_dir-Tried L (unique_tmp full s.seq) full n _ _ e h)
        (λ s' e' h'. download_loop-Fetched L tries dl full n s' e' h')

-- A download that a pass counts has left a file whose size and hash, where one was announced, are
-- those of a `file_meta` among the messages that the pass had yet to read, and at most 8 GiB, whatever
-- these messages are and whichever calls of the file system fail. One that is not counted leaves the
-- count as it was.
pub download_file-Fetched :
    {D W : Type 0} (env : Env D W)
    → IsLawful env.disk
    → (dl : FileEntry W) (s : Pass D)
    → Fetched env
        (λ m. In m s.inbox)
        (join_path env.root dl.path)
        s.downloaded
        (download_file env dl s)
unfolding download_file
download_file-Fetched env L dl s =
    let full = join_path env.root dl.path in
    if_both (Fetched env (λ m. In m s.inbox) full s.downloaded)
      (env.disk.is_file_locked s.disk full) _ _ (λ e. inl refl)
      (λ e.
        download_loop-Fetched env (λ m. In m s.inbox) L attempts dl full s.downloaded s refl
          (λ m i. i))
