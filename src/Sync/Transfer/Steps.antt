-- ===== src/Sync/Transfer/Steps.antt =====
-- sync/mod.rs, the client: what a download keeps, whatever the messages are and whichever calls fail.
use krymux.Base.{
  ℕ, zero, suc, ◌+◌, ◌≡◌, refl, Option, none, some, List, [], ◌∷◌, not, ◌&&◌, ◌||◌, ◌==◌, ltb,
  length, is_empty, true, false, if_both,
}
use krymux.Base.Bytes.{Bytes, bytes_eq}
use krymux.Base.Json.{Json}
use krymux.Sync.Collect.{text_of}
use krymux.Sync.Disk.{Outcome}
use krymux.Sync.Protocol.{SyncMessage, json, bin}
use krymux.Sync.Protocol.Messages.{t_file_meta, t_file_done, t_file_error, get_file}
use krymux.Sync.Scanner.{FileEntry}
use krymux.Sync.Server.Paths.{join_path, unique_tmp}
use krymux.Sync.Server.State.{Env, max_file_bytes}
use krymux.Sync.Transfer.Download.{
  Receiving, Reply, more, ended, Attempt, given_up, tried, attempts, on_reply, stored_chunk,
  on_data_chunk, take_reply, receive_file, drop_tmp, hash_of_file, placed_file, check_file,
  received_file, opened_tmp, made_dir, make_dir, try_download, download_loop, skip_locked,
  download_file,
}
use krymux.Sync.Transfer.State.{Pass, Passing, onward, stopped, say}

module _ {D W : Type 0} (env : Env D W) where
  -- A predicate on the disk that holds on, whatever a download of this path does.
  pub record IsKept (Q : D → Type 0) (full : Bytes) : Type 0 where
    pub dirs : (d : D) (p : Bytes) → Q d → Q (env.disk.create_dir_all p d).0
    pub creates : (d : D) (n : ℕ) → Q d → Q (env.disk.create (unique_tmp full n) d).0
    pub appends :
        (d : D) (n : ℕ) (text : Bytes) → Q d → Q (env.disk.append (unique_tmp full n) text d).0
    pub removes : (d : D) (n : ℕ) → Q d → Q (env.disk.remove_file (unique_tmp full n) d).0
    pub renames : (d : D) (n : ℕ) → Q d → Q (env.disk.rename (unique_tmp full n) full d).0
    pub times : (d : D) (t : W) → Q d → Q (env.disk.set_file_times full t d)

  -- A predicate on the pass that follows from the one on its disk, and that a request for this path and
  -- the counts of a download keep.
  pub record IsStable (P : Pass D → Type 0) (Q : D → Type 0) (path : Bytes) : Type 0 where
    pub disk_of : (s : Pass D) → P s → Q s.disk
    pub moved :
        (s : Pass D) (d : D) (ms : List SyncMessage)
        → P s
        → Q d
        → P (record s { disk = d; inbox = ms })
    pub asks : (s : Pass D) → P s → P (say (get_file path) (record s { seq = s.seq + 1 }))
    pub counts : (s : Pass D) → P s → P (record s { downloaded = s.downloaded + 1 })
    pub skips : (s : Pass D) → P s → P (record s { locked_skipped = s.locked_skipped + 1 })

  -- A step that goes on keeps the predicate.
  abbrev pub Onward : (Pass D → Type 0) → Passing D → Type 0
  Onward P (stopped e) = Unit
  Onward P (onward s) = P s

module _ {D W : Type 0} (env : Env D W) (P : Pass D → Type 0) (Q : D → Type 0) (path full : Bytes)
    (k : IsKept env Q full) (st : IsStable env P Q path) where
  abbrev Replied : Reply D W → Type 0
  Replied (more r) = Q r.disk
  Replied (ended r) = Q r.disk

  on_reply-Replied : (m : Json) (r : Receiving D W) → Q r.disk → Replied (on_reply env m r)
  unfolding on_reply
  on_reply-Replied m r i =
      if_both Replied (bytes_eq (text_of m) t_file_meta) _ _ (λ e. i)
        (λ e.
          if_both Replied (bytes_eq (text_of m) t_file_done) _ _ (λ e1. i)
            (λ e1. if_both Replied (bytes_eq (text_of m) t_file_error) _ _ (λ e2. i) (λ e2. i)))

  stored_chunk-kept : (o : Outcome D) (r : Receiving D W) → Q o.0 → Q (stored_chunk env o r).disk
  unfolding stored_chunk
  stored_chunk-kept (d, none) r i = i
  stored_chunk-kept (d, some e) r i = i

  module _ (n : ℕ) where
    abbrev tmp : Bytes
    tmp = unique_tmp full n

    take_reply-Replied :
        (m : SyncMessage) (r : Receiving D W) → Q r.disk → Replied (take_reply env tmp m r)
    unfolding take_reply on_data_chunk
    take_reply-Replied (json m) r i = on_reply-Replied m r i
    take_reply-Replied (bin chunk) r i =
        let after : Receiving D W → Type 0 = λ r'. Q r'.disk in
        if_both after r.failed _ _ (λ f. i)
          (λ f.
            if_both after
              (ltb r.meta_size (r.received + length chunk)
                || ltb max_file_bytes (r.received + length chunk))
              _ _ (λ over. i)
              (λ fits.
                stored_chunk-kept (env.disk.append tmp chunk r.disk) _
                  (k.appends r.disk n chunk i)))

    abbrev Got : Option (Receiving D W × List SyncMessage) → Type 0
    Got none = Unit
    Got (some (r, ms)) = Q r.disk

    next-Got :
        (a : Reply D W) (ms : List SyncMessage)
        → ((r : Receiving D W) → Q r.disk → Got (receive_file env tmp ms r))
        → Replied a
        → Got (elim a [ more r ↦ receive_file env tmp ms r | ended r ↦ some (r, ms) ])
    next-Got (more r) ms h i = h r i
    next-Got (ended r) ms h i = i

    receive_file-Got :
        (ms : List SyncMessage) (r : Receiving D W) → Q r.disk → Got (receive_file env tmp ms r)
    unfolding receive_file
    receive_file-Got [] r i = tt
    receive_file-Got (m ∷ ms) r i =
        next-Got (take_reply env tmp m r) ms (λ r' i'. receive_file-Got ms r' i')
          (take_reply-Replied m r i)

    abbrev Tried : Attempt D → Type 0
    Tried (given_up e) = Unit
    Tried (tried b s) = P s

    drop_tmp-Tried : (s : Pass D) → P s → Tried (drop_tmp env tmp s)
    drop_tmp-Tried s p = st.moved s _ s.inbox p (k.removes s.disk n (st.disk_of s p))

    placed_file-Tried :
        (time : W) (o : Outcome D) (s : Pass D)
        → P s
        → Q o.0
        → Tried (placed_file env tmp full time o s)
    unfolding placed_file
    placed_file-Tried time (d, none) s p i = st.moved s _ s.inbox p (k.times d time i)
    placed_file-Tried time (d, some e) s p i =
        drop_tmp-Tried (record s { disk = d }) (st.moved s d s.inbox p i)

    received_file-Tried :
        (o : Option (Receiving D W × List SyncMessage)) (s : Pass D)
        → P s
        → Got o
        → Tried (received_file env tmp full o s)
    unfolding received_file check_file
    received_file-Tried none s p i = tt
    received_file-Tried (some (r, ms)) s p i =
        let here = record s { disk = r.disk; inbox = ms } in
        let p' = st.moved s r.disk ms p i in
        let gone = drop_tmp-Tried here p' in
        if_both Tried (r.failed || not (r.received == r.meta_size)) (drop_tmp env tmp here) _
          (λ e. gone)
          (λ e.
            if_both Tried
              (not (is_empty r.meta_hash)
                && not (bytes_eq (hash_of_file env (env.disk.read r.disk tmp)) r.meta_hash))
              (drop_tmp env tmp here) _ (λ e1. gone)
              (λ e1.
                placed_file-Tried r.meta_mtime (env.disk.rename tmp full r.disk) here p'
                  (k.renames r.disk n i)))

    opened_tmp-Tried :
        (o : Outcome D) (s : Pass D) → P s → Q o.0 → Tried (opened_tmp env tmp full o s)
    unfolding opened_tmp
    opened_tmp-Tried (d, some e) s p i = st.moved s d s.inbox p i
    opened_tmp-Tried (d, none) s p i =
        received_file-Tried _ (record s { disk = d }) (st.moved s d s.inbox p i)
          (receive_file-Got s.inbox _ i)

    made_dir-Tried : (o : Outcome D) (s : Pass D) → P s → Q o.0 → Tried (made_dir env tmp full o s)
    unfolding made_dir
    made_dir-Tried (d, some e) s p i = st.moved s d s.inbox p i
    made_dir-Tried (d, none) s p i =
        opened_tmp-Tried (env.disk.create tmp d) (record s { disk = d }) (st.moved s d s.inbox p i)
          (k.creates d n i)

  make_dir-kept : (p : Option Bytes) (d : D) → Q d → Q (make_dir env p d).0
  make_dir-kept none d i = i
  make_dir-kept (some p) d i = k.dirs d p i

  next-Onward :
      (n : ℕ) (a : Attempt D) (then_ : Pass D → Passing D)
      → Tried n a
      → ((s : Pass D) → P s → Onward env P (then_ s))
      → Onward env P (elim a [
        | given_up e ↦ stopped e
        | tried true s ↦ onward (record s { downloaded = s.downloaded + 1 })
        | tried false s ↦ then_ s
      ])
  next-Onward n (given_up e) then_ i h = tt
  next-Onward n (tried true s) then_ i h = st.counts s i
  next-Onward n (tried false s) then_ i h = h s i

  download_loop-Onward :
      (tries : ℕ) (dl : FileEntry W) (s : Pass D)
      → dl.path ≡ path
      → P s
      → Onward env P (download_loop env tries dl full s)
  unfolding download_loop try_download
  download_loop-Onward zero dl s e i = i
  download_loop-Onward (suc tries) dl s e i =
      let asked : P (say (get_file dl.path) (record s { seq = s.seq + 1 })) = rw e (st.asks s i) in
      next-Onward s.seq (try_download env dl full s) (λ s'. download_loop env tries dl full s')
        (made_dir-Tried s.seq _ _ asked (make_dir-kept _ s.disk (st.disk_of s i)))
        (λ s' i'. download_loop-Onward tries dl s' e i')

-- A download keeps what its calls of the file system and its counts keep.
pub download_file-Onward :
    {D W : Type 0} (env : Env D W) (P : Pass D → Type 0) (Q : D → Type 0) (dl : FileEntry W)
    → IsKept env Q (join_path env.root dl.path)
    → IsStable env P Q dl.path
    → (s : Pass D) → P s
    → Onward env P (download_file env dl s)
unfolding download_file
download_file-Onward env P Q dl k st s i =
    let full = join_path env.root dl.path in
    if_both (Onward env P) (env.disk.is_file_locked s.disk full) (skip_locked env s)
      (download_loop env attempts dl full s) (λ e. st.skips s i)
      (λ e. download_loop-Onward env P Q dl.path full k st attempts dl s refl i)
