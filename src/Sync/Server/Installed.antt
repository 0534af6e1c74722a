-- ===== src/Sync/Server/Installed.antt =====
-- sync/mod.rs: an upload from `put_start` to `put_done` on a disk whose calls succeed.
use mathlib.Core.Path.{subst}
use krymux.Base.{
  ℕ, suc, ◌+◌, ◌≤◌, ◌≡◌, refl, sym, ap, ◌∙◌, ◌⊎◌, inl, inr, Option, none, some, List, [], ◌∷◌, ◌++◌,
  Bool, true, false, append_assoc, append-nil, map, length, length-append, ltb, ge→ltb, if_both,
  Option-cases, ==_refl, if_false, arith,
}
use krymux.Base.Bytes.{Bytes, codes, bytes_eq, bytes_eq_refl}
use krymux.Base.Json.{unwrap_or}
use krymux.Base.Text.{decimal}
use krymux.Sync.Disk.{Disk, IsLawful, Outcome}
use krymux.Sync.Plan.{readonly}
use krymux.Sync.Protocol.{SyncMessage, json, bin}
use krymux.Sync.Protocol.Chunks.{join}
use krymux.Sync.Protocol.Messages.{put_start, put_done, put_ack}
use krymux.Sync.Server.Joining.{IsSafe, safe_join_lem}
use krymux.Sync.Server.Paths.{safe_join, unique_tmp, parent}
use krymux.Sync.Server.Session.{handle_json, handle_message, next_after, handle_batch}
use krymux.Sync.Server.State.{Env, Session, IncomingFile, going, max_file_bytes}
use krymux.Sync.Server.Upload.{
  reject_put, created, made, make_parent, start_transfer, put_joined, handle_put_start, written,
  receive_chunk, handle_bin, verify, flush_error, after_rename, rename_loop, renamed, install,
  judged, finish_put, handle_put_done,
}

-- No call that an upload makes fails, and no file is locked.
pub record IsHealthy {D W : Type 0} (S : Disk D W) : Type 0 where
  pub dirs : (p : Bytes) (d : D) → (S.create_dir_all p d).1 ≡ none
  pub creates : (p : Bytes) (d : D) → (S.create p d).1 ≡ none
  pub appends : (p text : Bytes) (d : D) → (S.append p text d).1 ≡ none
  pub flushes : (p : Bytes) (d : D) → (S.flush p d).1 ≡ none
  pub renames : (p q : Bytes) (d : D) → (S.rename p q d).1 ≡ none
  pub unlocked : (p : Bytes) (d : D) → S.is_file_locked d p ≡ false

parent-some : (s t : Bytes) → (p : Bytes) × (parent (s ++ b'/' ∷ t) ≡ some p)
parent-some [] t = elim (Option-cases (parent t)) [
  | inl e ↦ ([], rw e refl)
  | inr (p, e) ↦ (b'/' ∷ p, rw e refl)
]
parent-some (c ∷ s) t = let (p, e) = parent-some s t in (c ∷ p, rw e refl)

tmp_parent :
    (root rel : Bytes) (n : ℕ)
    → (p : Bytes) × (parent (unique_tmp (root ++ codes "/" ++ rel) n) ≡ some p)
tmp_parent root rel n =
    let tail = decimal n ++ codes ".sync-tmp" in
    let (p, e) = parent-some root (rel ++ (codes "." ++ tail)) in
    (
      p,
      rw
          (
            append_assoc (root ++ codes "/" ++ rel ++ codes ".") (decimal n) (codes ".sync-tmp"),
            append_assoc (root ++ codes "/" ++ rel) (codes ".") tail,
            append_assoc (root ++ codes "/") rel (codes "." ++ tail),
            append_assoc root (codes "/") (rel ++ (codes "." ++ tail)),
          )
          e,
    )

module _ {D W : Type 0} (env : Env D W) (rel tmp hash : Bytes) (size : ℕ) (mtime_ms : W) where
  -- The upload after these bytes.
  abbrev transfer : Bytes → IncomingFile W
  transfer hashed = record {
    rel = rel;
    tmp = tmp;
    hashed = hashed;
    expected_size = size;
    expected_hash = hash;
    mtime_ms = mtime_ms;
    received = length hashed;
  }

  -- It is in flight, its file holds the bytes, and this has been written to the client.
  record Flying (hashed : Bytes) (out : List SyncMessage) (s : Session D W) : Type 0 where
    upload : s.incoming ≡ some (transfer hashed)
    file : env.disk.read s.disk tmp ≡ some hashed
    quiet : s.out ≡ out

  written-Flying :
      IsLawful env.disk
      → (hashed chunk : Bytes) (out : List SyncMessage) (s : Session D W) (o : Outcome D)
      → env.disk.append tmp chunk s.disk ≡ o
      → o.1 ≡ none
      → length hashed + length chunk ≤ size
      → Flying hashed out s
      → Flying (hashed ++ chunk) out (
          written env
            (record (transfer hashed) { received = length hashed + length chunk })
            chunk
            o
            s)
  unfolding written
  written-Flying L hashed chunk out s (d, some x) e works fits f = cc works
  written-Flying L hashed chunk out s (d, none) e works fits f =
      if_both (Flying (hashed ++ chunk) out) (ltb size (length hashed + length chunk)) _ _
        (λ over. cc (sym over ∙ ge→ltb size _ fits))
        (λ within. record {
          upload =
              ap (λ n. some (record (transfer (hashed ++ chunk)) { received = n }))
                (sym (length-append hashed chunk));
          file = L.read-append s.disk d tmp hashed chunk f.file e;
          quiet = f.quiet;
        })

  receive-Flying :
      IsLawful env.disk
      → IsHealthy env.disk
      → (hashed chunk : Bytes) (out : List SyncMessage) (s : Session D W) → size ≤ max_file_bytes
      → length hashed + length chunk ≤ size
      → Flying hashed out s
      → Flying (hashed ++ chunk) out (receive_chunk env (some (transfer hashed)) chunk s)
  unfolding receive_chunk
  receive-Flying L H hashed chunk out s small fits f =
      if_both (Flying (hashed ++ chunk) out) (ltb max_file_bytes (length hashed + length chunk)) _ _
        (λ over. cc (sym over ∙ ge→ltb max_file_bytes _ (omega (arith, fits, small))))
        (λ within.
          written-Flying L hashed chunk out s (env.disk.append tmp chunk s.disk) refl
            (H.appends tmp chunk s.disk) fits f)

  verified :
      (hashed : Bytes)
      → length hashed ≡ size
      → (hash ≡ []) ⊎ (env.sha1_hex hashed ≡ hash)
      → verify env (transfer hashed) ≡ none
  unfolding verify
  verified hashed full (inl e) = rw (full, ==_refl size, e) refl
  verified hashed full (inr e) = rw (full, ==_refl size, e, bytes_eq_refl hash) (ground arith)

  after_rename_ok :
      (o : Outcome D) (again : D × Bool) → o.1 ≡ none → after_rename env o again ≡ (o.0, true)
  after_rename_ok (d, none) again e = refl
  after_rename_ok (d, some x) again e = cc e

  rename_first :
      IsHealthy env.disk
      → (n : ℕ) (dest : Bytes) (d : D)
      → rename_loop env (suc n) tmp dest d ≡ ((env.disk.rename tmp dest d).0, true)
  unfolding rename_loop
  rename_first H n dest d = after_rename_ok (env.disk.rename tmp dest d) _ (H.renames tmp dest d)

  flushed_ok : (v e : Option Bytes) → v ≡ none → e ≡ none → flush_error env v e ≡ none
  flushed_ok v none a b = a
  flushed_ok v (some x) a b = cc b

  both-parts : {A B : Type 0} (o : A × B) {b : B} → o.1 ≡ b → o ≡ (o.0, b)
  both-parts (x, y) e = ap (λ z. (x, z)) e

  finish-Flying :
      IsLawful env.disk
      → IsHealthy env.disk
      → (hashed : Bytes) (out : List SyncMessage) (s : Session D W) → IsSafe rel
      → length hashed ≡ size
      → (hash ≡ []) ⊎ (env.sha1_hex hashed ≡ hash)
      → Flying hashed out s
      → let t = finish_put env (some (transfer hashed)) s in
        (env.disk.read t.disk (env.root ++ codes "/" ++ rel) ≡ some hashed)
        × (t.incoming ≡ none)
        × (t.out ≡ out ++ json (put_ack rel true []) ∷ [])
  unfolding finish_put judged install renamed
  finish-Flying L H hashed out s safe full good f =
      let dest = env.root ++ codes "/" ++ rel in
      let o = env.disk.flush tmp s.disk in
      let s0 : Session D W = record s { disk = o.0; incoming = none } in
      let ok_flush =
        flushed_ok (verify env (transfer hashed)) o.1 (verified hashed full good)
          (H.flushes tmp s.disk) in
      let moved = rename_first H 4 dest o.0 in
      let run =
        ap (λ v. judged env (transfer hashed) v s0) ok_flush
        ∙ ap (λ r. install env (transfer hashed) r s0)
            ((safe_join_lem env.root rel dest).1 (safe, refl))
        ∙ ap (λ x. renamed env (transfer hashed) dest x s0) moved in
      let kept = L.read-flush s.disk o.0 tmp tmp (both-parts o (H.flushes tmp s.disk)) ∙ f.file in
      let r = env.disk.rename tmp dest o.0 in
      let got = L.read-rename o.0 r.0 tmp dest (both-parts r (H.renames tmp dest o.0)) ∙ kept in
      rw run (
        L.read-set_file_times r.0 dest dest mtime_ms ∙ got,
        refl,
        ap (λ x. x ++ json (put_ack rel true []) ∷ []) f.quiet,
      )

  chunks-Flying :
      IsLawful env.disk
      → IsHealthy env.disk
      → (now : ℕ) (cs : List Bytes) (ms : List SyncMessage) (hashed : Bytes)
        (out : List SyncMessage) (s : Session D W)
      → size ≤ max_file_bytes
      → length hashed + length (join cs) ≤ size
      → Flying hashed out s
      → (t : Session D W) × (handle_batch env now (map bin cs ++ ms) s ≡ handle_batch env now ms t)
        × Flying (hashed ++ join cs) out t
  unfolding handle_batch handle_message next_after handle_bin
  chunks-Flying L H now [] ms hashed out s small fits f =
      (s, refl, subst (λ b. Flying b out s) (sym (append-nil hashed)) f)
  chunks-Flying L H now (c ∷ cs) ms hashed out s small fits f =
      let all = length-append c (join cs) in
      let next = receive_chunk env (some (transfer hashed)) c s in
      let g = receive-Flying L H hashed c out s small (omega (arith, fits, all)) f in
      let (t, run, h) =
        chunks-Flying L H now cs ms (hashed ++ c) out next small
          (omega (arith, fits, all, length-append hashed c)) g in
      (
        t,
        ap (λ o. handle_batch env now (map bin cs ++ ms) (receive_chunk env o c s)) f.upload ∙ run,
        subst (λ b. Flying b out t) (append_assoc hashed c (join cs)) h,
      )

module _ {D W : Type 0} (env : Env D W) where
  -- The time that comes out of the message.
  abbrev read_mtime : W → W
  read_mtime mtime_ms = unwrap_or (env.float.as_f64 (env.float.to_json mtime_ms)) env.float.nought

  made_ok : (o : Outcome D) → o.1 ≡ none → made env o ≡ (o.0, true)
  made_ok (d, none) e = refl
  made_ok (d, some x) e = cc e

  created-Flying :
      IsLawful env.disk
      → (rel tmp hash : Bytes) (size : ℕ) (mtime_ms : W) (s : Session D W) (d : D) (o : Outcome D)
      → env.disk.create tmp d ≡ o
      → o.1 ≡ none
      → Flying env rel tmp hash size
          (read_mtime mtime_ms)
          []
          s.out
          (created env (put_start env.float rel size hash mtime_ms) rel tmp size o s)
  unfolding created
  created-Flying L rel tmp hash size mtime_ms s d (e, none) run works = record {
    upload = refl;
    file = L.read-create d e tmp run;
    quiet = refl;
  }
  created-Flying L rel tmp hash size mtime_ms s d (e, some x) run works = cc works

  start-Flying :
      IsLawful env.disk
      → IsHealthy env.disk
      → (rel hash : Bytes) (size : ℕ) (mtime_ms : W) (s : Session D W) → IsSafe rel
      → size ≤ max_file_bytes
      → bytes_eq s.mode readonly ≡ false
      → Flying env rel
          (unique_tmp (env.root ++ codes "/" ++ rel) s.seq)
          hash
          size
          (read_mtime mtime_ms)
          []
          s.out
          (handle_put_start env (put_start env.float rel size hash mtime_ms) s)
  unfolding handle_put_start put_joined start_transfer
  start-Flying L H rel hash size mtime_ms s safe small writes =
      let m = put_start env.float rel size hash mtime_ms in
      let full = env.root ++ codes "/" ++ rel in
      let tmp = unique_tmp full s.seq in
      let (p, up) = tmp_parent env.root rel s.seq in
      let next : Session D W = record s { seq = s.seq + 1 } in
      let run =
        if_false (bytes_eq s.mode readonly) (reject_put env rel (codes "server is readonly") s)
          (put_joined env m rel (safe_join env.root rel) s) writes
        ∙ ap (λ r. put_joined env m rel r s) ((safe_join_lem env.root rel full).1 (safe, refl))
        ∙ if_false (env.disk.is_file_locked s.disk full) _ _ (H.unlocked full s.disk)
        ∙ ap (λ o. start_transfer env m rel tmp (make_parent env o s.disk) next) up
        ∙ ap (λ o. start_transfer env m rel tmp o next)
            (made_ok (env.disk.create_dir_all p s.disk) (H.dirs p s.disk))
        ∙ if_false (ltb max_file_bytes size) _ _ (ge→ltb max_file_bytes size small) in
      let d = (env.disk.create_dir_all p s.disk).0 in
      subst (Flying env rel tmp hash size (read_mtime mtime_ms) [] s.out) (sym run) (
        created-Flying L rel tmp hash size mtime_ms (record next { disk = d }) d
          (env.disk.create tmp d) refl (H.creates tmp d))

  -- A client announces a file, sends its bytes in chunks of any sizes and ends the upload, at a server
  -- that accepts uploads, for a path that `safe_join` accepts and at most 8 GiB, with the right hash or
  -- none. If no call of the file system fails, then the file is there with these bytes, no upload is in
  -- flight, and the client has got one frame more: that the upload succeeded.
  pub upload_lem :
      IsLawful env.disk
      → IsHealthy env.disk
      → (now : ℕ) (rel hash : Bytes) (mtime_ms : W) (cs : List Bytes) (s : Session D W) → IsSafe rel
      → length (join cs) ≤ max_file_bytes
      → (hash ≡ []) ⊎ (env.sha1_hex (join cs) ≡ hash)
      → bytes_eq s.mode readonly ≡ false
      → (t : Session D W) × (handle_batch env now
            (json (put_start env.float rel (length (join cs)) hash mtime_ms)
              ∷ (map bin cs ++ json (put_done rel) ∷ []))
            s
          ≡ going t)
        × (env.disk.read t.disk (env.root ++ codes "/" ++ rel) ≡ some (join cs))
        × (t.incoming ≡ none)
        × (t.out ≡ s.out ++ json (put_ack rel true []) ∷ [])
  unfolding handle_batch handle_message handle_json next_after handle_put_done
  upload_lem L H now rel hash mtime_ms cs s safe small good writes =
      let size = length (join cs) in
      let tmp = unique_tmp (env.root ++ codes "/" ++ rel) s.seq in
      let time = read_mtime mtime_ms in
      let f = start-Flying L H rel hash size mtime_ms s safe small writes in
      let begun = handle_put_start env (put_start env.float rel size hash mtime_ms) s in
      let (t, run, g) =
        chunks-Flying env rel tmp hash size time L H now cs (json (put_done rel) ∷ []) [] s.out
          begun small (omega arith) f in
      let done = finish-Flying env rel tmp hash size time L H (join cs) s.out t safe refl good g in
      (
        finish_put env (some (transfer env rel tmp hash size time (join cs))) t,
        run ∙ ap (λ o. going (finish_put env o t)) g.upload,
        done.0,
        done.1,
        done.2,
      )
