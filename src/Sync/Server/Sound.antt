-- ===== src/Sync/Server/Sound.antt =====
-- sync/mod.rs: what an upload in flight has counted and hashed, in every state of a session.
use krymux.Base.{
  ℕ, ◌+◌, ◌≤◌, ◌≡◌, refl, sym, ◌∙◌, Option, none, some, List, Bool, true, false, arith, length,
  length-append, Result, ok, err, if_both, ltb, ltb→ge,
}
use krymux.Base.Bytes.{Bytes, codes, bytes_eq}
use krymux.Base.Json.{Json, index, as_u64, unwrap_or}
use krymux.Sync.Disk.{Outcome}
use krymux.Sync.Protocol.{SyncMessage, SyncParser}
use krymux.Sync.Plan.{readonly}
use krymux.Sync.Server.Paths.{PathError, safe_join}
use krymux.Sync.Server.Files.{handle_delete_file}
use krymux.Sync.Server.Session.{serve}
use krymux.Sync.Server.Kept.{
  Holds, Holds-imp, handle_get_file-Same, request_scan-Kept, handle_hello-Greeted,
  handle_delete_file-Kept,
}
use krymux.Sync.Server.Steps.{serve-Holds}
use krymux.Sync.Server.State.{Env, Session, IncomingFile, max_file_bytes}
use krymux.Sync.Server.Upload.{
  created, make_parent, start_transfer, put_joined, handle_put_start, abort_put, written,
  receive_chunk, handle_bin, judged, install, renamed, rename_loop, rename_tries, finish_put,
  handle_put_done,
}

-- The count is what was hashed, and neither passes the declared size, nor that the cap.
pub record IsSound {W : Type 0} (inc : IncomingFile W) : Type 0 where
  pub counted : inc.received ≡ length inc.hashed
  pub within : inc.received ≤ inc.expected_size
  pub capped : inc.expected_size ≤ max_file_bytes

abbrev pub AllSound : {W : Type 0} → Option (IncomingFile W) → Type 0
AllSound none = Unit
AllSound (some inc) = IsSound inc

module _ {D W : Type 0} (env : Env D W) where
  abbrev pub IsSteady : Session D W → Type 0
  IsSteady s = AllSound s.incoming

  created-IsSteady :
      (m : Json) (path tmp : Bytes) (declared : ℕ) (o : Outcome D) (s : Session D W)
      → declared ≤ max_file_bytes
      → IsSteady s
      → IsSteady (created env m path tmp declared o s)
  unfolding created
  created-IsSteady m path tmp declared (d, none) s h i = record {
    counted = refl;
    within = omega arith;
    capped = h;
  }
  created-IsSteady m path tmp declared (d, some e) s h i = i

  start_transfer-IsSteady :
      (m : Json) (path tmp : Bytes) (o : D × Bool) (s : Session D W)
      → IsSteady s
      → IsSteady (start_transfer env m path tmp o s)
  unfolding start_transfer
  start_transfer-IsSteady m path tmp (d, false) s i = i
  start_transfer-IsSteady m path tmp (d, true) s i =
      if_both IsSteady (ltb max_file_bytes (unwrap_or (as_u64 (index m (codes "size"))) 0)) _ _
        (λ e. i) (λ e. created-IsSteady m path tmp _ (env.disk.create tmp d) _ (ltb→ge _ _ e) i)

  put_joined-IsSteady :
      (m : Json) (path : Bytes) (r : Result PathError Bytes) (s : Session D W)
      → IsSteady s
      → IsSteady (put_joined env m path r s)
  unfolding put_joined
  put_joined-IsSteady m path (err e) s i = i
  put_joined-IsSteady m path (ok full) s i =
      if_both IsSteady (env.disk.is_file_locked s.disk full) _ _ (λ e. i)
        (λ e. start_transfer-IsSteady m path _ (make_parent env _ s.disk) _ i)

  pub handle_put_start-IsSteady :
      (m : Json) (s : Session D W) → IsSteady s → IsSteady (handle_put_start env m s)
  unfolding handle_put_start
  handle_put_start-IsSteady m s i =
      if_both IsSteady (bytes_eq s.mode readonly) _ _ (λ e. i)
        (λ e. put_joined-IsSteady m _ (safe_join env.root _) s i)

  written-IsSteady :
      (inc : IncomingFile W) (chunk : Bytes) (o : Outcome D) (s : Session D W)
      → inc.received ≡ length inc.hashed + length chunk
      → inc.expected_size ≤ max_file_bytes
      → IsSteady (written env inc chunk o s)
  unfolding written abort_put
  written-IsSteady inc chunk (d, some e) s h k = tt
  written-IsSteady inc chunk (d, none) s h k =
      if_both IsSteady (ltb inc.expected_size inc.received) _ _ (λ e. tt)
        (λ e. record {
          counted = h ∙ sym (length-append inc.hashed chunk);
          within = ltb→ge _ _ e;
          capped = k;
        })

  receive_chunk-IsSteady :
      (o : Option (IncomingFile W)) (chunk : Bytes) (s : Session D W)
      → AllSound o
      → s.incoming ≡ o
      → IsSteady (receive_chunk env o chunk s)
  unfolding receive_chunk abort_put
  receive_chunk-IsSteady none chunk s i e = rw e tt
  receive_chunk-IsSteady (some inc) chunk s i e =
      if_both IsSteady (ltb max_file_bytes (inc.received + length chunk)) _ _ (λ h. tt)
        (λ h.
          written-IsSteady _ chunk (env.disk.append inc.tmp chunk s.disk) s
            (omega (arith, i.counted)) i.capped)

  renamed-incoming :
      (inc : IncomingFile W) (dest : Bytes) (o : D × Bool) (s : Session D W)
      → (renamed env inc dest o s).incoming ≡ s.incoming
  unfolding renamed
  renamed-incoming inc dest (d, true) s = refl
  renamed-incoming inc dest (d, false) s = refl

  install-incoming :
      (inc : IncomingFile W) (r : Result PathError Bytes) (s : Session D W)
      → (install env inc r s).incoming ≡ s.incoming
  unfolding install
  install-incoming inc (ok dest) s =
      renamed-incoming inc dest (rename_loop env rename_tries inc.tmp dest s.disk) s
  install-incoming inc (err e) s = refl

  pub judged-incoming :
      (inc : IncomingFile W) (o : Option Bytes) (s : Session D W)
      → (judged env inc o s).incoming ≡ s.incoming
  unfolding judged
  judged-incoming inc none s = install-incoming inc (safe_join env.root inc.rel) s
  judged-incoming inc (some e) s = refl

  finish_put-IsSteady :
      (o : Option (IncomingFile W)) (s : Session D W)
      → s.incoming ≡ o
      → IsSteady (finish_put env o s)
  unfolding finish_put
  finish_put-IsSteady none s e = rw e tt
  finish_put-IsSteady (some inc) s e = rw (judged-incoming inc _ _) tt

  Kept-IsSteady : (s t : Session D W) → t.incoming ≡ s.incoming → IsSteady s → IsSteady t
  Kept-IsSteady s t e i = rw e i

  -- Whatever a client sends, the count of an upload in flight is the number of bytes hashed, and it
  -- passes neither the declared size nor, with it, the cap of 8 GiB.
  pub serve-IsSteady :
      (from_slice : Bytes → Option Json) (now : ℕ) (p : SyncParser) (ms : List SyncMessage)
      (reads : List (ℕ × Bytes)) (s : Session D W)
      → IsSteady s
      → Holds IsSteady (serve env from_slice now p ms reads s)
  unfolding handle_bin handle_put_done
  serve-IsSteady = serve-Holds env IsSteady λ now s i. record {
    hello = λ m.
        Holds-imp _ IsSteady _ (λ t g. Kept-IsSteady s t g.upload i)
          (handle_hello-Greeted env now m s);
    scan = Holds-imp _ IsSteady _ (λ t k. Kept-IsSteady s t k.0.1 i) (request_scan-Kept env now s);
    get =
        λ m. Holds-imp _ IsSteady _ (λ t k. Kept-IsSteady s t k.3 i) (handle_get_file-Same env m s);
    delete = λ m.
        Kept-IsSteady s (handle_delete_file env now m s) (handle_delete_file-Kept env now m s).1 i;
    start = λ m. handle_put_start-IsSteady m s i;
    done = finish_put-IsSteady s.incoming s refl;
    chunk = λ b. receive_chunk-IsSteady s.incoming b s i refl;
  }
