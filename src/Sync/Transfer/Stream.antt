-- ===== src/Sync/Transfer/Stream.antt =====
-- sync/mod.rs, the server: the frames of a file that `serve_file` streams.
use krymux.Base.{
  ℕ, zero, suc, ◌≤◌, ◌≡◌, refl, sym, ap, ◌∙◌, some, List, [], ◌∷◌, ◌++◌, true, false, length, map,
  take, drop, take-append-drop, length-drop, append-nil, append_assoc, ok, arith,
}
use krymux.Base.Bytes.{Bytes}
use krymux.Sync.Disk.{Metadata}
use krymux.Sync.Protocol.{SyncMessage, json, bin}
use krymux.Sync.Protocol.Chunks.{join}
use krymux.Sync.Protocol.Messages.{get_file, file_meta, file_done}
use krymux.Sync.Server.Files.{
  stream_chunk, send_chunks, stream_file, serve_open, serve_found, serve_file, serve_joined,
  handle_get_file,
}
use krymux.Sync.Server.Paths.{safe_join}
use krymux.Sync.Server.Scan.{chunk_loop, chunks}
use krymux.Sync.Server.State.{Env, Session, going}

-- The pieces of a text are the text.
join-chunk_loop :
    (fuel n : ℕ) (s : Bytes) → 1 ≤ n → length s ≤ fuel → join (chunk_loop fuel n s) ≡ s
join-chunk_loop zero n [] one h = refl
join-chunk_loop zero n (c ∷ s) one h = ground (arith, h)
join-chunk_loop (suc fuel) n [] one h = refl
join-chunk_loop (suc fuel) n (c ∷ s) one h =
    let later =
      join-chunk_loop fuel n (drop n (c ∷ s)) one (omega (arith, one, h, length-drop n (c ∷ s))) in
    ap (λ r. take n (c ∷ s) ++ r) later ∙ take-append-drop n (c ∷ s)

pub join-chunks : (s : Bytes) → join (chunks stream_chunk s) ≡ s
join-chunks s = join-chunk_loop (length s) stream_chunk s (omega arith) (omega arith)

-- The frames of a file that is streamed.
abbrev pub stream_messages :
    {D W : Type 0} → Env D W → Bytes → Metadata W → Bytes → List SyncMessage
stream_messages env path meta content =
    json (file_meta env.float path meta.size (env.sha1_hex content) meta.mtime_ms)
    ∷ (map bin (chunks stream_chunk content) ++ json (file_done path) ∷ [])

module _ {D W : Type 0} (env : Env D W) where
  send_chunks-out :
      (cs : List Bytes) (s : Session D W) → (send_chunks env cs s).out ≡ s.out ++ map bin cs
  unfolding send_chunks
  send_chunks-out [] s = sym (append-nil s.out)
  send_chunks-out (c ∷ cs) s = send_chunks-out cs _ ∙ append_assoc s.out (bin c ∷ []) (map bin cs)

  pub stream_file-out :
      (path : Bytes) (meta : Metadata W) (content : Bytes) (s : Session D W)
      → (stream_file env path meta content s).out ≡ s.out ++ stream_messages env path meta content
  unfolding stream_file
  stream_file-out path meta content s =
      let first = json (file_meta env.float path meta.size (env.sha1_hex content) meta.mtime_ms) in
      let pieces = map bin (chunks stream_chunk content) in
      ap (λ o. o ++ json (file_done path) ∷ []) (send_chunks-out (chunks stream_chunk content) _)
      ∙ append_assoc (s.out ++ first ∷ []) pieces _
      ∙ append_assoc s.out (first ∷ []) _

  -- A file that the server can stream.
  pub record IsServed (path content : Bytes) (meta : Metadata W) (s : Session D W) : Type 0 where
    pub full : Bytes
    pub joined : safe_join env.root path ≡ ok full
    pub found : env.disk.metadata s.disk full ≡ some meta
    pub regular : meta.is_file ≡ true
    pub unlocked : env.disk.is_file_locked s.disk full ≡ false
    pub readable : env.disk.read s.disk full ≡ some content

  pub handle_get_file-IsServed :
      (path content : Bytes) (meta : Metadata W) (s : Session D W)
      → IsServed path content meta s
      → handle_get_file env (get_file path) s ≡ going (stream_file env path meta content s)
  unfolding handle_get_file serve_joined serve_file serve_found serve_open
  handle_get_file-IsServed path content meta s f =
      ap (λ r. serve_joined env path r s) f.joined
      ∙ ap (λ o. serve_found env f.full path o s) f.found
      ∙ rw (f.regular, f.unlocked, f.readable) refl
