-- ===== src/Sync/Transfer/Exchange.antt =====
-- sync/mod.rs, both sides: a download and an upload between a client and a server.
use krymux.Base.{
  ℕ, ◌+◌, ◌≤◌, ◌≡◌, refl, sym, ap, ◌∙◌, ◌⊎◌, none, some, List, [], ◌∷◌, ◌++◌, true, false, length,
  map, append_assoc, if_false,
}
use krymux.Base.Bytes.{Bytes, codes, bytes_eq}
use krymux.Base.Json.{unwrap_or}
use krymux.Sync.Disk.{IsLawful, Metadata}
use krymux.Sync.Plan.{readonly}
use krymux.Sync.Protocol.{SyncMessage, json, bin}
use krymux.Sync.Protocol.Chunks.{join}
use krymux.Sync.Protocol.Messages.{get_file, put_start, put_done, put_ack}
use krymux.Sync.Scanner.{FileEntry}
use krymux.Sync.Server.Files.{stream_chunk, stream_file, handle_get_file}
use krymux.Sync.Server.Installed.{IsHealthy, upload_lem}
use krymux.Sync.Server.Joining.{IsSafe}
use krymux.Sync.Server.Paths.{join_path}
use krymux.Sync.Server.Scan.{chunks}
use krymux.Sync.Server.Session.{handle_batch}
use krymux.Sync.Server.State.{Env, Session, going, max_file_bytes}
use krymux.Sync.Transfer.Apply.{upload_file, send_upload, acked_put}
use krymux.Sync.Transfer.Delivery.{IsDelivered, download_file-stream}
use krymux.Sync.Transfer.Download.{download_file}
use krymux.Sync.Transfer.State.{Pass, onward, await}
use krymux.Sync.Transfer.Stream.{
  stream_messages, IsServed, stream_file-out, handle_get_file-IsServed, join-chunks,
}

-- A client asks for a file that the server can stream, of at most 8 GiB and with the size that the
-- server's metadata says. The server goes on and writes some frames; a client that reads them, on a
-- disk whose calls succeed and with the same hash function, installs the same contents at the path of
-- the file, has asked once, counts one download, and has what follows the frames left to read.
pub download_file-handle_get_file :
    {D D' W : Type 0} (env : Env D W) (senv : Env D' W)
    → ((b : Bytes) → env.sha1_hex b ≡ senv.sha1_hex b)
    → IsLawful env.disk
    → IsHealthy env.disk
    → (dl : FileEntry W) (content : Bytes) (meta : Metadata W) (srv : Session D' W) (s : Pass D)
      (later : List SyncMessage)
    → IsServed senv dl.path content meta srv
    → meta.size ≡ length content
    → length content ≤ max_file_bytes
    → (sent : List SyncMessage) × (t : Session D' W) × (handle_get_file senv (get_file dl.path) srv
        ≡ going t)
      × (t.out ≡ srv.out ++ sent)
      × ((s' : Pass D) × (download_file env dl (record s { inbox = sent ++ later }) ≡ onward s')
          × IsDelivered env
              (join_path env.root dl.path)
              content
              later
              (s.out ++ json (get_file dl.path) ∷ [])
              (s.downloaded + 1)
              s')
download_file-handle_get_file env senv sums L H dl content meta srv s later f size cap = (
  stream_messages senv dl.path meta content,
  stream_file senv dl.path meta content srv,
  handle_get_file-IsServed senv dl.path content meta srv f,
  stream_file-out senv dl.path meta content srv,
  download_file-stream env senv sums L H dl.path content meta size cap dl later _ refl,
)

-- The frames of an upload, before the file is opened and after.
abbrev pub upload_messages : {D W : Type 0} → Env D W → FileEntry W → Bytes → List SyncMessage
upload_messages env ul content =
    json (put_start env.float ul.path ul.size (unwrap_or ul.hash []) ul.mtime_ms)
    ∷ (map bin (chunks stream_chunk content) ++ json (put_done ul.path) ∷ [])

upload_file-sent :
    {D W : Type 0} (env : Env D W) (now : ℕ) (offset : W) (ul : FileEntry W) (content : Bytes)
    (later : List SyncMessage) (s : Pass D)
    → env.disk.is_file_locked s.disk (join_path env.root ul.path) ≡ false
    → env.disk.read s.disk (join_path env.root ul.path) ≡ some content
    → s.inbox ≡ json (put_ack ul.path true []) ∷ later
    → (s' : Pass D) × (upload_file env now offset ul s ≡ onward s')
      × (s'.inbox ≡ later)
      × (s'.out ≡ s.out ++ upload_messages env ul content)
      × (s'.uploaded ≡ s.uploaded + 1)
unfolding upload_file send_upload acked_put await
upload_file-sent env now offset ul content later s free has i =
    let start = json (put_start env.float ul.path ul.size (unwrap_or ul.hash []) ul.mtime_ms) in
    let cs = map bin (chunks stream_chunk content) in
    let end = json (put_done ul.path) in
    (
      record s {
        inbox = later;
        out = ((s.out ++ start ∷ []) ++ cs) ++ end ∷ [];
        uploaded = s.uploaded + 1;
      },
      if_false _ _ _ free ∙ rw (has, i) refl,
      refl,
      append_assoc (s.out ++ start ∷ []) cs (end ∷ []) ∙ append_assoc s.out (start ∷ []) _,
      refl,
    )

-- A client uploads a file that it can read, whose listed size and hash (when it has one) are those of its
-- contents, of at most 8 GiB, to a server that accepts uploads, for a path that `safe_join` accepts. No
-- call of the server's file system fails, both sides write times alike, and the frames of the upload
-- arrive as they were written. Then the server goes on with the same contents at the path of the file
-- and no upload in flight, and writes one frame; a client that reads it counts one upload, and has
-- written exactly the frames of the upload.
pub upload_file-handle_batch :
    {D D' W : Type 0} (env : Env D W) (senv : Env D' W)
    → env.float ≡ senv.float
    → IsLawful senv.disk
    → IsHealthy senv.disk
    → (now now' : ℕ) (offset : W) (ul : FileEntry W) (content : Bytes) (srv : Session D' W)
      (s : Pass D) (later : List SyncMessage)
    → env.disk.is_file_locked s.disk (join_path env.root ul.path) ≡ false
    → env.disk.read s.disk (join_path env.root ul.path) ≡ some content
    → ul.size ≡ length content
    → length content ≤ max_file_bytes
    → (unwrap_or ul.hash [] ≡ []) ⊎ (senv.sha1_hex content ≡ unwrap_or ul.hash [])
    → IsSafe ul.path
    → bytes_eq srv.mode readonly ≡ false
    → (t : Session D' W) × (answer : SyncMessage) × (s' : Pass D) × (handle_batch senv now'
          (upload_messages env ul content)
          srv
        ≡ going t)
      × (senv.disk.read t.disk (senv.root ++ codes "/" ++ ul.path) ≡ some content)
      × (t.incoming ≡ none)
      × (t.out ≡ srv.out ++ answer ∷ [])
      × (upload_file env now offset ul (record s { inbox = answer ∷ later }) ≡ onward s')
      × (s'.inbox ≡ later)
      × (s'.out ≡ s.out ++ upload_messages env ul content)
      × (s'.uploaded ≡ s.uploaded + 1)
upload_file-handle_batch env senv floats L H now now' offset ul content srv s later free has size
      small good safe writes =
    let whole = join-chunks content in
    let cs = chunks stream_chunk content in
    let hash = unwrap_or ul.hash [] in
    let (t, run, there, over, out) =
      upload_lem senv L H now' ul.path hash ul.mtime_ms cs srv safe (rw whole small) (rw whole good)
        writes in
    let (s', sent, left, wrote, count) =
      upload_file-sent env now offset ul content later
        (record s { inbox = json (put_ack ul.path true []) ∷ later }) free has refl in
    let frames : _ ≡ upload_messages env ul content =
      ap (λ x. json x ∷ (map bin cs ++ json (put_done ul.path) ∷ []))
        (ap (λ fl. put_start fl ul.path (length (join cs)) hash ul.mtime_ms) (sym floats)
          ∙ ap (λ n. put_start env.float ul.path n hash ul.mtime_ms)
              (ap length whole ∙ sym size)) in
    (
      t,
      json (put_ack ul.path true []),
      s',
      ap (λ ms. handle_batch senv now' ms srv) (sym frames) ∙ run,
      there ∙ ap some whole,
      over,
      out,
      sent,
      left,
      wrote,
      count,
    )
