-- ===== src/Sync/Transfer/Mirrored.antt =====
-- sync/mod.rs, both sides: the downloads of a pass, one after another, from a server that has the files.
use krymux.Base.{
  ℕ, ◌+◌, ◌≤◌, ◌≡◌, refl, sym, ap, ◌∙◌, some, List, [], ◌∷◌, ◌++◌, length, map, append-nil,
  append_assoc, All, Result, ok, err, arith,
}
use krymux.Base.Bytes.{Bytes}
use krymux.Sync.Disk.{IsLawful, IsLocal, Metadata}
use krymux.Sync.Protocol.{SyncMessage, json}
use krymux.Sync.Protocol.Messages.{get_file}
use krymux.Sync.Scanner.{FileEntry}
use krymux.Sync.Server.Files.{stream_chunk, send_chunks, stream_file}
use krymux.Sync.Server.Installed.{IsHealthy}
use krymux.Sync.Server.Paths.{safe_join, join_path}
use krymux.Sync.Server.Scan.{chunks}
use krymux.Sync.Server.Session.{handle_batch, handle_message, handle_json, next_after}
use krymux.Sync.Server.State.{Env, Session, going, max_file_bytes}
use krymux.Sync.Transfer.Apart.{IsApart, download_file-apart}
use krymux.Sync.Transfer.Delivery.{download_file-stream}
use krymux.Sync.Transfer.Download.{download_file}
use krymux.Sync.Transfer.State.{Pass, onward, then_pass, for_each}
use krymux.Sync.Transfer.Stream.{
  stream_messages, IsServed, stream_file-out, handle_get_file-IsServed,
}

-- Each file lies apart from all those that are downloaded after it.
abbrev pub AllApart : {W : Type 0} → Bytes → List (FileEntry W) → Type 0
AllApart root [] = Unit
AllApart root (f ∷ fs) =
    All (λ g. IsApart (join_path root f.path) (join_path root g.path)) fs × AllApart root fs

same_ok : {E A : Type 0} {r : Result E A} {x y : A} → r ≡ ok x → r ≡ ok y → x ≡ y
same_ok {x} a b = ap (λ o. elim o [ ok z ↦ z | err e ↦ x ]) (sym a ∙ b)

-- The requests for files.
abbrev pub requests : {W : Type 0} → List (FileEntry W) → List SyncMessage
requests files = map (λ f. json (get_file f.path)) files

module _ {D' W : Type 0} (senv : Env D' W) where
  send_chunks-disk : (cs : List Bytes) (s : Session D' W) → (send_chunks senv cs s).disk ≡ s.disk
  unfolding send_chunks
  send_chunks-disk [] s = refl
  send_chunks-disk (c ∷ cs) s = send_chunks-disk cs _

  stream_file-disk :
      (path content : Bytes) (meta : Metadata W) (s : Session D' W)
      → (stream_file senv path meta content s).disk ≡ s.disk
  unfolding stream_file
  stream_file-disk path content meta s = send_chunks-disk (chunks stream_chunk content) _

  -- The server can stream the file: its metadata has the size of its contents, which is at most 8 GiB.
  pub record IsOffered (srv : Session D' W) (f : FileEntry W) : Type 0 where
    pub content : Bytes
    pub meta : Metadata W
    pub served : IsServed senv f.path content meta srv
    pub sized : meta.size ≡ length content
    pub capped : length content ≤ max_file_bytes

  IsServed-kept :
      (path content : Bytes) (meta : Metadata W) (srv t : Session D' W)
      → t.disk ≡ srv.disk
      → IsServed senv path content meta srv
      → IsServed senv path content meta t
  IsServed-kept path content meta srv t same f = record {
    full = f.full;
    joined = f.joined;
    found = ap (λ d. senv.disk.metadata d f.full) same ∙ f.found;
    regular = f.regular;
    unlocked = ap (λ d. senv.disk.is_file_locked d f.full) same ∙ f.unlocked;
    readable = ap (λ d. senv.disk.read d f.full) same ∙ f.readable;
  }

  -- What the server sends for the files.
  abbrev pub streams :
      (srv : Session D' W) (files : List (FileEntry W))
      → All (IsOffered srv) files
      → List SyncMessage
  streams srv [] os = []
  streams srv (f ∷ fs) os =
      stream_messages senv f.path os.0.meta os.0.content ++ streams srv fs os.1

  pub handle_batch-streams :
      (now : ℕ) (srv : Session D' W) (files : List (FileEntry W)) (os : All (IsOffered srv) files)
      (t : Session D' W)
      → t.disk ≡ srv.disk
      → (t' : Session D' W) × (handle_batch senv now (requests files) t ≡ going t')
        × (t'.disk ≡ srv.disk)
        × (t'.out ≡ t.out ++ streams srv files os)
  unfolding handle_batch handle_message handle_json next_after
  handle_batch-streams now srv [] os t same = (t, refl, same, sym (append-nil t.out))
  handle_batch-streams now srv (f ∷ fs) os t same =
      let o = os.0 in
      let here = IsServed-kept f.path o.content o.meta srv t same o.served in
      let t1 = stream_file senv f.path o.meta o.content t in
      let (t', run, still, out) =
        handle_batch-streams now srv fs os.1 t1
          (stream_file-disk f.path o.content o.meta t ∙ same) in
      (
        t',
        ap (λ r. next_after senv r (λ s'. handle_batch senv now (requests fs) s'))
              (handle_get_file-IsServed senv f.path o.content o.meta t here)
            ∙ run,
        still,
        out
            ∙ ap (λ x. x ++ streams srv fs os.1) (stream_file-out senv f.path o.meta o.content t)
            ∙ append_assoc t.out (stream_messages senv f.path o.meta o.content)
                (streams srv fs os.1),
      )

  -- The file of the client reads as that of the server.
  abbrev pub SameFile : {D : Type 0} → Env D W → Session D' W → D → FileEntry W → Type 0
  SameFile env srv d f =
      (full : Bytes)
      → safe_join senv.root f.path ≡ ok full
      → env.disk.read d (join_path env.root f.path) ≡ senv.disk.read srv.disk full

  -- What the downloads leave.
  pub record Mirrored {D : Type 0} (env : Env D W) (srv : Session D' W) (files : List (FileEntry W))
      (later : List SyncMessage) (s s' : Pass D) : Type 0 where
    pub left : s'.inbox ≡ later
    pub asked : s'.out ≡ s.out ++ requests files
    pub count : s'.downloaded ≡ s.downloaded + length files
    pub same : All (SameFile env srv s'.disk) files
    pub others :
        (q : Bytes)
        → All (λ f. IsApart q (join_path env.root f.path)) files
        → env.disk.read s'.disk q ≡ env.disk.read s.disk q

  module _ {D : Type 0} (env : Env D W) (sums : (b : Bytes) → env.sha1_hex b ≡ senv.sha1_hex b)
      (L : IsLawful env.disk) (H : IsHealthy env.disk) (local : IsLocal env.disk)
      (srv : Session D' W) where
    offered_there :
        (f : FileEntry W) (o : IsOffered srv f) (d : D)
        → env.disk.read d (join_path env.root f.path) ≡ some o.content
        → SameFile env srv d f
    offered_there f o d has full j =
        has
        ∙ sym o.served.readable
        ∙ ap (λ p. senv.disk.read srv.disk p) (same_ok o.served.joined j)

    pub for_each-Mirrored :
        (files : List (FileEntry W)) (os : All (IsOffered srv) files) (later : List SyncMessage)
        (s : Pass D)
        → AllApart env.root files
        → s.inbox ≡ streams srv files os ++ later
        → (s' : Pass D) × (for_each (download_file env) files s ≡ onward s')
          × Mirrored env srv files later s s'
    unfolding for_each then_pass
    for_each-Mirrored [] os later s a i = (
      s,
      refl,
      record {
        left = i;
        asked = sym (append-nil s.out);
        count = omega arith;
        same = tt;
        others = λ q x. refl;
      },
    )
    for_each-Mirrored (f ∷ fs) os later s a i =
        let o = os.0 in
        let rest = streams srv fs os.1 ++ later in
        let (s1, run, d) =
          download_file-stream env senv sums L H f.path o.content o.meta o.sized o.capped f rest s (
            i
            ∙ append_assoc (stream_messages senv f.path o.meta o.content) (streams srv fs os.1)
                later) in
        let (s', runs, m) = for_each-Mirrored fs os.1 later s1 a.1 d.left in
        (
          s',
          ap (λ p. then_pass p (λ x. for_each (download_file env) fs x)) run ∙ runs,
          record {
            left = m.left;
            asked =
                m.asked
                ∙ ap (λ x. x ++ requests fs) d.asked
                ∙ append_assoc s.out (json (get_file f.path) ∷ []) (requests fs);
            count = omega (arith, m.count, d.count);
            same = (
              offered_there f o s'.disk (m.others (join_path env.root f.path) a.0 ∙ d.contents),
              m.same,
            );
            others = λ q x. m.others q x.1 ∙ download_file-apart env L local f s s1 q run x.0;
          },
        )

-- A server has files that it can stream, of at most 8 GiB, and a client asks for one after another. No
-- call of the client's file system fails or touches paths that it does not name, both sides have the same
-- hash function, and no file lies at the path or a temporary name of one that is downloaded later. The
-- server handles the requests that the client writes and leaves its tree as it is. A client that reads
-- what the server wrote then has each file with the contents that the server has, has written exactly
-- those requests, counts as many downloads, and has what follows left to read.
pub for_each-handle_batch :
    {D D' W : Type 0} (env : Env D W) (senv : Env D' W)
    → ((b : Bytes) → env.sha1_hex b ≡ senv.sha1_hex b)
    → IsLawful env.disk
    → IsHealthy env.disk
    → IsLocal env.disk
    → (now : ℕ) (files : List (FileEntry W)) (srv : Session D' W) (s : Pass D)
      (later : List SyncMessage)
    → All (IsOffered senv srv) files
    → AllApart env.root files
    → (sent : List SyncMessage) × (t : Session D' W) × (s' : Pass D) × (handle_batch senv now
          (requests files)
          srv
        ≡ going t)
      × (t.disk ≡ srv.disk)
      × (t.out ≡ srv.out ++ sent)
      × (for_each (download_file env) files (record s { inbox = sent ++ later }) ≡ onward s')
      × (s'.inbox ≡ later)
      × (s'.out ≡ s.out ++ requests files)
      × (s'.downloaded ≡ s.downloaded + length files)
      × All (SameFile senv env srv s'.disk) files
for_each-handle_batch env senv sums L H local now files srv s later os apart =
    let (t, run, same, out) = handle_batch-streams senv now srv files os srv refl in
    let sent = streams senv srv files os in
    let (s', runs, m) =
      for_each-Mirrored senv env sums L H local srv files os later
        (record s { inbox = sent ++ later }) apart refl in
    (sent, t, s', run, same, out, runs, m.left, m.asked, m.count, m.same)
