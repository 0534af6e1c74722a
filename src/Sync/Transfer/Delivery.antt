-- ===== src/Sync/Transfer/Delivery.antt =====
-- sync/mod.rs, the client: a file that is streamed to it is installed, on a disk whose calls succeed.
use mathlib.Core.Path.{subst}
use krymux.Base.{
  ℕ, ◌+◌, ◌≤◌, ◌≡◌, refl, sym, ap, ◌∙◌, Option, none, some, List, [], ◌∷◌, ◌++◌, true, false, not,
  ◌&&◌, ◌||◌, ◌==◌, ==_iff, length, is_empty, map, append_assoc, if_both, if_false, arith,
}
use mathlib.Core.Option.{some-injective}
use krymux.Base.Bytes.{Bytes, bytes_eq, bytes_eq_refl}
use krymux.Base.Json.{unwrap_or}
use krymux.Sync.Disk.{IsLawful, Outcome, Metadata}
use krymux.Sync.Protocol.{SyncMessage, json, bin}
use krymux.Sync.Protocol.Messages.{get_file, file_done}
use krymux.Sync.Scanner.{FileEntry}
use krymux.Sync.Server.Files.{stream_chunk}
use krymux.Sync.Server.Installed.{IsHealthy}
use krymux.Sync.Server.Paths.{join_path, unique_tmp, parent}
use krymux.Sync.Server.Scan.{chunks}
use krymux.Sync.Server.State.{Env, max_file_bytes}
use krymux.Sync.Transfer.Download.{
  Receiving, Attempt, given_up, tried, on_reply, take_reply, receive_file, placed_file, check_file,
  received_file, opened_tmp, at_start, made_dir, make_dir, try_download, download_loop,
  download_file, hash_of_file,
}
use krymux.Sync.Transfer.State.{Pass, onward, stopped}
use krymux.Sync.Transfer.Stream.{stream_messages, join-chunks}
use krymux.Sync.Transfer.Arriving.{Going, receive_file-chunks}

module _ {D W : Type 0} (env : Env D W) where
  -- The file is there, what follows is left to read, and the server was asked once.
  pub record IsDelivered (full content : Bytes) (later out : List SyncMessage) (n : ℕ) (s : Pass D)
      : Type 0 where
    pub contents : env.disk.read s.disk full ≡ some content
    pub left : s.inbox ≡ later
    pub asked : s.out ≡ out
    pub count : s.downloaded ≡ n

  abbrev Tried : Bytes → Bytes → List SyncMessage → List SyncMessage → ℕ → Attempt D → Type 0
  Tried full content later out n a =
      (s : Pass D) × (a ≡ tried true s) × IsDelivered full content later out n s

  placed_file-Tried :
      IsLawful env.disk
      → (tmp full content : Bytes) (time : W) (o : Outcome D) (s : Pass D)
      → env.disk.rename tmp full s.disk ≡ o
      → o.1 ≡ none
      → env.disk.read s.disk tmp ≡ some content
      → Tried full content s.inbox s.out s.downloaded (placed_file env tmp full time o s)
  unfolding placed_file
  placed_file-Tried L tmp full content time (d, some x) s run works has = cc works
  placed_file-Tried L tmp full content time (d, none) s run works has = (
    _,
    refl,
    record {
      contents = L.read-set_file_times d full full time ∙ L.read-rename s.disk d tmp full run ∙ has;
      left = refl;
      asked = refl;
      count = refl;
    },
  )

  hash_passes :
      (hash content : Bytes) (o : Option Bytes)
      → o ≡ some content
      → env.sha1_hex content ≡ hash
      → (not (is_empty hash) && not (bytes_eq (hash_of_file env o) hash)) ≡ false
  hash_passes hash content none has e = cc has
  hash_passes hash content (some c) has e =
      rw (some-injective _ _ has, e, bytes_eq_refl hash) (ground arith)

  check_file-Tried :
      IsLawful env.disk
      → IsHealthy env.disk
      → (tmp full content hash : Bytes) (r : Receiving D W) (s : Pass D) → s.disk ≡ r.disk
      → env.sha1_hex content ≡ hash
      → Going env tmp (length content) hash content r
      → Tried full content s.inbox s.out s.downloaded (check_file env tmp full r s)
  unfolding check_file
  check_file-Tried L H tmp full content hash r s same e g =
      let here = ap (λ d. env.disk.read d tmp) same ∙ g.has in
      let whole : (r.received == r.meta_size) ≡ true =
        (==_iff r.received r.meta_size).1 (omega (arith, g.counted, g.sized)) in
      if_both (Tried full content s.inbox s.out s.downloaded)
        (r.failed || not (r.received == r.meta_size)) _ _
        (λ bad. ground (arith, bad, g.unfailed, whole))
        (λ good.
          if_both (Tried full content s.inbox s.out s.downloaded)
            (not (is_empty r.meta_hash)
              && not (bytes_eq (hash_of_file env (env.disk.read s.disk tmp)) r.meta_hash))
            _ _ (λ bad. cc (sym bad ∙ hash_passes r.meta_hash content _ here (e ∙ sym g.hashed)))
            (λ passed.
              placed_file-Tried L tmp full content r.meta_mtime _ s refl (H.renames tmp full s.disk)
                here))

  module _ {D' : Type 0} (senv : Env D' W) (sums : (b : Bytes) → env.sha1_hex b ≡ senv.sha1_hex b)
      (L : IsLawful env.disk) (H : IsHealthy env.disk) (path content : Bytes) (meta : Metadata W)
      (size : meta.size ≡ length content) (cap : length content ≤ max_file_bytes) where
    receive_file-stream :
        (tmp : Bytes) (later : List SyncMessage) (r : Receiving D W)
        → r.failed ≡ false
        → env.disk.read r.disk tmp ≡ some []
        → r.received ≡ 0
        → (r' : Receiving D W) × (receive_file env tmp
              (stream_messages senv path meta content ++ later)
              r
            ≡ some (r', later))
          × Going env tmp (length content) (senv.sha1_hex content) content r'
    unfolding receive_file take_reply on_reply
    receive_file-stream tmp later r f has none_yet =
        let cs = chunks stream_chunk content in
        let whole = join-chunks content in
        let announced = record r {
          meta_size = meta.size;
          meta_hash = senv.sha1_hex content;
          meta_mtime =
              unwrap_or (env.float.as_f64 (senv.float.to_json meta.mtime_ms)) env.float.nought;
        } in
        let (r', run, g) =
          receive_file-chunks env L H tmp (senv.sha1_hex content) [] (length content) cs
            (json (file_done path) ∷ later) announced (rw whole (omega arith)) cap
            record {
              unfailed = f;
              has = has;
              counted = sym none_yet;
              sized = size;
              hashed = refl;
            } in
        (
          r',
          rw (append_assoc (map bin cs) (json (file_done path) ∷ []) later) run,
          subst (λ x. Going env tmp (length content) (senv.sha1_hex content) x r') whole g,
        )

    received_file-Tried :
        (tmp full : Bytes) (later : List SyncMessage)
        (o : Option (Receiving D W × List SyncMessage)) (r : Receiving D W) (s : Pass D)
        → o ≡ some (r, later)
        → Going env tmp (length content) (senv.sha1_hex content) content r
        → Tried full content later s.out s.downloaded (received_file env tmp full o s)
    unfolding received_file
    received_file-Tried tmp full later o r s e g =
        subst (λ q. Tried full content later s.out s.downloaded (received_file env tmp full q s))
          (sym e)
          (check_file-Tried L H tmp full content (senv.sha1_hex content) r _ refl (sums content) g)

    opened_tmp-Tried :
        (tmp full : Bytes) (later : List SyncMessage) (before : D) (o : Outcome D) (s : Pass D)
        → env.disk.create tmp before ≡ o
        → o.1 ≡ none
        → s.inbox ≡ stream_messages senv path meta content ++ later
        → Tried full content later s.out s.downloaded (opened_tmp env tmp full o s)
    unfolding opened_tmp
    opened_tmp-Tried tmp full later before (d, some x) s run works i = cc works
    opened_tmp-Tried tmp full later before (d, none) s run works i =
        let (r, got, g) =
          receive_file-stream tmp later (at_start env d) refl (L.read-create before d tmp run)
            refl in
        received_file-Tried tmp full later _ r (record s { disk = d })
          (ap (λ ms. receive_file env tmp ms (at_start env d)) i ∙ got) g

    made_dir-Tried :
        (tmp full : Bytes) (later : List SyncMessage) (o : Outcome D) (s : Pass D)
        → o.1 ≡ none
        → s.inbox ≡ stream_messages senv path meta content ++ later
        → Tried full content later s.out s.downloaded (made_dir env tmp full o s)
    unfolding made_dir
    made_dir-Tried tmp full later (d, some x) s works i = cc works
    made_dir-Tried tmp full later (d, none) s works i =
        opened_tmp-Tried tmp full later d (env.disk.create tmp d) _ refl (H.creates tmp d) i

    make_dir-none : (p : Option Bytes) (d : D) → (make_dir env p d).1 ≡ none
    make_dir-none none d = refl
    make_dir-none (some p) d = H.dirs p d

    fetched :
        (dl : FileEntry W) (full : Bytes) (later out : List SyncMessage) (n tries : ℕ)
        (a : Attempt D)
        → Tried full content later out n a
        → (s : Pass D) × (elim a [
          | given_up e ↦ stopped e
          | tried true s' ↦ onward (record s' { downloaded = s'.downloaded + 1 })
          | tried false s' ↦ download_loop env tries dl full s'
        ]
            ≡ onward s)
          × IsDelivered full content later out (n + 1) s
    fetched dl full later out n tries a (s, e, i) = (
      record s { downloaded = s.downloaded + 1 },
      rw e refl,
      record {
        contents = i.contents;
        left = i.left;
        asked = i.asked;
        count = ap (λ m. m + 1) i.count;
      },
    )

    pub download_file-stream :
        (dl : FileEntry W) (later : List SyncMessage) (s : Pass D)
        → s.inbox ≡ stream_messages senv path meta content ++ later
        → (s' : Pass D) × (download_file env dl s ≡ onward s')
          × IsDelivered
              (join_path env.root dl.path)
              content
              later
              (s.out ++ json (get_file dl.path) ∷ [])
              (s.downloaded + 1)
              s'
    unfolding download_file download_loop try_download
    download_file-stream dl later s i =
        let full = join_path env.root dl.path in
        let tmp = unique_tmp full s.seq in
        let (s', run, d) = fetched dl full later _ s.downloaded 1 (try_download env dl full s) (
          made_dir-Tried tmp full later (make_dir env (parent tmp) s.disk) _
            (make_dir-none (parent tmp) s.disk) i) in
        (s', if_false _ _ _ (H.unlocked full s.disk) ∙ run, d)
