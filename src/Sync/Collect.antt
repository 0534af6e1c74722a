-- ===== src/Sync/Collect.antt =====
-- sync/mod.rs, the start of `run_sync_client`: the handshake, and the listing that the server sends.
-- A pass reads its messages in order; where the list of messages ends, the stream has ended or stalled.
-- What the client writes, `hello` and `request_scan`, goes out before the answers and is left out here.
pub mod Bounds
pub mod Listed
mod Tests
use krymux.Base.{
  ℕ, ◌+◌, ◌*◌, List, [], ◌∷◌, ◌++◌, Option, none, some, Bool, true, false, not, ◌&&◌, ltb, leb,
  if◌then◌else◌, length, Result, ok, err,
}
use krymux.Base.Bytes.{Bytes, codes, bytes_eq}
use krymux.Base.Json.{
  Json, null, bool, number, other_number, string, array, object, get, index, as_str, as_u64,
  as_array, as_object, unwrap_or,
}
use krymux.Base.Maps.{insert_key}
use krymux.Sync.Float.{Float}
use krymux.Sync.Protocol.{SyncMessage, json, bin}
use krymux.Sync.Protocol.Messages.{
  t_hello_ack, t_scan_ready, t_scan_batch, t_scan_end, t_tombstone_batch, t_tombstone_end, hello,
  request_scan,
}
use krymux.Sync.Scanner.{FileEntry}

abbrev pub max_scan_files : ℕ
max_scan_files = 1000000

pub data PassError : Type 0 where
  stream_ended : PassError
  scan_failed : PassError
  expected_json : PassError
  bad_handshake : PassError
  bad_scan_ready : PassError
  files_exceed : PassError
  tombstones_exceed : PassError

abbrev pub Tombs : Type 0
Tombs = List (Bytes × ℕ)

pub record Listing (W : Type 0) : Type 0 where
  pub server_files : List (FileEntry W)
  pub server_tombs : Tombs
  pub server_knows_tombstones : Bool
  pub scan_done : Bool
  pub tombs_done : Bool

unfoldable pub with_tomb : Bytes → Option ℕ → Tombs → Tombs
with_tomb p none m = m
with_tomb p (some ms) m = insert_key m p ms

abbrev pub text_of : Json → Bytes
text_of m = unwrap_or (as_str (index m (codes "t"))) []

abbrev pub object_at : Json → Bytes → Option (List (Bytes × Json))
object_at m k = elim (get m k) [ none ↦ none | some v ↦ as_object v ]

-- The legacy form of `scan_ready`, which holds all tombstones.
unfoldable pub inline_tombs : List (Bytes × Json) → Tombs → Tombs
inline_tombs [] m = m
inline_tombs ((p, v) ∷ es) m = inline_tombs es (with_tomb p (as_u64 v) m)

module _ {W : Type 0} (from_value : Json → Option (FileEntry W)) where
  unfoldable pub with_entry : Option (FileEntry W) → Listing W → Listing W
  with_entry none c = c
  with_entry (some e) c = record c { server_files = c.server_files ++ e ∷ [] }

  unfoldable pub add_files : List Json → Listing W → Result PassError (Listing W)
  add_files [] c = ok c
  add_files (f ∷ fs) c =
      let later = add_files fs (with_entry (from_value f) c) in
      if leb max_scan_files (length c.server_files) then err files_exceed else later

  unfoldable pub add_tombs : List (Bytes × Json) → Listing W → Result PassError (Listing W)
  add_tombs [] c = ok c
  add_tombs ((p, v) ∷ es) c =
      let tombs = with_tomb p (as_u64 v) c.server_tombs in
      let later = add_tombs es record c { server_tombs = tombs } in
      if ltb max_scan_files (length tombs) then err tombstones_exceed else later

  abbrev pub add_all_files : Option (List Json) → Listing W → Result PassError (Listing W)
  add_all_files none c = ok c
  add_all_files (some fs) c = add_files fs c

  abbrev pub add_all_tombs : Option (List (Bytes × Json)) → Listing W → Result PassError (Listing W)
  add_all_tombs none c = ok c
  add_all_tombs (some es) c = add_tombs es c

  unfoldable pub collect_json : Json → Listing W → Result PassError (Listing W)
  collect_json m c =
      if bytes_eq (text_of m) t_scan_batch
      then add_all_files (as_array (index m (codes "files"))) c
      else if bytes_eq (text_of m) t_scan_end
      then ok record c { scan_done = true }
      else if bytes_eq (text_of m) t_tombstone_batch
      then add_all_tombs (object_at m (codes "entries")) c
      else if bytes_eq (text_of m) t_tombstone_end
      then ok record c { tombs_done = true; server_knows_tombstones = true }
      else ok c

  -- The loop, which leaves what came after the listing.
  unfoldable pub collect :
      List SyncMessage → Listing W → Result PassError (Listing W × List SyncMessage)
  collect [] c = err stream_ended
  collect (bin b ∷ ms) c = err expected_json
  collect (json m ∷ ms) c = elim (collect_json m c) [
    | err e ↦ err e
    | ok c' ↦ if c'.scan_done && c'.tombs_done then ok (c', ms) else collect ms c'
  ]

  abbrev pub is_marker : Option Json → Bool
  is_marker none = false
  is_marker (some (object fs)) = false
  is_marker (some v) = true

  unfoldable pub first_listing : Json → Option (List (Bytes × Json)) → Listing W
  first_listing scan_ready inline = record {
    server_files = [];
    server_tombs = elim inline [ none ↦ [] | some es ↦ inline_tombs es [] ];
    server_knows_tombstones = elim inline [ none ↦ false | some es ↦ true ];
    scan_done = false;
    tombs_done = not (is_marker (get scan_ready (codes "tombstones")));
  }

  unfoldable pub on_scan_ready :
      Json → List SyncMessage → Result PassError (Listing W × List SyncMessage)
  on_scan_ready scan_ready ms =
      if not (bytes_eq (text_of scan_ready) t_scan_ready)
      then err bad_scan_ready
      else if ltb max_scan_files (unwrap_or (as_u64 (index scan_ready (codes "count"))) 0)
      then err files_exceed
      else collect ms (first_listing scan_ready (object_at scan_ready (codes "tombstones")))

  -- What the handshake settles, and the listing.
  pub record Greeted : Type 0 where
    pub mode : Bytes
    pub time_offset_ms : W
    pub listing : Listing W
    pub later : List SyncMessage

  unfoldable pub greeted :
      Bytes → W → Result PassError (Listing W × List SyncMessage) → Result PassError Greeted
  greeted mode offset (err e) = err e
  greeted mode offset (ok (c, ms)) =
      ok record { mode = mode; time_offset_ms = offset; listing = c; later = ms }

  unfoldable pub after_ack : List SyncMessage → Result PassError (Listing W × List SyncMessage)
  after_ack [] = err stream_ended
  after_ack (bin b ∷ ms) = err expected_json
  after_ack (json m ∷ ms) = on_scan_ready m ms

  -- `now` is the client's clock at the acknowledgement.
  unfoldable pub handshake : Float W → ℕ → Bytes → List SyncMessage → Result PassError Greeted
  handshake F now mode [] = err stream_ended
  handshake F now mode (bin b ∷ ms) = err expected_json
  handshake F now mode (json ack ∷ ms) =
      if not (bytes_eq (text_of ack) t_hello_ack)
      then err bad_handshake
      else greeted (unwrap_or (as_str (index ack (codes "mode"))) mode)
          (F.sub (F.of_nat (unwrap_or (as_u64 (index ack (codes "serverTime"))) 0)) (F.of_nat now))
          (after_ack ms)
