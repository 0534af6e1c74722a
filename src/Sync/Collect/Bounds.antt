-- ===== src/Sync/Collect/Bounds.antt =====
-- sync/mod.rs: the listing that a client collects stays within its cap.
use krymux.Base.{
  ◌≤◌, ◌≡◌, List, [], ◌∷◌, Option, none, some, false, leb, ltb, length, length-append, Result, ok,
  err, if_both, if◌then◌else◌, ◌&&◌, arith,
}
use krymux.Base.Bytes.{Bytes, codes, bytes_eq}
use krymux.Base.Json.{Json, index, as_array, as_u64}
use krymux.Sync.Collect.{
  Listing, PassError, with_entry, with_tomb, add_files, add_tombs, add_all_files, add_all_tombs,
  collect_json, collect, max_scan_files, text_of, object_at,
}
use krymux.Sync.Protocol.{SyncMessage, json, bin}
use krymux.Sync.Protocol.Messages.{t_scan_batch, t_scan_end, t_tombstone_batch, t_tombstone_end}
use krymux.Sync.Scanner.{FileEntry}

module _ {W : Type 0} where
  abbrev pub IsCapped : Listing W → Type 0
  IsCapped c = length c.server_files ≤ max_scan_files

  abbrev pub Capped : Result PassError (Listing W) → Type 0
  Capped (err e) = Unit
  Capped (ok c) = IsCapped c

  abbrev pub Collected : Result PassError (Listing W × List SyncMessage) → Type 0
  Collected (err e) = Unit
  Collected (ok (c, ms)) = IsCapped c

module _ {W : Type 0} (from_value : Json → Option (FileEntry W)) where
  with_entry-IsCapped :
      (o : Option (FileEntry W)) (c : Listing W)
      → leb max_scan_files (length c.server_files) ≡ false
      → IsCapped (with_entry from_value o c)
  unfolding with_entry
  with_entry-IsCapped none c e = ground (arith, e)
  with_entry-IsCapped (some f) c e = ground (arith, e, length-append c.server_files (f ∷ []))

  add_files-Capped :
      (fs : List Json) (c : Listing W) → IsCapped c → Capped (add_files from_value fs c)
  unfolding add_files
  add_files-Capped [] c h = h
  add_files-Capped (f ∷ fs) c h =
      if_both Capped (leb max_scan_files (length c.server_files)) _ _ (λ e. tt)
        (λ e. add_files-Capped fs _ (with_entry-IsCapped (from_value f) c e))

  add_tombs-Capped :
      (es : List (Bytes × Json)) (c : Listing W) → IsCapped c → Capped (add_tombs from_value es c)
  unfolding add_tombs
  add_tombs-Capped [] c h = h
  add_tombs-Capped ((p, v) ∷ es) c h =
      if_both Capped (ltb max_scan_files (length (with_tomb p (as_u64 v) c.server_tombs))) _ _
        (λ e. tt) (λ e. add_tombs-Capped es _ h)

  all_files-Capped :
      (o : Option (List Json)) (c : Listing W) → IsCapped c → Capped (add_all_files from_value o c)
  all_files-Capped none c h = h
  all_files-Capped (some fs) c h = add_files-Capped fs c h

  all_tombs-Capped :
      (o : Option (List (Bytes × Json))) (c : Listing W)
      → IsCapped c
      → Capped (add_all_tombs from_value o c)
  all_tombs-Capped none c h = h
  all_tombs-Capped (some es) c h = add_tombs-Capped es c h

  collect_json-Capped :
      (m : Json) (c : Listing W) → IsCapped c → Capped (collect_json from_value m c)
  unfolding collect_json
  collect_json-Capped m c h =
      if_both Capped (bytes_eq (text_of m) t_scan_batch) _ _
        (λ e. all_files-Capped (as_array (index m (codes "files"))) c h)
        (λ e.
          if_both Capped (bytes_eq (text_of m) t_scan_end) _ _ (λ e1. h)
            (λ e1.
              if_both Capped (bytes_eq (text_of m) t_tombstone_batch) _ _
                (λ e2. all_tombs-Capped (object_at m (codes "entries")) c h)
                (λ e2.
                  if_both Capped (bytes_eq (text_of m) t_tombstone_end) _ _ (λ e3. h) (λ e3. h))))

  next-Collected :
      (r : Result PassError (Listing W)) (ms : List SyncMessage)
      → ((c : Listing W) → IsCapped c → Collected (collect from_value ms c))
      → Capped r
      → Collected (elim r [
        | err e ↦ err e
        | ok c ↦ if c.scan_done && c.tombs_done then ok (c, ms) else collect from_value ms c
      ])
  next-Collected (err e) ms k h = tt
  next-Collected (ok c) ms k h =
      if_both Collected (c.scan_done && c.tombs_done) _ _ (λ e. h) (λ e. k c h)

  -- Whatever the server sends, a listing within the cap that is collected on stays within it.
  pub collect-Collected :
      (ms : List SyncMessage) (c : Listing W) → IsCapped c → Collected (collect from_value ms c)
  unfolding collect
  collect-Collected [] c h = tt
  collect-Collected (bin b ∷ ms) c h = tt
  collect-Collected (json m ∷ ms) c h =
      next-Collected (collect_json from_value m c) ms (collect-Collected ms)
        (collect_json-Capped m c h)
