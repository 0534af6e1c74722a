-- ===== src/Sync/Transfer/Arriving.antt =====
-- sync/mod.rs, the client: the chunks of a file reach the temporary file.
use mathlib.Core.Path.{subst}
use krymux.Base.{
  ℕ, ◌+◌, ◌≤◌, ◌≡◌, refl, sym, ◌∙◌, none, some, List, [], ◌∷◌, ◌++◌, false, ◌||◌, ltb, ge→ltb,
  length, length-append, map, append-nil, append_assoc, if_both, arith,
}
use krymux.Base.Bytes.{Bytes}
use krymux.Sync.Disk.{IsLawful, Outcome}
use krymux.Sync.Protocol.{SyncMessage, bin}
use krymux.Sync.Protocol.Chunks.{join}
use krymux.Sync.Server.Installed.{IsHealthy}
use krymux.Sync.Server.State.{Env, max_file_bytes}
use krymux.Sync.Transfer.Download.{Receiving, stored_chunk, on_data_chunk, take_reply, receive_file}

module _ {D W : Type 0} (env : Env D W) where
  -- The receiving loop after these bytes of a file with this size and hash.
  pub record Going (tmp : Bytes) (size : ℕ) (hash had : Bytes) (r : Receiving D W) : Type 0 where
    pub unfailed : r.failed ≡ false
    pub has : env.disk.read r.disk tmp ≡ some had
    pub counted : length had ≡ r.received
    pub sized : r.meta_size ≡ size
    pub hashed : r.meta_hash ≡ hash

  stored_chunk-Going :
      IsLawful env.disk
      → (tmp chunk hash had : Bytes) (size : ℕ) (o : Outcome D) (r : Receiving D W)
      → env.disk.append tmp chunk r.disk ≡ o
      → o.1 ≡ none
      → length had + length chunk ≡ r.received
      → env.disk.read r.disk tmp ≡ some had
      → r.failed ≡ false
      → r.meta_size ≡ size
      → r.meta_hash ≡ hash
      → Going tmp size hash (had ++ chunk) (stored_chunk env o r)
  unfolding stored_chunk
  stored_chunk-Going L tmp chunk hash had size (d, some x) r run works n has f sz hs = cc works
  stored_chunk-Going L tmp chunk hash had size (d, none) r run works n has f sz hs = record {
    unfailed = f;
    has = L.read-append _ _ _ _ _ has run;
    counted = length-append had chunk ∙ n;
    sized = sz;
    hashed = hs;
  }

  on_data_chunk-Going :
      IsLawful env.disk
      → IsHealthy env.disk
      → (tmp chunk hash had : Bytes) (size : ℕ) (r : Receiving D W)
      → length had + length chunk ≤ size
      → size ≤ max_file_bytes
      → Going tmp size hash had r
      → Going tmp size hash (had ++ chunk) (on_data_chunk env tmp chunk r)
  unfolding on_data_chunk
  on_data_chunk-Going L H tmp chunk hash had size r fits cap g =
      let small : ltb r.meta_size (r.received + length chunk) ≡ false =
        ge→ltb _ _ (omega (arith, fits, g.counted, g.sized)) in
      let capped : ltb max_file_bytes (r.received + length chunk) ≡ false =
        ge→ltb _ _ (omega (arith, fits, cap, g.counted)) in
      if_both (Going tmp size hash (had ++ chunk)) r.failed _ _ (λ f. cc (sym f ∙ g.unfailed))
        (λ f.
          if_both (Going tmp size hash (had ++ chunk))
            (ltb r.meta_size (r.received + length chunk)
              || ltb max_file_bytes (r.received + length chunk))
            _ _ (λ over. ground (arith, over, small, capped))
            (λ ok.
              stored_chunk-Going L tmp chunk hash had size _ _ refl (H.appends tmp chunk r.disk)
                (omega (arith, g.counted)) g.has g.unfailed g.sized g.hashed))

  -- The chunks of the file, in whatever sizes.
  pub receive_file-chunks :
      IsLawful env.disk
      → IsHealthy env.disk
      → (tmp hash had : Bytes) (size : ℕ) (cs : List Bytes) (tail : List SyncMessage)
        (r : Receiving D W)
      → length had + length (join cs) ≤ size
      → size ≤ max_file_bytes
      → Going tmp size hash had r
      → (r' : Receiving D W) × (receive_file env tmp (map bin cs ++ tail) r
          ≡ receive_file env tmp tail r')
        × Going tmp size hash (had ++ join cs) r'
  unfolding receive_file take_reply
  receive_file-chunks L H tmp hash had size [] tail r fits cap g =
      (r, refl, subst (λ x. Going tmp size hash x r) (sym (append-nil had)) g)
  receive_file-chunks L H tmp hash had size (c ∷ cs) tail r fits cap g =
      let total = length-append c (join cs) in
      let step = on_data_chunk-Going L H tmp c hash had size r (omega (arith, fits, total)) cap g in
      let (r', run, g') =
        receive_file-chunks L H tmp hash (had ++ c) size cs tail (on_data_chunk env tmp c r)
          (omega (arith, fits, total, length-append had c)) cap step in
      (r', run, subst (λ x. Going tmp size hash x r') (append_assoc had c (join cs)) g')
