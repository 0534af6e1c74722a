-- ===== src/Sync/Transfer/Received.antt =====
-- sync/mod.rs, the client: what the temporary file of a download has, whatever the server sends.
use krymux.Base.{
  ℕ, ◌+◌, ◌≤◌, ◌≡◌, refl, sym, ◌∙◌, ◌⊎◌, inl, inr, Option, none, some, List, [], ◌∷◌, ◌++◌, true,
  ◌||◌, ltb, ltb→ge, length, length-append, In, here, there, if_both, ||-false_right, arith,
}
use krymux.Base.Bytes.{Bytes, codes, bytes_eq, bytes_eq→eq}
use krymux.Base.Json.{Json, index, as_u64, as_str, unwrap_or}
use krymux.Sync.Collect.{text_of}
use krymux.Sync.Disk.{IsLawful, Outcome}
use krymux.Sync.Protocol.{SyncMessage, json, bin}
use krymux.Sync.Protocol.Messages.{t_file_meta, t_file_done, t_file_error}
use krymux.Sync.Server.State.{Env, max_file_bytes}
use krymux.Sync.Transfer.Download.{
  Receiving, Reply, more, ended, on_reply, stored_chunk, on_data_chunk, take_reply, receive_file,
}

-- A `file_meta` that was heard announced this size and hash, or none was heard.
abbrev pub Announced : (SyncMessage → Type 0) → ℕ → Bytes → Type 0
Announced heard size hash =
    ((size ≡ 0) × (hash ≡ []))
    ⊎ ((m : Json) × heard (json m)
        × (text_of m ≡ t_file_meta)
        × (unwrap_or (as_u64 (index m (codes "size"))) 0 ≡ size)
        × (unwrap_or (as_str (index m (codes "hash"))) [] ≡ hash))

abbrev pub AllHeard : (SyncMessage → Type 0) → List SyncMessage → Type 0
AllHeard heard ms = (m : SyncMessage) → In m ms → heard m

module _ {D W : Type 0} (env : Env D W) (heard : SyncMessage → Type 0) where
  -- The file at `full` has the announced size, at most 8 GiB, and the announced hash, if there is one.
  pub record Delivered (full : Bytes) (d : D) : Type 0 where
    pub content : Bytes
    pub size : ℕ
    pub hash : Bytes
    pub contents : env.disk.read d full ≡ some content
    pub measured : length content ≡ size
    pub capped : size ≤ max_file_bytes
    pub matched : (hash ≡ []) ⊎ (env.sha1_hex content ≡ hash)
    pub announced : Announced heard size hash

  -- The temporary file has what was received.
  abbrev pub Kept : Bytes → Receiving D W → Type 0
  Kept tmp r =
      (content : Bytes) × (env.disk.read r.disk tmp ≡ some content)
      × (length content ≡ r.received)
      × (r.received ≤ max_file_bytes)

  pub record IsSound (tmp : Bytes) (r : Receiving D W) : Type 0 where
    pub kept : (r.failed ≡ true) ⊎ Kept tmp r
    pub said : Announced heard r.meta_size r.meta_hash

  abbrev Replied : Bytes → Reply D W → Type 0
  Replied tmp (more r) = IsSound tmp r
  Replied tmp (ended r) = IsSound tmp r

  on_reply-Replied :
      (tmp : Bytes) (m : Json) (r : Receiving D W)
      → heard (json m)
      → IsSound tmp r
      → Replied tmp (on_reply env m r)
  unfolding on_reply
  on_reply-Replied tmp m r h i =
      if_both (Replied tmp) (bytes_eq (text_of m) t_file_meta) _ _
        (λ e. record { kept = i.kept; said = inr (m, h, bytes_eq→eq _ _ e, refl, refl) })
        (λ e.
          if_both (Replied tmp) (bytes_eq (text_of m) t_file_done) _ _ (λ e1. i)
            (λ e1.
              if_both (Replied tmp) (bytes_eq (text_of m) t_file_error) _ _
                (λ e2. record { kept = inl refl; said = i.said }) (λ e2. i)))

  stored_chunk-IsSound :
      IsLawful env.disk
      → (tmp chunk : Bytes) (o : Outcome D) (r : Receiving D W) (content : Bytes)
      → env.disk.append tmp chunk r.disk ≡ o
      → env.disk.read r.disk tmp ≡ some content
      → length content + length chunk ≡ r.received
      → r.received ≤ max_file_bytes
      → Announced heard r.meta_size r.meta_hash
      → IsSound tmp (stored_chunk env o r)
  unfolding stored_chunk
  stored_chunk-IsSound L tmp chunk (d, none) r content run has n cap a = record {
    kept =
        inr
          (content ++ chunk, L.read-append _ _ _ _ _ has run, length-append content chunk ∙ n, cap);
    said = a;
  }
  stored_chunk-IsSound L tmp chunk (d, some e) r content run has n cap a = record {
    kept = inl refl;
    said = a;
  }

  on_data_chunk-IsSound :
      IsLawful env.disk
      → (tmp chunk : Bytes) (r : Receiving D W) → IsSound tmp r
      → IsSound tmp (on_data_chunk env tmp chunk r)
  unfolding on_data_chunk
  on_data_chunk-IsSound L tmp chunk r i =
      if_both (IsSound tmp) r.failed _ _ (λ f. i)
        (λ f.
          if_both (IsSound tmp)
            (ltb r.meta_size (r.received + length chunk)
              || ltb max_file_bytes (r.received + length chunk))
            _ _ (λ over. record { kept = inl refl; said = i.said })
            (λ fits. elim i.kept [
              | inl failed ↦ cc (sym f ∙ failed)
              | inr (content, has, n, cap) ↦
                  stored_chunk-IsSound L tmp chunk (env.disk.append tmp chunk r.disk) _ content refl
                    has (omega (arith, n)) (ltb→ge _ _ (||-false_right _ _ fits)) i.said
            ]))

  take_reply-Replied :
      IsLawful env.disk
      → (tmp : Bytes) (m : SyncMessage) (r : Receiving D W) → heard m
      → IsSound tmp r
      → Replied tmp (take_reply env tmp m r)
  unfolding take_reply
  take_reply-Replied L tmp (json m) r h i = on_reply-Replied tmp m r h i
  take_reply-Replied L tmp (bin chunk) r h i = on_data_chunk-IsSound L tmp chunk r i

  abbrev pub Got : Bytes → Option (Receiving D W × List SyncMessage) → Type 0
  Got tmp none = Unit
  Got tmp (some (r, ms)) = IsSound tmp r × AllHeard heard ms

  next-Got :
      (tmp : Bytes) (a : Reply D W) (ms : List SyncMessage)
      → AllHeard heard ms
      → ((r : Receiving D W) → IsSound tmp r → Got tmp (receive_file env tmp ms r))
      → Replied tmp a
      → Got tmp (elim a [ more r ↦ receive_file env tmp ms r | ended r ↦ some (r, ms) ])
  next-Got tmp (more r) ms h k i = k r i
  next-Got tmp (ended r) ms h k i = (i, h)

  pub receive_file-Got :
      IsLawful env.disk
      → (tmp : Bytes) (ms : List SyncMessage) (r : Receiving D W) → AllHeard heard ms
      → IsSound tmp r
      → Got tmp (receive_file env tmp ms r)
  unfolding receive_file
  receive_file-Got L tmp [] r h i = tt
  receive_file-Got L tmp (m ∷ ms) r h i =
      let later : AllHeard heard ms = λ n j. h n (there j) in
      next-Got tmp (take_reply env tmp m r) ms later
        (λ r' i'. receive_file-Got L tmp ms r' later i') (take_reply-Replied L tmp m r (h m here) i)
