-- ===== src/Sync/Server/Untouched.antt =====
-- sync/mod.rs: a server in the mode `readonly` changes no file of its tree.
use krymux.Base.{ℕ, ◌≡◌, sym, ap, ◌∙◌, inl, inr, Option, none, some, List, true, if_both}
use krymux.Base.Bytes.{Bytes, codes, bytes_eq, bytes_eq→eq}
use krymux.Base.Json.{Json}
use krymux.Sync.Plan.{readonly}
use krymux.Sync.Protocol.{SyncMessage, SyncParser}
use krymux.Sync.Server.Files.{handle_delete_file}
use krymux.Sync.Server.Kept.{
  Holds, Holds-imp, Greeted, handle_get_file-Same, handle_hello-Greeted, request_scan-Kept,
}
use krymux.Sync.Server.Session.{serve}
use krymux.Sync.Server.State.{Env, Session, IncomingFile, flush_tombstones}
use krymux.Sync.Server.Steps.{serve-Holds}
use krymux.Sync.Server.Upload.{
  receive_chunk, finish_put, handle_put_start, handle_put_done, handle_bin,
}

not-both : (mode : Bytes) → bytes_eq mode readonly ≡ true → ¬ (bytes_eq mode (codes "bidir") ≡ true)
not-both mode r b = cc (sym b ∙ ap (λ x. bytes_eq x (codes "bidir")) (bytes_eq→eq mode readonly r))

module _ {D W : Type 0} (env : Env D W) (P : D → Type 0) where
  -- The mode is `readonly`, no upload is in flight, and the disk meets the predicate.
  pub record IsReadonly (s : Session D W) : Type 0 where
    pub mode : bytes_eq s.mode readonly ≡ true
    pub idle : s.incoming ≡ none
    pub tree : P s.disk

  moved : (d e : D) → e ≡ d → P d → P e
  moved d e q h = rw q h

  hello-IsReadonly :
      ((now : ℕ) (s : Session D W) → P s.disk → P (flush_tombstones env now s).disk)
      → ((d : D) → P d → P (env.scan_and_hash d).0)
      → (now : ℕ) (s t : Session D W) → Greeted env now s t
      → IsReadonly s
      → IsReadonly t
  hello-IsReadonly f c now s t g i = record {
    mode = elim g.mode [ inl e ↦ rw e i.mode | inr e ↦ absurd (not-both s.mode i.mode e) ];
    idle = g.upload ∙ i.idle;
    tree = elim g.disk [
      | inl e ↦ moved s.disk t.disk e i.tree
      | inr e ↦ moved _ t.disk e (c (flush_tombstones env now s).disk (f now s i.tree))
    ];
  }

  Same-IsReadonly :
      (s t : Session D W)
      → t.mode ≡ s.mode
      → t.incoming ≡ s.incoming
      → P t.disk
      → IsReadonly s
      → IsReadonly t
  Same-IsReadonly s t a b h i = record { mode = rw a i.mode; idle = b ∙ i.idle; tree = h }

  finish-IsReadonly :
      (o : Option (IncomingFile W)) (s : Session D W)
      → o ≡ none
      → IsReadonly s
      → IsReadonly (finish_put env o s)
  unfolding finish_put
  finish-IsReadonly none s e i = i
  finish-IsReadonly (some inc) s e i = cc e

  receive-IsReadonly :
      (o : Option (IncomingFile W)) (chunk : Bytes) (s : Session D W)
      → o ≡ none
      → IsReadonly s
      → IsReadonly (receive_chunk env o chunk s)
  unfolding receive_chunk
  receive-IsReadonly none chunk s e i = i
  receive-IsReadonly (some inc) chunk s e i = cc e

  -- In a session of a server whose mode is `readonly`, whatever the client sends, the mode stays so,
  -- no upload begins, and every predicate on the disk that a save of the tombstones and the cache of
  -- a scan keep is kept by the session: nothing else writes to the disk.
  pub serve-IsReadonly :
      ((now : ℕ) (s : Session D W) → P s.disk → P (flush_tombstones env now s).disk)
      → ((d : D) → P d → P (env.scan_and_hash d).0)
      → (from_slice : Bytes → Option Json) (now : ℕ) (p : SyncParser) (ms : List SyncMessage)
        (reads : List (ℕ × Bytes)) (s : Session D W)
      → IsReadonly s
      → Holds IsReadonly (serve env from_slice now p ms reads s)
  unfolding handle_bin handle_put_done handle_put_start handle_delete_file
  serve-IsReadonly f c = serve-Holds env IsReadonly λ now s i. record {
    hello = λ m.
        Holds-imp _ IsReadonly _ (λ t g. hello-IsReadonly f c now s t g i)
          (handle_hello-Greeted env now m s);
    scan =
        Holds-imp _ IsReadonly _
          (λ t k.
            Same-IsReadonly s t k.0.0 k.0.1
              (elim k.1 [
                | inl e ↦ moved s.disk t.disk e i.tree
                | inr e ↦ moved _ t.disk e (f now s i.tree)
              ])
              i)
          (request_scan-Kept env now s);
    get = λ m.
        Holds-imp _ IsReadonly _
          (λ t k. Same-IsReadonly s t k.2 k.3 (moved s.disk t.disk k.0 i.tree) i)
          (handle_get_file-Same env m s);
    delete = λ m.
        if_both IsReadonly (bytes_eq s.mode readonly) _ _
          (λ e. record { mode = i.mode; idle = i.idle; tree = i.tree }) (λ e. cc (sym i.mode ∙ e));
    start = λ m.
        if_both IsReadonly (bytes_eq s.mode readonly) _ _
          (λ e. record { mode = i.mode; idle = i.idle; tree = i.tree }) (λ e. cc (sym i.mode ∙ e));
    done = finish-IsReadonly s.incoming s i.idle i;
    chunk = λ b. receive-IsReadonly s.incoming b s i.idle i;
  }
