-- ===== src/Sync/Server/Steps.antt =====
-- sync/mod.rs, `handle_sync_server`: a predicate that each handler keeps holds at the end of a session.
use krymux.Base.{ℕ, Option, List, [], ◌∷◌, Result, ok, err, if_both}
use krymux.Base.Bytes.{Bytes, codes, bytes_eq}
use krymux.Base.Json.{Json, index, as_str, unwrap_or}
use krymux.Sync.Protocol.{SyncMessage, json, bin, SyncParser, SyncError, push}
use krymux.Sync.Protocol.Messages.{
  t_hello, t_request_scan, t_get_file, t_delete_file, t_put_start, t_put_done, t_sync_complete,
}
use krymux.Sync.Server.Files.{handle_get_file, handle_delete_file}
use krymux.Sync.Server.Kept.{Holds}
use krymux.Sync.Server.Scan.{handle_hello, request_scan}
use krymux.Sync.Server.Session.{
  handle_json, handle_message, next_after, handle_batch, parsed_or_broken, serve,
}
use krymux.Sync.Server.State.{Env, Session, Handling, going, finished, broken}
use krymux.Sync.Server.Upload.{handle_put_start, handle_put_done, handle_bin}

module _ {D W : Type 0} (env : Env D W) (P : Session D W → Type 0) where
  -- What each handler does with one state.
  pub record Handles (now : ℕ) (s : Session D W) : Type 0 where
    pub hello : (m : Json) → Holds P (handle_hello env now m s)
    pub scan : Holds P (request_scan env now s)
    pub get : (m : Json) → Holds P (handle_get_file env m s)
    pub delete : (m : Json) → P (handle_delete_file env now m s)
    pub start : (m : Json) → P (handle_put_start env m s)
    pub done : P (handle_put_done env s)
    pub chunk : (b : Bytes) → P (handle_bin env b s)

  handle_json-Holds :
      (now : ℕ) (m : Json) (s : Session D W)
      → P s
      → Handles now s
      → Holds P (handle_json env now m s)
  unfolding handle_json
  handle_json-Holds now m s i h =
      let t = unwrap_or (as_str (index m (codes "t"))) [] in
      if_both (Holds P) (bytes_eq t t_hello) _ _ (λ e. h.hello m)
        (λ e.
          if_both (Holds P) (bytes_eq t t_request_scan) _ _ (λ e. h.scan)
            (λ e.
              if_both (Holds P) (bytes_eq t t_get_file) _ _ (λ e. h.get m)
                (λ e.
                  if_both (Holds P) (bytes_eq t t_delete_file) _ _ (λ e. h.delete m)
                    (λ e.
                      if_both (Holds P) (bytes_eq t t_put_start) _ _ (λ e. h.start m)
                        (λ e.
                          if_both (Holds P) (bytes_eq t t_put_done) _ _ (λ e. h.done)
                            (λ e.
                              if_both (Holds P) (bytes_eq t t_sync_complete) _ _ (λ e. i)
                                (λ e. i)))))))

  pub handle_message-Holds :
      (now : ℕ) (m : SyncMessage) (s : Session D W)
      → P s
      → Handles now s
      → Holds P (handle_message env now m s)
  unfolding handle_message
  handle_message-Holds now (json m) s i h = handle_json-Holds now m s i h
  handle_message-Holds now (bin b) s i h = h.chunk b

  next_after-Holds :
      (a : Handling D W) (k : Session D W → Handling D W)
      → Holds P a
      → ((s : Session D W) → P s → Holds P (k s))
      → Holds P (next_after env a k)
  unfolding next_after
  next_after-Holds (going s) k i f = f s i
  next_after-Holds (finished s) k i f = i
  next_after-Holds (broken s) k i f = i

  handle_batch-Holds :
      ((now : ℕ) (s : Session D W) → P s → Handles now s)
      → (now : ℕ) (ms : List SyncMessage) (s : Session D W) → P s
      → Holds P (handle_batch env now ms s)
  unfolding handle_batch
  handle_batch-Holds f now [] s i = i
  handle_batch-Holds f now (m ∷ ms) s i =
      next_after-Holds (handle_message env now m s) _ (handle_message-Holds now m s i (f now s i))
        (λ t j. handle_batch-Holds f now ms t j)

  parsed-Holds :
      (r : Result SyncError (List SyncMessage)) (s : Session D W)
      (k : List SyncMessage → Handling D W)
      → P s
      → ((ms : List SyncMessage) → Holds P (k ms))
      → Holds P (parsed_or_broken env r s k)
  parsed-Holds (ok ms) s k i f = f ms
  parsed-Holds (err e) s k i f = i

  pub serve-Holds :
      ((now : ℕ) (s : Session D W) → P s → Handles now s)
      → (from_slice : Bytes → Option Json) (now : ℕ) (p : SyncParser) (ms : List SyncMessage)
        (reads : List (ℕ × Bytes)) (s : Session D W)
      → P s
      → Holds P (serve env from_slice now p ms reads s)
  unfolding serve
  serve-Holds f from_slice now p ms [] s i =
      next_after-Holds (handle_batch env now ms s) _ (handle_batch-Holds f now ms s i) (λ t j. j)
  serve-Holds f from_slice now p ms ((later, chunk) ∷ reads) s i =
      next_after-Holds (handle_batch env now ms s) _ (handle_batch-Holds f now ms s i) (λ t j.
        parsed-Holds (push from_slice p chunk).1 t _ j
          (λ ns. serve-Holds f from_slice later (push from_slice p chunk).0 ns reads t j))
