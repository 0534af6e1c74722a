-- ===== src/Mux/Given.antt =====
-- mux.rs, `outbound_pump`: what a read of the application gives the pump, and what a DATA frame carries.
use krymux.Base.{
  ℕ, ◌<◌, ◌≡◌, refl, ap, ◌∙◌, List, [], ◌∷◌, drop, not, ◌&&◌, ◌||◌, is_empty, ◌++◌, Option, some,
  none, Bool, true, false, ◌==◌, leb, if◌then◌else◌, length, arith, Bool-cases, inl, inr,
  append-nil,
}
use krymux.Base.Bytes.{Bytes, bytes_eq}
use krymux.Compress.{algo_none, looks_precompressed}
use krymux.Frame.{encode_frame, frame_header, ft_data}
use krymux.Mux.State.{Shared}
use krymux.Mux.Outbound.{
  Chunk, OutPhase, reading, finished, first_charge, first_send, rest_charge, split, split_send,
  closing, OutPump, ReadEvent, got, read_eof, read_error, to_phase, start_chunk, sniff,
  compress_chunk, read_chunk,
}
use krymux.Mux.Sending.{unsent, debt, piece, frames, Fits}

-- The payload of a DATA frame, behind its header of ten bytes; other frames have none of the stream's.
abbrev pub payload_of : Bytes → Bytes
payload_of [] = []
payload_of (t ∷ rest) = if t == ft_data then drop 9 rest else []

abbrev pub payloads : List Bytes → Bytes
payloads [] = []
payloads (f ∷ fs) = payload_of f ++ payloads fs

pub append_left : {A : Type 0} (xs ys zs : List A) → xs ++ ys ≡ xs ++ zs → ys ≡ zs
append_left [] ys zs e = e
append_left (x ∷ xs) ys zs e = append_left xs ys zs (ground (arith, e))

payload_of-data : (flags id : ℕ) (p : Bytes) → payload_of (encode_frame ft_data flags id p) ≡ p
unfolding encode_frame frame_header
payload_of-data flags id p = refl

-- The frames of a phase carry its piece.
pub payloads-frames : (sh : Shared) (r : ℕ) (a : OutPhase) → payloads (frames sh r a) ≡ piece a
unfolding encode_frame frame_header
payloads-frames sh r reading = refl
payloads-frames sh r finished = refl
payloads-frames sh r (first_charge c) = refl
payloads-frames sh r (first_send c charged) = append-nil c.wire
payloads-frames sh r (rest_charge n charged) = refl
payloads-frames sh r (split c charged off limit) = refl
payloads-frames sh r (split_send c charged off limit) = append-nil _
payloads-frames sh r (closing true) = refl
payloads-frames sh r (closing false) = refl

module _ {C : Type 0} (push : C → Bytes → Option (Bytes × C)) (raw : C) where
  start-Fits :
      (sh : Shared) (p : OutPump C) (c : Chunk)
      → 0 < c.logical
      → Fits sh.peer_max_data (start_chunk sh p c).phase
  unfolding start_chunk to_phase
  start-Fits sh p c h = elim (Bool-cases (length c.wire == 0)) [
    | inl e ↦ rw e _
    | inr ne ↦ elim (Bool-cases (leb (length c.wire) sh.peer_max_data)) [
      | inl le ↦ rw (ne, le) (h, ground arith)
      | inr gt ↦ rw (ne, gt) (omega arith, (refl, h))
    ]
  ]

  If-Fits :
      (limit : ℕ) (b : Bool) (x y : OutPump C)
      → Fits limit x.phase
      → Fits limit y.phase
      → let q : OutPump C = if b then x else y in Fits limit q.phase
  If-Fits limit true x y hx hy = hx
  If-Fits limit false x y hx hy = hy

  answer-Fits :
      (sh : Shared) (p : OutPump C) (n : ℕ) (o : Option (Bytes × C))
      → 0 < n
      → let q : OutPump C = elim o [
        | none ↦ to_phase p (closing false)
        | some (w, comp) ↦
            start_chunk sh
              (record p { comp = comp })
              (record { logical = n; wire = w; compressed = true })
      ] in
        Fits sh.peer_max_data q.phase
  unfolding to_phase
  answer-Fits sh p n none h = _
  answer-Fits sh p n (some (w, comp)) h = start-Fits sh _ _ h

  compress-Fits :
      (sh : Shared) (r : ℕ) (p : OutPump C) (buf : Bytes)
      → 0 < length buf
      → Fits sh.peer_max_data (compress_chunk push raw sh r p buf).phase
  unfolding compress_chunk to_phase
  compress-Fits sh r p buf h =
      If-Fits sh.peer_max_data _ _ _ (answer-Fits sh p (length buf) (push p.comp buf) h)
        (start-Fits sh p _ h)

  -- A read puts the pump into a phase that fits the frames of the peer.
  pub read-Fits :
      (sh : Shared) (r : ℕ) (p : OutPump C) (ev : ReadEvent)
      → Fits sh.peer_max_data (read_chunk push raw sh r p ev).phase
  unfolding read_chunk to_phase
  read-Fits sh r p read_eof = _
  read-Fits sh r p read_error = _
  read-Fits sh r p (got []) = _
  read-Fits sh r p (got (b ∷ bs)) =
      compress-Fits sh r (sniff push raw sh r p (b ∷ bs)) (b ∷ bs) (omega arith)

  -- Does a chunk go through the codec: the stream has one, and neither this chunk nor an earlier one
  -- was found compressed already.
  abbrev pub is_coded : Shared → ℕ → OutPump C → Bytes → Bool
  is_coded sh r p buf =
      not (bytes_eq (sh.heap r).compression algo_none)
      && not (p.bypassed || (not p.sniffed && looks_precompressed buf))

  -- What a codec's answer gives for the wire, for a chunk of `n` bytes.
  abbrev pub answered : ℕ → Option (Bytes × C) → Bytes × ℕ
  answered n none = ([], 0)
  answered n (some (w, comp)) = (w, if is_empty w then 0 else n)

  -- What a read gives for the wire, and the logical bytes that it stands for.
  abbrev pub given : Shared → ℕ → OutPump C → ReadEvent → Bytes × ℕ
  given sh r p read_eof = ([], 0)
  given sh r p read_error = ([], 0)
  given sh r p (got []) = ([], 0)
  given sh r p (got (b ∷ bs)) =
      let buf = b ∷ bs in
      if is_coded sh r p buf then answered (length buf) (push p.comp buf) else (buf, length buf)

  -- What a phase has before it.
  abbrev pub ahead : OutPhase → Bytes × ℕ
  ahead a = (unsent a, debt a)

  start-ahead :
      (sh : Shared) (p : OutPump C) (n : ℕ) (w : Bytes) (k : Bool)
      → ahead (start_chunk sh p (record { logical = n; wire = w; compressed = k })).phase
        ≡ (w, if is_empty w then 0 else n)
  unfolding start_chunk to_phase
  start-ahead sh p n [] k = refl
  start-ahead sh p n (x ∷ xs) k =
      let some_wire : (length (x ∷ xs) == 0) ≡ false = ground arith in
      elim (Bool-cases (leb (length (x ∷ xs)) sh.peer_max_data)) [
        | inl le ↦ rw (some_wire, le) refl
        | inr gt ↦ rw (some_wire, gt) (ap (λ m. (x ∷ xs, m)) (omega arith))
      ]

  if-ahead :
      (b : Bool) (x y : OutPump C) (u v : Bytes × ℕ)
      → ahead x.phase ≡ u
      → ahead y.phase ≡ v
      → let q : OutPump C = if b then x else y in ahead q.phase ≡ (if b then u else v)
  if-ahead true x y u v hx hy = hx
  if-ahead false x y u v hx hy = hy

  answer-ahead :
      (sh : Shared) (p : OutPump C) (n : ℕ) (o : Option (Bytes × C))
      → let q : OutPump C = elim o [
        | none ↦ to_phase p (closing false)
        | some (w, comp) ↦
            start_chunk sh
              (record p { comp = comp })
              (record { logical = n; wire = w; compressed = true })
      ] in
        ahead q.phase ≡ answered n o
  unfolding to_phase
  answer-ahead sh p n none = refl
  answer-ahead sh p n (some (w, comp)) = start-ahead sh _ n w true

  compress-given :
      (sh : Shared) (r : ℕ) (p : OutPump C) (b : ℕ) (bs : Bytes)
      → ahead (compress_chunk push raw sh r p (b ∷ bs)).phase ≡ (
          if not p.bypassed && not (bytes_eq (sh.heap r).compression algo_none)
          then answered (length (b ∷ bs)) (push p.comp (b ∷ bs))
          else (b ∷ bs, length (b ∷ bs)))
  unfolding compress_chunk
  compress-given sh r p b bs =
      if-ahead _ _ _ _ _ (answer-ahead sh p (length (b ∷ bs)) (push p.comp (b ∷ bs)))
        (start-ahead sh p (length (b ∷ bs)) (b ∷ bs) false)

  sniff-given :
      (sh : Shared) (r : ℕ) (p : OutPump C) (buf : Bytes) (z : Bytes × ℕ)
      → let q = sniff push raw sh r p buf in
        (if not q.bypassed && not (bytes_eq (sh.heap r).compression algo_none)
          then answered (length buf) (push q.comp buf)
          else z)
        ≡ (if is_coded sh r p buf then answered (length buf) (push p.comp buf) else z)
  unfolding sniff
  sniff-given sh r p buf z = elim (Bool-cases (bytes_eq (sh.heap r).compression algo_none)) [
    | inl plain ↦ ground (arith, plain)
    | inr coded ↦ elim (Bool-cases p.sniffed) [
      | inl old ↦ ground (arith, coded, old, Bool-cases p.bypassed)
      | inr fresh ↦ elim (Bool-cases (looks_precompressed buf)) [
        | inl dense ↦ ground (arith, coded, fresh, dense, Bool-cases p.bypassed)
        | inr loose ↦ ground (arith, coded, fresh, loose, Bool-cases p.bypassed)
      ]
    ]
  ]

  -- A read leaves what it gives before the pump.
  pub read-given :
      (sh : Shared) (r : ℕ) (p : OutPump C) (ev : ReadEvent)
      → ahead (read_chunk push raw sh r p ev).phase ≡ given sh r p ev
  unfolding read_chunk to_phase
  read-given sh r p read_eof = refl
  read-given sh r p read_error = refl
  read-given sh r p (got []) = refl
  read-given sh r p (got (b ∷ bs)) =
      compress-given sh r (sniff push raw sh r p (b ∷ bs)) b bs ∙ sniff-given sh r p (b ∷ bs) _
