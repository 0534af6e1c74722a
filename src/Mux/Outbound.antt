-- ===== src/Mux/Outbound.antt =====
-- mux.rs: the outbound pump of a stream (compress, charge credit, frame). The pump is a machine
-- whose phases are its `await` points: the read, the credit counter and the writer queue.
use krymux.Base.{
  ℕ, ◌+◌, ◌-◌, ◌%◌, ◌^◌, [], Bool, true, false, ◌&&◌, not, Option, none, some, length, leb, ltb,
  ◌==◌, if◌then◌else◌, is_empty, max, min, take, drop,
}
use krymux.Base.Bytes.{Bytes, codes, bytes_eq}
use krymux.Frame.{encode_frame, ft_data, ft_close, flag_compressed, flag_fin}
use krymux.Compress.{algo_none, algo_deflate, algo_brotli, algo_zstd, looks_precompressed}
use krymux.Mux.State.{Shared, set_stream, wait_send, sent, writer_gone, waits, finish_outbound}

unfoldable pub default_level : Bytes → ℕ
default_level algo =
    if bytes_eq algo algo_deflate
    then 6
    else if bytes_eq algo algo_brotli
    then 4
    else if bytes_eq algo algo_zstd
    then 3
    else 0

-- The sign of an i64 bit pattern.
abbrev pub is_positive : ℕ → Bool
is_positive c = ltb 0 c && ltb c (2 ^ 63)

pub data Acquired : Type 0 where
  took : ℕ → Shared → Acquired
  session_closed must_wait : Acquired

-- One round of `acquire_credits`.
unfoldable pub acquire_credits : Shared → ℕ → ℕ → Acquired
acquire_credits sh r want =
    let s = sh.heap r in
    let c = s.credits in
    let take = min (max 1 (min c want)) c in
    if sh.closed
    then session_closed
    else if is_positive c
    then took take (set_stream sh r (record s { credits = (c + 2 ^ 64 - take) % 2 ^ 64 }))
    else must_wait

-- A read chunk: its logical length, what goes on the wire and whether that is compressed.
pub record Chunk : Type 0 where
  pub logical : ℕ
  pub wire : Bytes
  pub compressed : Bool

-- Numbers are the logical bytes charged, and in `split` the wire bytes sent and the frame cap too.
pub data OutPhase : Type 0 where
  reading finished : OutPhase
  first_charge : Chunk → OutPhase
  first_send : Chunk → ℕ → OutPhase
  rest_charge : ℕ → ℕ → OutPhase
  split split_send : Chunk → ℕ → ℕ → ℕ → OutPhase
  closing : Bool → OutPhase

pub record OutPump (C : Type 0) : Type 0 where
  pub comp : C
  pub sniffed : Bool
  pub bypassed : Bool
  pub phase : OutPhase

-- What the read of the application's side gives.
pub data ReadEvent : Type 0 where
  got : Bytes → ReadEvent
  read_eof read_error : ReadEvent

unfoldable pub data_frame : Shared → ℕ → Bool → Bytes → Bytes
data_frame sh r compressed payload =
    encode_frame ft_data (if compressed then flag_compressed else 0) (sh.heap r).id payload

-- FIN for a clean end, else CLOSE.
unfoldable pub last_frame : Shared → ℕ → Bool → Bytes
last_frame sh r clean =
    if clean
    then encode_frame ft_data flag_fin (sh.heap r).id []
    else encode_frame ft_close 0 (sh.heap r).id (codes "{\"code\":\"abort\"}")

-- The part of the slow loop that follows the charge.
unfoldable pub split_next : Chunk → ℕ → ℕ → ℕ → OutPhase
split_next c charged off limit =
    if ltb off (length c.wire) then split_send c charged off limit else split c charged off limit

module _ {C : Type 0} where
  unfoldable pub to_phase : OutPump C → OutPhase → OutPump C
  to_phase p phase = record p { phase = phase }

  -- The fast path for a chunk that fits one frame, else the slow one.
  unfoldable pub start_chunk : Shared → OutPump C → Chunk → OutPump C
  start_chunk sh p c =
      if length c.wire == 0
      then to_phase p reading
      else if leb (length c.wire) sh.peer_max_data
      then to_phase p (first_charge c)
      else to_phase p (split c 0 0 sh.peer_max_data)

  -- `none` in a codec's answer is an error. `raw` is `Compressor::new(ALGO_NONE, 0)`.
  module _ (push : C → Bytes → Option (Bytes × C)) (raw : C) where
    -- The sniffing of the first chunk.
    unfoldable pub sniff : Shared → ℕ → OutPump C → Bytes → OutPump C
    sniff sh r p buf =
        if p.sniffed
        then p
        else if not (bytes_eq (sh.heap r).compression algo_none) && looks_precompressed buf
        then record p { comp = raw; sniffed = true; bypassed = true }
        else record p { sniffed = true }

    unfoldable pub compress_chunk : Shared → ℕ → OutPump C → Bytes → OutPump C
    compress_chunk sh r p buf =
        if not p.bypassed && not (bytes_eq (sh.heap r).compression algo_none)
        then elim (push p.comp buf) [
          | none ↦ to_phase p (closing false)
          | some (w, comp) ↦
              start_chunk sh (record p { comp = comp })
                (record { logical = length buf; wire = w; compressed = true })
        ]
        else start_chunk sh p (record { logical = length buf; wire = buf; compressed = false })

    unfoldable pub read_chunk : Shared → ℕ → OutPump C → ReadEvent → OutPump C
    read_chunk sh r p read_eof = to_phase p (closing true)
    read_chunk sh r p read_error = to_phase p (closing false)
    read_chunk sh r p (got buf) =
        if is_empty buf
        then to_phase p (closing true)
        else compress_chunk sh r (sniff sh r p buf) buf

  -- A frame that has room goes on to the next phase; a writer that is gone ends the stream.
  unfoldable pub after_send : Shared → OutPump C → Bytes → OutPhase → Option (Shared × OutPump C)
  after_send sh p frame next = elim (wait_send sh frame) [
    | sent sh' ↦ some (sh', to_phase p next)
    | writer_gone ↦ some (sh, to_phase p (closing false))
    | waits ↦ none
  ]

  -- The credit loop's step: a closed session ends the stream.
  unfoldable pub after_acquire :
      Shared → ℕ → OutPump C → ℕ → (ℕ → OutPhase) → Option (Shared × OutPump C)
  after_acquire sh r p want next = elim (acquire_credits sh r want) [
    | took n sh' ↦ some (sh', to_phase p (next n))
    | session_closed ↦ some (sh, to_phase p (closing false))
    | must_wait ↦ none
  ]

  unfoldable pub send_last : Shared → ℕ → OutPump C → Bool → Option (Shared × OutPump C)
  send_last sh r p clean = elim (wait_send sh (last_frame sh r clean)) [
    | sent sh' ↦ some (finish_outbound sh' r, to_phase p finished)
    | writer_gone ↦ some (finish_outbound sh r, to_phase p finished)
    | waits ↦ none
  ]

  -- One step of the pump between two reads; `none` is a pump that waits.
  unfoldable pub out_step : Shared → ℕ → OutPump C → Option (Shared × OutPump C)
  out_step sh r p = elim p.phase [
    | reading ↦ none
    | finished ↦ none
    | first_charge c ↦ after_acquire sh r p c.logical (λ n. first_send c n)
    | first_send c charged ↦
        after_send sh p (data_frame sh r c.compressed c.wire) (rest_charge c.logical charged)
    | rest_charge n charged ↦
        if ltb charged n
        then after_acquire sh r p (n - charged) (λ m. rest_charge n (charged + m))
        else some (sh, to_phase p reading)
    | split c charged off limit ↦
        if ltb charged c.logical
        then after_acquire sh r p (c.logical - charged) (λ m. split_next c (charged + m) off limit)
        else if ltb off (length c.wire)
        then some (sh, to_phase p (split_send c charged off limit))
        else some (sh, to_phase p reading)
    | split_send c charged off limit ↦
        let n = min limit (length c.wire - off) in
        after_send sh p (data_frame sh r c.compressed (take n (drop off c.wire)))
          (split c charged (off + n) limit)
    | closing clean ↦ send_last sh r p clean
  ]
