-- ===== src/Ws/Bounds.antt =====
-- ws.rs: the message that the bridge assembles stays within its cap, and so does the count of
-- connections that are not yet authenticated.
use krymux.Base.{
  ℕ, ◌≤◌, ◌≡◌, refl, List, [], ◌∷◌, Option, none, some, Bool, true, false, ltb, ltb→ge, leb, ◌==◌,
  ◌||◌, length, if◌then◌else◌, All, All-append, if_both, arith,
}
use mathlib.Core.Option.{some-injective}
use krymux.Base.Bytes.{Bytes}
use krymux.Ws.Auth.{Read, timed_out, failed, chunk}
use krymux.Ws.Codec.{WsFrame, ws_decode, max_ws_message}
use krymux.Ws.Bridge.{
  Reader, Reading, reading, done, continued, on_data, bridge_frame, next_reading, bridge_frames,
  bridge_decoded, read_loop, try_acquire, max_unauth_ws_conns,
}

abbrev pub IsWithin : Bytes → Type 0
IsWithin m = length m ≤ max_ws_message

abbrev pub FragmentWithin : Option Bytes → Type 0
FragmentWithin none = Unit
FragmentWithin (some m) = IsWithin m

-- What is assembled, and what was handed to the session.
pub record IsCapped (s : Reader) : Type 0 where
  pub assembled : FragmentWithin s.fragment
  pub handed : All IsWithin s.delivered

abbrev pub Capped : Reading → Type 0
Capped (reading s) = IsCapped s
Capped (done s) = IsCapped s

module _ (deliver : List Bytes → Bytes → Bool) (has_room : List Bytes → Bool) where
  on_data-Capped :
      (fin : Bool) (cur : Bytes) (s : Reader)
      → IsCapped s
      → Capped (on_data deliver has_room fin cur s)
  unfolding on_data
  on_data-Capped fin cur s c =
      if_both Capped (ltb max_ws_message (length cur)) _ _
        (λ e. record { assembled = tt; handed = c.handed })
        (λ e.
          if_both Capped fin _ _
            (λ e1.
              if_both Capped (deliver s.delivered cur) _ _
                (λ e2. record {
                  assembled = tt;
                  handed = All-append IsWithin s.delivered (cur ∷ []) c.handed (ltb→ge _ _ e, tt);
                })
                (λ e2. record { assembled = tt; handed = c.handed }))
            (λ e1. record { assembled = ltb→ge _ _ e; handed = c.handed }))

  bridge_frame-Capped :
      (f : WsFrame) (s : Reader) → IsCapped s → Capped (bridge_frame deliver has_room f s)
  unfolding bridge_frame
  bridge_frame-Capped f s c =
      if_both Capped ((f.opcode == 2) || (f.opcode == 0)) _ _
        (λ e. on_data-Capped f.fin (continued s.fragment f.payload) s c)
        (λ e.
          if_both Capped (f.opcode == 8) _ _ (λ e1. c)
            (λ e1.
              if_both Capped (f.opcode == 9) _ _
                (λ e2.
                  if_both Capped (has_room s.pongs) _ _
                    (λ e3. record { assembled = c.assembled; handed = c.handed }) (λ e3. c))
                (λ e2. c)))

  next-Capped :
      (r : Reading) (k : Reader → Reading)
      → Capped r
      → ((s : Reader) → IsCapped s → Capped (k s))
      → Capped (next_reading r k)
  unfolding next_reading
  next-Capped (reading s) k c h = h s c
  next-Capped (done s) k c h = c

  bridge_frames-Capped :
      (fs : List WsFrame) (s : Reader) → IsCapped s → Capped (bridge_frames deliver has_room fs s)
  unfolding bridge_frames
  bridge_frames-Capped [] s c = c
  bridge_frames-Capped (f ∷ fs) s c =
      next-Capped (bridge_frame deliver has_room f s) _ (bridge_frame-Capped f s c)
        (bridge_frames-Capped fs)

  bridge_decoded-Capped :
      (d : List WsFrame × ℕ × Bool) (s : Reader)
      → IsCapped s
      → Capped (bridge_decoded deliver has_room d s)
  unfolding bridge_decoded
  bridge_decoded-Capped (fs, n, true) s c = record { assembled = c.assembled; handed = c.handed }
  bridge_decoded-Capped (fs, n, false) s c =
      bridge_frames-Capped fs _ record { assembled = c.assembled; handed = c.handed }

  -- Whatever the reader task of the bridge reads, from an empty reader on, the message that it
  -- assembles and each message that it hands to the session are within the cap.
  pub read_loop-Capped :
      (reads : List Read) (s : Reader) → IsCapped s → Capped (read_loop deliver has_room reads s)
  unfolding read_loop
  read_loop-Capped [] s c = bridge_decoded-Capped (ws_decode s.buf) s c
  read_loop-Capped (chunk (b ∷ bs) ∷ reads) s c =
      next-Capped (bridge_decoded deliver has_room (ws_decode s.buf) s) _
        (bridge_decoded-Capped (ws_decode s.buf) s c)
        (λ s' c'. read_loop-Capped reads _ record { assembled = c'.assembled; handed = c'.handed })
  read_loop-Capped (chunk [] ∷ reads) s c =
      next-Capped (bridge_decoded deliver has_room (ws_decode s.buf) s) done
        (bridge_decoded-Capped (ws_decode s.buf) s c) (λ s' c'. c')
  read_loop-Capped (timed_out ∷ reads) s c =
      next-Capped (bridge_decoded deliver has_room (ws_decode s.buf) s) done
        (bridge_decoded-Capped (ws_decode s.buf) s c) (λ s' c'. c')
  read_loop-Capped (failed ∷ reads) s c =
      next-Capped (bridge_decoded deliver has_room (ws_decode s.buf) s) done
        (bridge_decoded-Capped (ws_decode s.buf) s c) (λ s' c'. c')

taken :
    (b : Bool) (o : Option ℕ) (n : ℕ)
    → (if b then none else o) ≡ some n
    → (b ≡ false) × (o ≡ some n)
taken true o n e = cc e
taken false o n e = (refl, e)

-- A slot is taken only below the cap, so the count after it is within the cap.
pub try_acquire_bounds :
    (cur : ℕ) (met : List ℕ) (n : ℕ) → try_acquire cur met ≡ some n → n ≤ max_unauth_ws_conns
unfolding try_acquire
try_acquire_bounds cur [] n e =
    let t = taken (leb max_unauth_ws_conns cur) _ n e in ground (arith, t.0, some-injective _ _ t.1)
try_acquire_bounds cur (c ∷ cs) n e =
    try_acquire_bounds c cs n (taken (leb max_unauth_ws_conns cur) _ n e).1
