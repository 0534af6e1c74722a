-- ===== src/Sync/Protocol/Frames.antt =====
-- sync/protocol.rs, `SyncParser::push`: the frames of its buffer, byte by byte.
use mathlib.Core.Path.{subst}
use krymux.Base.{
  ℕ, ◌+◌, ◌≤◌, ◌<◌, ◌≡◌, ◌≢◌, ◌↔◌, ◌++◌, refl, sym, ap, ◌∙◌, ◌⊎◌, inl, inr, List, [], ◌∷◌, Option,
  none, some, Bool-cases, ltb, ltb→lt, ltb→ge, ◌==◌, ==_iff, length, take, drop, get_or, ok, err,
  Result, if_true, if_false, arith,
}
use krymux.Base.Bytes.{Bytes}
use krymux.Base.Json.{Json}
use krymux.Sync.Protocol.{
  SyncMessage, json, bin, SyncError, bad_json, SyncParser, Turn, wait, failed, message, decode,
  decoded_turn, check, turn, push, header, max_msg, msg_json, msg_bin,
}
use krymux.Sync.Protocol.Chunks.{push-Splits}
use krymux.Sync.Protocol.Splits.{Splits, rest, more}
use krymux.Sync.Protocol.Splitting.{front_len, turn_front}

-- The bytes do not hold a whole frame yet, and announce none above the cap.
abbrev pub IsPartial : Bytes → Type 0
IsPartial b = (length b < 5) ⊎ ((front_len b ≤ max_msg) × (length b < 5 + front_len b))

ok_same : (x y : SyncMessage) → let r : Result SyncError SyncMessage = ok x in r ≡ ok y → x ≡ y
ok_same x y e = cc e

json_read :
    (o : Option Json) (m : SyncMessage)
    → let r : Result SyncError SyncMessage = elim o [
      | some v ↦ ok (json v)
      | none ↦ err bad_json
    ] in
      r ≡ ok m → (v : Json) × (o ≡ some v) × (m ≡ json v)
json_read none m e = cc e
json_read (some v) m e = (v, refl, sym (ok_same (json v) m e))

module _ (from_slice : Bytes → Option Json) where
  -- A frame of this kind, with this body, carries the message.
  abbrev pub Carries : ℕ → Bytes → SyncMessage → Type 0
  Carries kind body (json v) = (kind ≡ 1) × (from_slice body ≡ some v)
  Carries kind body (bin b) = (kind ≡ 2) × (body ≡ b)

  -- The input is whole frames, each a length of four bytes, a kind and a body of that length within the
  -- cap, that carry these messages, and then a rest that is not a whole frame yet.
  pub data Frames : Bytes → List SyncMessage → Bytes → Type 0 where
    partial : {b : Bytes} → IsPartial b → Frames b [] b
    frame :
        {b r : Bytes} {m : SyncMessage} {ms : List SyncMessage}
        → 5 + front_len b ≤ length b
        → front_len b ≤ max_msg
        → Carries (get_or b 4 0) (take (front_len b) (drop 5 b)) m
        → Frames (drop (5 + front_len b) b) ms r
        → Frames b (m ∷ ms) r

  decode-Carries :
      (kind : ℕ) (body : Bytes) (m : SyncMessage)
      → decode from_slice kind body ≡ ok m
      → Carries kind body m
  unfolding decode
  decode-Carries kind body m e = elim (Bool-cases (kind == msg_json)) [
    | inl j ↦
        let (v, parsed, same) = json_read (from_slice body) m (sym (if_true _ _ _ j) ∙ e) in
        subst (Carries kind body) (sym same) ((==_iff kind msg_json).0 j, parsed)
    | inr not_json ↦ elim (Bool-cases (kind == msg_bin)) [
      | inl b ↦
          subst (Carries kind body)
            (ok_same _ _ (sym (if_false _ _ _ not_json ∙ if_true _ _ _ b) ∙ e))
            ((==_iff kind msg_bin).0 b, refl)
      | inr neither ↦ cc (sym (if_false _ _ _ not_json ∙ if_false _ _ _ neither) ∙ e)
    ]
  ]

  Carries-decode :
      (kind : ℕ) (body : Bytes) (m : SyncMessage)
      → Carries kind body m
      → decode from_slice kind body ≡ ok m
  unfolding decode
  Carries-decode kind body (json v) c = rw (c.0, c.1) refl
  Carries-decode kind body (bin b) c = rw (c.0, c.1) refl

  -- What a turn finds: too little for a header, too large a frame, too little for the frame, or a frame.
  Checked : ℕ → ℕ → ℕ → Bytes → Turn → Type 0
  Checked avail len kind body t =
      ((avail < 5) × (t ≡ wait))
      ⊎ ((e : SyncError) × (5 ≤ avail) × (max_msg < len) × (t ≡ failed e))
      ⊎ ((5 ≤ avail) × (len ≤ max_msg) × (avail < 5 + len) × (t ≡ wait))
      ⊎ ((5 + len ≤ avail)
          × (len ≤ max_msg)
          × (t ≡ decoded_turn (decode from_slice kind (take len body)) (5 + len)))

  check-Checked :
      (avail len kind : ℕ) (body : Bytes)
      → Checked avail len kind body (check from_slice avail len kind body)
  unfolding check Checked
  check-Checked avail len kind body = elim (Bool-cases (ltb avail header)) [
    | inl short ↦ inl (ltb→lt avail 5 short, if_true _ _ _ short)
    | inr five ↦ elim (Bool-cases (ltb max_msg len)) [
      | inl large ↦ inr (
          inl (
            _,
            ltb→ge avail 5 five,
            ltb→lt max_msg len large,
            if_false _ _ _ five ∙ if_true _ _ _ large,
          ))
      | inr small ↦ elim (Bool-cases (ltb avail (header + len))) [
        | inl part ↦ inr (
            inr (
              inl (
                ltb→ge avail 5 five,
                ltb→ge max_msg len small,
                ltb→lt _ _ part,
                if_false _ _ _ five ∙ if_false _ _ _ small ∙ if_true _ _ _ part,
              )))
        | inr whole ↦ inr (
            inr (
              inr (
                ltb→ge _ _ whole,
                ltb→ge max_msg len small,
                if_false _ _ _ five ∙ if_false _ _ _ small ∙ if_false _ _ _ whole,
              )))
      ]
    ]
  ]

  abbrev Whole : ℕ → ℕ → ℕ → Bytes → SyncMessage → ℕ → Type 0
  Whole avail len kind body m total =
      (5 + len ≤ avail) × (len ≤ max_msg) × Carries kind (take len body) m × (total ≡ 5 + len)

  decoded-message :
      (r : Result SyncError SyncMessage) (m : SyncMessage) (n total : ℕ)
      → decoded_turn r n ≡ message m total
      → (r ≡ ok m) × (total ≡ n)
  unfolding decoded_turn
  decoded-message (ok x) m n total e = (ap ok (cc e), cc e)
  decoded-message (err x) m n total e = cc e

  decoded-waits : (r : Result SyncError SyncMessage) (n : ℕ) → decoded_turn r n ≢ wait
  unfolding decoded_turn
  decoded-waits (ok x) n e = cc e
  decoded-waits (err x) n e = cc e

  message-Whole :
      (avail len kind : ℕ) (body : Bytes) (t : Turn) (m : SyncMessage) (total : ℕ)
      → Checked avail len kind body t
      → t ≡ message m total
      → Whole avail len kind body m total
  unfolding Checked
  message-Whole avail len kind body t m total (inl (a, w)) e = cc (sym w ∙ e)
  message-Whole avail len kind body t m total (inr (inl (x, a, b, w))) e = cc (sym w ∙ e)
  message-Whole avail len kind body t m total (inr (inr (inl (a, b, c, w)))) e = cc (sym w ∙ e)
  message-Whole avail len kind body t m total (inr (inr (inr (a, b, w)))) e =
      let d = decoded-message _ m (5 + len) total (sym w ∙ e) in
      (a, b, decode-Carries kind (take len body) m d.0, d.1)

  Whole-message :
      (avail len kind : ℕ) (body : Bytes) (t : Turn) (m : SyncMessage) (total : ℕ)
      → Checked avail len kind body t
      → Whole avail len kind body m total
      → t ≡ message m total
  unfolding Checked decoded_turn
  Whole-message avail len kind body t m total (inl (a, w)) h = absurd (omega (arith, a, h.0))
  Whole-message avail len kind body t m total (inr (inl (x, a, b, w))) h =
      absurd (omega (arith, b, h.1))
  Whole-message avail len kind body t m total (inr (inr (inl (a, b, c, w)))) h =
      absurd (omega (arith, c, h.0))
  Whole-message avail len kind body t m total (inr (inr (inr (a, b, w)))) h =
      w ∙ rw (Carries-decode kind (take len body) m h.2, h.3) refl

  wait-partial :
      (avail len kind : ℕ) (body : Bytes) (t : Turn)
      → Checked avail len kind body t
      → t ≡ wait
      → (avail < 5) ⊎ ((len ≤ max_msg) × (avail < 5 + len))
  unfolding Checked
  wait-partial avail len kind body t (inl (a, w)) e = inl a
  wait-partial avail len kind body t (inr (inl (x, a, b, w))) e = cc (sym w ∙ e)
  wait-partial avail len kind body t (inr (inr (inl (a, b, c, w)))) e = inr (b, c)
  wait-partial avail len kind body t (inr (inr (inr (a, b, w)))) e =
      absurd (decoded-waits _ _ (sym w ∙ e))

  partial-wait :
      (avail len kind : ℕ) (body : Bytes) (t : Turn)
      → Checked avail len kind body t
      → (avail < 5) ⊎ ((len ≤ max_msg) × (avail < 5 + len))
      → t ≡ wait
  unfolding Checked
  partial-wait avail len kind body t (inl (a, w)) h = w
  partial-wait avail len kind body t (inr (inl (x, a, b, w))) (inl h) = absurd (omega (arith, a, h))
  partial-wait avail len kind body t (inr (inl (x, a, b, w))) (inr h) =
      absurd (omega (arith, b, h.0))
  partial-wait avail len kind body t (inr (inr (inl (a, b, c, w)))) h = w
  partial-wait avail len kind body t (inr (inr (inr (a, b, w)))) (inl h) =
      absurd (omega (arith, a, h))
  partial-wait avail len kind body t (inr (inr (inr (a, b, w)))) (inr h) =
      absurd (omega (arith, a, h.1))

  front-Checked :
      (b : Bytes) → Checked (length b) (front_len b) (get_or b 4 0) (drop 5 b) (turn from_slice b 0)
  front-Checked b =
      subst (Checked (length b) (front_len b) (get_or b 4 0) (drop 5 b))
        (sym (turn_front from_slice b))
        (check-Checked (length b) (front_len b) (get_or b 4 0) (drop 5 b))

  Splits-Frames : {b r : Bytes} {ms : List SyncMessage} → Splits from_slice b ms r → Frames b ms r
  Splits-Frames (rest {b} w) = partial (wait-partial _ _ _ _ _ (front-Checked b) w)
  Splits-Frames (more {b} {r} {m} {total} {ms} e s) =
      let h = message-Whole _ _ _ _ _ m total (front-Checked b) e in
      frame h.0 h.1 h.2 (subst (λ n. Frames (drop n b) ms r) h.3 (Splits-Frames s))

  Frames-Splits : {b r : Bytes} {ms : List SyncMessage} → Frames b ms r → Splits from_slice b ms r
  Frames-Splits (partial {b} h) = rest (partial-wait _ _ _ _ _ (front-Checked b) h)
  Frames-Splits (frame {b} {r} {m} {ms} fits cap_ c f) =
      more (Whole-message _ _ _ _ _ m (5 + front_len b) (front-Checked b) (fits, cap_, c, refl))
        (Frames-Splits f)

  -- A push succeeds, with these messages and this state, exactly when the bytes at hand are whole frames
  -- that carry the messages, followed by bytes that are not a whole frame yet and that the parser keeps.
  -- A frame is a length of four bytes, within the cap, a kind, and a body of that length, which is the
  -- message itself or JSON text that serde_json reads as the message.
  pub push-Frames :
      (p q : SyncParser) (c : Bytes) (ms : List SyncMessage)
      → (push from_slice p c ≡ (q, ok ms)) ↔ Frames (p.buf ++ c) ms q.buf
  push-Frames p q c ms =
      let s = push-Splits from_slice p q c ms in
      (λ e. Splits-Frames (s.0 e), λ f. s.1 (Frames-Splits f))
