-- ===== src/Sync/Protocol/Chunks.antt =====
-- sync/protocol.rs, `SyncParser::push`: the messages of a stream do not depend on its chunks.
use krymux.Base.{
  ℕ, zero, suc, ◌+◌, ◌≤◌, ◌<◌, ◌≡◌, refl, sym, ap, ◌∙◌, ◌≢◌, ◌↔◌, ◌⊎◌, inl, inr, List, [], ◌∷◌,
  ◌++◌, Option, append-nil, append_assoc, Result, ok, err, Result-cases, ltb, length, drop,
  if◌then◌else◌, drop-append_le, arith,
}
use krymux.Base.Bytes.{Bytes}
use krymux.Base.Json.{Json}
use krymux.Sync.Protocol.{
  SyncMessage, SyncError, SyncParser, Turn, wait, message, turn, push_loop, finish, push, header,
  max_msg,
}
use krymux.Sync.Protocol.Splitting.{Turn-cases, turn-message, turn-wait, turn_more}
use krymux.Sync.Protocol.Splits.{
  Splits, rest, more, Splits-rest, Splits-to, loop-Splits, Splits-loop,
}

-- The bytes of a list of chunks.
abbrev pub join : List Bytes → Bytes
join [] = []
join (c ∷ cs) = c ++ join cs

abbrev then_messages :
    List SyncMessage
    → Result SyncError (SyncParser × List SyncMessage)
    → Result SyncError (SyncParser × List SyncMessage)
then_messages ms (err e) = err e
then_messages ms (ok (p, ns)) = ok (p, ms ++ ns)

abbrev feed_next :
    Result SyncError (List SyncMessage)
    → Result SyncError (SyncParser × List SyncMessage)
    → Result SyncError (SyncParser × List SyncMessage)
feed_next (err e) r = err e
feed_next (ok ms) r = then_messages ms r

module _ (from_slice : Bytes → Option Json) where
  -- A reader pushes the chunks one after another, and stops at the first error.
  unfoldable pub feed : SyncParser → List Bytes → Result SyncError (SyncParser × List SyncMessage)
  feed p [] = ok (p, [])
  feed p (c ∷ cs) = let (q, r) = push from_slice p c in let later = feed q cs in feed_next r later

  compact : (n : ℕ) (b : Bytes) → (if ltb 0 n then drop n b else b) ≡ drop n b
  compact zero b = refl
  compact (suc n) b = ground arith

  push_ok :
      (p : SyncParser) (c : Bytes) {last : ℕ} {ms : List SyncMessage}
      → push_loop from_slice (suc (length (p.buf ++ c))) (p.buf ++ c) 0 [] ≡ ok (last, ms)
      → push from_slice p c ≡ (record { buf = drop last (p.buf ++ c) }, ok ms)
  unfolding push finish
  push_ok p c {last} {ms} e = rw (e, finish, compact last (p.buf ++ c)) refl

  push_err :
      (p : SyncParser) (c : Bytes) {x : SyncError}
      → push_loop from_slice (suc (length (p.buf ++ c))) (p.buf ++ c) 0 [] ≡ err x
      → push from_slice p c ≡ (record { buf = p.buf ++ c }, err x)
  unfolding push finish
  push_err p c e = rw (e, finish) refl

  ok-same :
      (ms ns : List SyncMessage)
      → let r : Result SyncError (List SyncMessage) = ok ms in r ≡ ok ns → ms ≡ ns
  ok-same ms ns e = ground (arith, e)

  -- A push succeeds, with these messages and this state, exactly when the bytes at hand are whole
  -- frames that carry the messages, followed by bytes on which the parser waits and that it keeps.
  pub push-Splits :
      (p q : SyncParser) (c : Bytes) (ms : List SyncMessage)
      → (push from_slice p c ≡ (q, ok ms)) ↔ Splits from_slice (p.buf ++ c) ms q.buf
  push-Splits p q c ms = (
    λ e. elim (Result-cases (push_loop from_slice (suc (length (p.buf ++ c))) (p.buf ++ c) 0 [])) [
      | inl ((last, all), run) ↦
          let (_, same, s) =
            loop-Splits from_slice _ (p.buf ++ c) 0 last [] all (omega arith) run in
          let done = sym (push_ok p c run) ∙ e in
          rw (sym (ap (λ x. x.0.buf) done), sym (ok-same all ms (ap (λ x. x.1) done)), same) s
      | inr (x, run) ↦ cc (ap (λ x. x.1) (sym (push_err p c run) ∙ e))
    ],
    λ s.
        let (last, run, left) =
          Splits-loop from_slice (suc (length (p.buf ++ c))) (p.buf ++ c) 0 [] (omega arith) refl
            s in
        push_ok p c run ∙ ap (λ b. (record { buf = b }, ok ms)) left,
  )

  -- What the parser keeps after a push that succeeds is less than one frame of the largest size.
  pub push_bounds :
      (p q : SyncParser) (c : Bytes) (ms : List SyncMessage)
      → push from_slice p c ≡ (q, ok ms)
      → length q.buf < header + max_msg
  push_bounds p q c ms e =
      turn-wait from_slice q.buf (Splits-rest from_slice ((push-Splits p q c ms).0 e))

  Splits-append :
      (a b : Bytes) {r s : Bytes} {ms ns : List SyncMessage}
      → Splits from_slice a ms r
      → Splits from_slice (r ++ b) ns s
      → Splits from_slice (a ++ b) (ms ++ ns) s
  Splits-append a b (rest w) t = t
  Splits-append a b (more {total} e s) t =
      let fits = turn-message from_slice a e in
      more (turn_more from_slice a b (λ w. cc (sym w ∙ e)) ∙ e) (
        Splits-to from_slice (sym (drop-append_le total a b fits.1))
          (Splits-append (drop total a) b s t))

  grown :
      (a b : Bytes) {x : Bytes} {t : Turn}
      → x ≡ a ++ b
      → turn from_slice a 0 ≡ t
      → t ≢ wait
      → turn from_slice x 0 ≡ t
  grown a b q e d =
      ap (λ x. turn from_slice x 0) q ∙ turn_more from_slice a b (λ w. d (sym e ∙ w)) ∙ e

  message-same : (m n : SyncMessage) (a b : ℕ) → message m a ≡ message n b → (m ≡ n) × (a ≡ b)
  message-same m n a b e = ground (arith, e)

  drop_to : (n k : ℕ) (a b : Bytes) → n ≡ k → k ≤ length a → drop n (a ++ b) ≡ drop k a ++ b
  drop_to n k a b e h = rw e (drop-append_le k a b h)

  Splits-apart :
      (a b : Bytes) {x s : Bytes} {all : List SyncMessage}
      → x ≡ a ++ b
      → Splits from_slice x all s
      → (ms ns : List SyncMessage) × (r : Bytes) × Splits from_slice a ms r
        × Splits from_slice (r ++ b) ns s
        × (all ≡ ms ++ ns)
  Splits-apart a b q (rest w) = elim (Turn-cases (turn from_slice a 0)) [
    | inl v ↦ ([], [], a, rest v, Splits-to from_slice q (rest w), refl)
    | inr (inl (x, p)) ↦ cc (sym w ∙ grown a b q p (λ h. cc h))
    | inr (inr (m, total, p)) ↦ cc (sym w ∙ grown a b q p (λ h. cc h))
  ]
  Splits-apart a b q (more {m} {total} {ms} e t) = elim (Turn-cases (turn from_slice a 0)) [
    | inl v ↦ ([], m ∷ ms, a, rest v, Splits-to from_slice q (more e t), refl)
    | inr (inl (x, p)) ↦ cc (sym e ∙ grown a b q p (λ h. cc h))
    | inr (inr (n, size, p)) ↦
        let same = message-same m n total size (sym e ∙ grown a b q p (λ h. cc h)) in
        let fits = turn-message from_slice a p in
        let left = ap (drop total) q ∙ drop_to total size a b same.1 fits.1 in
        let (ms', ns', r, u, v, all) = Splits-apart (drop size a) b left t in
        (n ∷ ms', ns', r, more p u, v, ap (λ x. x ∷ ms) same.0 ∙ ap (λ x. n ∷ x) all)
  ]

  Splits-idle :
      {b r : Bytes} {ms : List SyncMessage}
      → turn from_slice b 0 ≡ wait
      → Splits from_slice b ms r
      → (ms ≡ []) × (b ≡ r)
  Splits-idle w (rest v) = (refl, refl)
  Splits-idle w (more e s) = cc (sym w ∙ e)

  Push-cases :
      (x : SyncParser × Result SyncError (List SyncMessage))
      → ((q : SyncParser) × (ms : List SyncMessage) × (x ≡ (q, ok ms)))
        ⊎ ((q : SyncParser) × (e : SyncError) × (x ≡ (q, err e)))
  Push-cases (q, ok ms) = inl (q, ms, refl)
  Push-cases (q, err e) = inr (q, e, refl)

  feed_step :
      (p q : SyncParser) (c : Bytes) (cs : List Bytes) {r : Result SyncError (List SyncMessage)}
      → push from_slice p c ≡ (q, r)
      → feed p (c ∷ cs) ≡ feed_next r (feed q cs)
  unfolding feed
  feed_step p q c cs e = rw e refl

  fed-same :
      (p q : SyncParser) (ms ns : List SyncMessage)
      → let r : Result SyncError (SyncParser × List SyncMessage) = ok (p, ms) in
        r ≡ ok (q, ns) → (p ≡ q) × (ms ≡ ns)
  fed-same p q ms ns e = ground (arith, e)

  fed_then :
      (ms all : List SyncMessage) (q : SyncParser)
      (r : Result SyncError (SyncParser × List SyncMessage))
      → feed_next (ok ms) r ≡ ok (q, all)
      → (ns : List SyncMessage) × (r ≡ ok (q, ns)) × (all ≡ ms ++ ns)
  fed_then ms all q (ok (p, ns)) e =
      let same = fed-same p q (ms ++ ns) all e in (ns, ap (λ x. ok (x, ns)) same.0, sym same.1)
  fed_then ms all q (err x) e = cc e

  -- Feeding chunks to a parser that waits succeeds, with these messages and this state, exactly when
  -- the bytes it held and those of the chunks split that way.
  pub feed-Splits :
      (p q : SyncParser) (cs : List Bytes) (ms : List SyncMessage)
      → turn from_slice p.buf 0 ≡ wait
      → (feed p cs ≡ ok (q, ms)) ↔ Splits from_slice (p.buf ++ join cs) ms q.buf
  unfolding feed
  feed-Splits p q [] ms w = (
    λ e. let same = fed-same p q [] ms e in rw (sym same.1, sym same.0, append-nil p.buf) (rest w),
    λ s.
        let same = Splits-idle (rw (append-nil p.buf) w) s in
        rw same.0 (ap (λ b. ok (record { buf = b }, [])) (sym (append-nil p.buf) ∙ same.1)),
  )
  feed-Splits p q (c ∷ cs) ms w = (
    λ e. elim (Push-cases (push from_slice p c)) [
      | inl (p', ms', run) ↦
          let s = (push-Splits p p' c ms').0 run in
          let (ns, later, all) =
            fed_then ms' ms q (feed p' cs) (sym (feed_step p p' c cs run) ∙ e) in
          let t = (feed-Splits p' q cs ns (Splits-rest from_slice s)).0 later in
          rw (all, sym (append_assoc p.buf c (join cs))) (Splits-append (p.buf ++ c) (join cs) s t)
      | inr (p', x, run) ↦ cc (sym (feed_step p p' c cs run) ∙ e)
    ],
    λ s.
        let (ms', ns, r, front, back, all) =
          Splits-apart (p.buf ++ c) (join cs) (sym (append_assoc p.buf c (join cs))) s in
        let p' : SyncParser = record { buf = r } in
        let run = (push-Splits p p' c ms').1 front in
        let later = (feed-Splits p' q cs ns (Splits-rest from_slice front)).1 back in
        feed_step p p' c cs run ∙ ap (feed_next (ok ms')) later ∙ ap (λ x. ok (q, x)) (sym all),
  )

  -- Feeding chunks one after another gives the messages and the state that one push of all their
  -- bytes gives, and either succeeds exactly when the other does, for a parser that holds less than
  -- one frame.
  pub feed-push :
      (p q : SyncParser) (cs : List Bytes) (ms : List SyncMessage)
      → turn from_slice p.buf 0 ≡ wait
      → (feed p cs ≡ ok (q, ms)) ↔ (push from_slice p (join cs) ≡ (q, ok ms))
  feed-push p q cs ms w =
      let f = feed-Splits p q cs ms w in
      let g = push-Splits p q (join cs) ms in (λ e. g.1 (f.0 e), λ e. f.1 (g.0 e))
