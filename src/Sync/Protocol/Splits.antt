-- ===== src/Sync/Protocol/Splits.antt =====
-- sync/protocol.rs, `SyncParser::push`: the loop splits its buffer into whole frames and a rest.
use krymux.Base.{
  ℕ, zero, suc, ◌+◌, ◌<◌, ◌≡◌, refl, sym, ap, ◌∙◌, inl, inr, List, [], ◌∷◌, ◌++◌, Option,
  append-nil, append_assoc, Result, ok, err, length, drop, length-drop, drop-drop, arith,
}
use krymux.Base.Bytes.{Bytes}
use krymux.Base.Json.{Json}
use krymux.Sync.Protocol.{SyncMessage, SyncError, wait, failed, message, turn, push_loop}
use krymux.Sync.Protocol.Splitting.{Turn-cases, turn-drop, turn-message}

module _ (from_slice : Bytes → Option Json) where
  -- The input is whole frames that carry these messages, and then a rest on which the parser waits.
  pub data Splits : Bytes → List SyncMessage → Bytes → Type 0 where
    rest : {b : Bytes} → turn from_slice b 0 ≡ wait → Splits b [] b
    more :
        {b r : Bytes} {m : SyncMessage} {total : ℕ} {ms : List SyncMessage}
        → turn from_slice b 0 ≡ message m total
        → Splits (drop total b) ms r
        → Splits b (m ∷ ms) r

  pub Splits-rest :
      {b r : Bytes} {ms : List SyncMessage} → Splits b ms r → turn from_slice r 0 ≡ wait
  Splits-rest (rest w) = w
  Splits-rest (more e s) = Splits-rest s

  pub Splits-to : {a b r : Bytes} {ms : List SyncMessage} → a ≡ b → Splits a ms r → Splits b ms r
  Splits-to e s = rw (sym e) s

  loop_wait :
      (fuel : ℕ) (buf : Bytes) (cursor : ℕ) (ms : List SyncMessage)
      → turn from_slice buf cursor ≡ wait
      → push_loop from_slice (suc fuel) buf cursor ms ≡ ok (cursor, ms)
  unfolding push_loop
  loop_wait fuel buf cursor ms e = rw (e, push_loop) refl

  loop_failed :
      (fuel : ℕ) (buf : Bytes) (cursor : ℕ) (ms : List SyncMessage) {x : SyncError}
      → turn from_slice buf cursor ≡ failed x
      → push_loop from_slice (suc fuel) buf cursor ms ≡ err x
  unfolding push_loop
  loop_failed fuel buf cursor ms e = rw (e, push_loop) refl

  loop_message :
      (fuel : ℕ) (buf : Bytes) (cursor : ℕ) (ms : List SyncMessage) {m : SyncMessage} {total : ℕ}
      → turn from_slice buf cursor ≡ message m total
      → push_loop from_slice (suc fuel) buf cursor ms
        ≡ push_loop from_slice fuel buf (cursor + total) (ms ++ m ∷ [])
  unfolding push_loop
  loop_message fuel buf cursor ms e = rw (e, push_loop) refl

  ok-pair :
      (a b : ℕ) (ms ns : List SyncMessage)
      → let r : Result SyncError (ℕ × List SyncMessage) = ok (a, ms) in
        r ≡ ok (b, ns) → (a ≡ b) × (ms ≡ ns)
  ok-pair a b ms ns e = ground (arith, e)

  shorter :
      (fuel cursor total : ℕ) (buf b : Bytes) {m : SyncMessage}
      → length (drop cursor buf) < suc fuel
      → b ≡ drop cursor buf
      → turn from_slice b 0 ≡ message m total
      → length (drop (cursor + total) buf) < fuel
  shorter fuel cursor total buf b h q e = omega (
    arith,
    turn-message from_slice b e,
    length-drop cursor buf,
    length-drop (cursor + total) buf,
    ap length q,
  )

  -- A run of the loop that succeeds has split what lies behind its cursor.
  pub loop-Splits :
      (fuel : ℕ) (buf : Bytes) (cursor last : ℕ) (ms all : List SyncMessage)
      → length (drop cursor buf) < fuel
      → push_loop from_slice fuel buf cursor ms ≡ ok (last, all)
      → (new : List SyncMessage) × (all ≡ ms ++ new) × Splits (drop cursor buf) new (drop last buf)
  loop-Splits zero buf cursor last ms all h e = elim h [ ]
  loop-Splits (suc fuel) buf cursor last ms all h e =
      elim (Turn-cases (turn from_slice buf cursor)) [
        | inl w ↦
            let q = ok-pair cursor last ms all (sym (loop_wait fuel buf cursor ms w) ∙ e) in
            (
              [],
              sym q.1 ∙ sym (append-nil ms),
              rw (sym q.0) (rest (sym (turn-drop from_slice buf cursor) ∙ w)),
            )
        | inr (inl (x, p)) ↦ cc (sym (loop_failed fuel buf cursor ms p) ∙ e)
        | inr (inr (m, total, p)) ↦
            let front = sym (turn-drop from_slice buf cursor) ∙ p in
            let (new, q, s) =
              loop-Splits fuel buf (cursor + total) last (ms ++ m ∷ []) all
                (shorter fuel cursor total buf (drop cursor buf) h refl front)
                (sym (loop_message fuel buf cursor ms p) ∙ e) in
            (
              m ∷ new,
              q ∙ append_assoc ms (m ∷ []) new,
              more front (Splits-to (sym (drop-drop total cursor buf)) s),
            )
      ]

  -- And where a split exists, the loop finds it.
  pub Splits-loop :
      (fuel : ℕ) (buf : Bytes) (cursor : ℕ) (ms : List SyncMessage) {new : List SyncMessage}
      {r b : Bytes}
      → length (drop cursor buf) < fuel
      → b ≡ drop cursor buf
      → Splits b new r
      → (last : ℕ) × (push_loop from_slice fuel buf cursor ms ≡ ok (last, ms ++ new))
        × (drop last buf ≡ r)
  Splits-loop zero buf cursor ms h q s = elim h [ ]
  Splits-loop (suc fuel) buf cursor ms h q (rest w) =
      let front = turn-drop from_slice buf cursor ∙ ap (λ x. turn from_slice x 0) (sym q) ∙ w in
      (cursor, rw (append-nil ms) (loop_wait fuel buf cursor ms front), sym q)
  Splits-loop (suc fuel) buf cursor ms h q (more {b} {m} {total} {ms = new} e s) =
      let front = turn-drop from_slice buf cursor ∙ ap (λ x. turn from_slice x 0) (sym q) ∙ e in
      let (last, run, left) =
        Splits-loop fuel buf (cursor + total) (ms ++ m ∷ []) (shorter fuel cursor total buf b h q e)
          (ap (drop total) q ∙ drop-drop total cursor buf) s in
      (
        last,
        loop_message fuel buf cursor ms front
            ∙ run
            ∙ ap (λ x. ok (last, x)) (append_assoc ms (m ∷ []) new),
        left,
      )
