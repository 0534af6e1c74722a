-- ===== src/Sync/Protocol/Splitting.antt =====
-- sync/protocol.rs, `SyncParser::push`: what a run of the loop cuts off the front of its buffer.
use krymux.Base.{
  ℕ, zero, suc, ◌+◌, ◌-◌, ◌≤◌, ◌<◌, ◌≡◌, refl, sym, ap, ◌∙◌, ◌≢◌, ◌⊎◌, inl, inr, [], ◌∷◌, ◌++◌,
  Option, Result-cases, Bool-cases, ltb, ltb→lt, length, get_or, take, drop, length-append,
  length-drop, drop-drop, drop-append_le, take-append_le, arith,
}
use krymux.Base.Bytes.{Bytes, from_be32}
use krymux.Base.Json.{Json}
use krymux.Sync.Protocol.{
  SyncMessage, SyncError, Turn, wait, failed, message, decode, decoded_turn, check, turn, header,
  max_msg,
}

pub Turn-cases :
    (t : Turn)
    → (t ≡ wait)
      ⊎ ((e : SyncError) × (t ≡ failed e))
      ⊎ ((m : SyncMessage) × (total : ℕ) × (t ≡ message m total))
Turn-cases wait = inl refl
Turn-cases (failed e) = inr (inl (e, refl))
Turn-cases (message m total) = inr (inr (m, total, refl))

get_or_to : (xs : Bytes) (n m : ℕ) → n ≡ m → get_or xs n 0 ≡ get_or xs m 0
get_or_to xs n m e = ap (λ k. get_or xs k 0) e

get_or-drop : (n i : ℕ) (xs : Bytes) → get_or (drop n xs) i 0 ≡ get_or xs (n + i) 0
get_or-drop zero i xs = get_or_to xs i (0 + i) (omega arith)
get_or-drop (suc n) i [] = refl
get_or-drop (suc n) i (x ∷ xs) =
    get_or-drop n i xs ∙ get_or_to (x ∷ xs) (suc (n + i)) (suc n + i) (omega arith)

-- A turn at a cursor is a turn at the start of what lies behind the cursor.
pub turn-drop :
    (from_slice : Bytes → Option Json) (buf : Bytes) (cursor : ℕ)
    → turn from_slice buf cursor ≡ turn from_slice (drop cursor buf) 0
unfolding turn
turn-drop from_slice buf cursor =
    let z : cursor + 0 ≡ cursor = omega arith in
    let w : length buf - cursor - 0 ≡ length buf - cursor = omega arith in
    rw
      (
        length-drop cursor buf,
        drop-drop 5 cursor buf,
        get_or-drop cursor 0 buf,
        get_or-drop cursor 1 buf,
        get_or-drop cursor 2 buf,
        get_or-drop cursor 3 buf,
        get_or-drop cursor 4 buf,
        z,
        w,
      )
      refl

get_or-append : (i : ℕ) (xs ys : Bytes) → i < length xs → get_or (xs ++ ys) i 0 ≡ get_or xs i 0
get_or-append i [] ys h = elim h [ ]
get_or-append zero (x ∷ xs) ys h = refl
get_or-append (suc i) (x ∷ xs) ys h = get_or-append i xs ys (omega arith)

-- The length that the first four bytes name.
abbrev pub front_len : Bytes → ℕ
front_len b = from_be32 (get_or b 0 0) (get_or b 1 0) (get_or b 2 0) (get_or b 3 0)

pub turn_front :
    (from_slice : Bytes → Option Json) (b : Bytes)
    → turn from_slice b 0 ≡ check from_slice (length b) (front_len b) (get_or b 4 0) (drop 5 b)
unfolding turn
turn_front from_slice b = let e : length b - 0 ≡ length b = omega arith in rw e refl

front_len-append : (a b : Bytes) → 5 ≤ length a → front_len (a ++ b) ≡ front_len a
front_len-append a b h =
    rw
      (
        get_or-append 0 a b (omega arith),
        get_or-append 1 a b (omega arith),
        get_or-append 2 a b (omega arith),
        get_or-append 3 a b (omega arith),
      )
      refl

module _ (from_slice : Bytes → Option Json) where
  -- What a turn decides stays decided when more bytes are there.
  check_more :
      (avail more len t : ℕ) (body body' : Bytes)
      → check from_slice avail len t body ≢ wait
      → avail ≤ more
      → (header + len ≤ avail → take len body' ≡ take len body)
      → check from_slice more len t body' ≡ check from_slice avail len t body
  unfolding check
  check_more avail more len t body body' d h same = ground (arith, same)

  check-message :
      (avail len t total : ℕ) (body : Bytes) (m : SyncMessage)
      → check from_slice avail len t body ≡ message m total
      → (total ≡ header + len) × (total ≤ avail)
  unfolding check decoded_turn
  check-message avail len t total body m e =
      elim (Result-cases (decode from_slice t (take len body))) [
        | inl (x, p) ↦ ground (arith, p)
        | inr (x, p) ↦ ground (arith, p)
      ]

  check-wait :
      (avail len t : ℕ) (body : Bytes)
      → check from_slice avail len t body ≡ wait
      → avail < header + max_msg
  unfolding check decoded_turn
  check-wait avail len t body e = elim (Result-cases (decode from_slice t (take len body))) [
    | inl (x, p) ↦ ground (arith, p)
    | inr (x, p) ↦ ground (arith, p)
  ]

  -- A whole frame within the cap is decoded.
  pub check_whole :
      (avail len t : ℕ) (body : Bytes)
      → len ≤ max_msg
      → header + len ≤ avail
      → check from_slice avail len t body
        ≡ decoded_turn (decode from_slice t (take len body)) (header + len)
  unfolding check
  check_whole avail len t body small whole = ground arith

  check_short :
      (avail len t : ℕ) (body : Bytes) → avail < header → check from_slice avail len t body ≡ wait
  unfolding check
  check_short avail len t body h = ground arith

  pub turn-message :
      (b : Bytes) {m : SyncMessage} {total : ℕ}
      → turn from_slice b 0 ≡ message m total
      → (5 ≤ total) × (total ≤ length b)
  turn-message b {m} {total} e =
      let c = check-message (length b) _ _ total _ m (sym (turn_front from_slice b) ∙ e) in
      omega (arith, c)

  pub turn-wait : (b : Bytes) → turn from_slice b 0 ≡ wait → length b < header + max_msg
  turn-wait b e = check-wait (length b) _ _ _ (sym (turn_front from_slice b) ∙ e)

  turn_enough : (a : Bytes) → turn from_slice a 0 ≢ wait → 5 ≤ length a
  turn_enough a d = elim (Bool-cases (ltb (length a) 5)) [
    | inl h ↦ absurd (d (turn_front from_slice a ∙ check_short (length a) _ _ _ (ltb→lt _ _ h)))
    | inr h ↦ ground (arith, h)
  ]

  take-body :
      (a b : Bytes) (n : ℕ) → 5 + n ≤ length a → take n (drop 5 (a ++ b)) ≡ take n (drop 5 a)
  take-body a b n h =
      ap (take n) (drop-append_le 5 a b (omega arith))
      ∙ take-append_le n (drop 5 a) b (omega (arith, length-drop 5 a))

  pub turn_more :
      (a b : Bytes) → turn from_slice a 0 ≢ wait → turn from_slice (a ++ b) 0 ≡ turn from_slice a 0
  turn_more a b d =
      let five = turn_enough a d in
      let same =
        check_more (length a) (length (a ++ b)) (front_len a) (get_or a 4 0) (drop 5 a)
          (drop 5 (a ++ b)) (λ w. d (turn_front from_slice a ∙ w))
          (omega (arith, length-append a b)) (take-body a b (front_len a)) in
      turn_front from_slice (a ++ b)
      ∙ rw (front_len-append a b five, get_or-append 4 a b (omega (arith, five))) same
      ∙ sym (turn_front from_slice a)
