-- ===== src/Mux/Sending.antt =====
-- mux.rs, `outbound_pump`: what a step sends and charges, and the rounds of the credit loop.
use krymux.Base.{
  ℕ, ◌+◌, ◌-◌, ◌%◌, ◌^◌, ◌≤◌, ◌<◌, ◌≡◌, List, [], ◌∷◌, ◌++◌, true, false, if◌then◌else◌, length,
  arith, Bool-cases, ◌⊎◌, inl, inr, min, max, take, drop,
}
use krymux.Base.Bytes.{Bytes, codes}
use krymux.Frame.{encode_frame, ft_data, ft_close, flag_compressed, flag_fin}
use krymux.Mux.State.{Shared, set_stream}
use krymux.Mux.Outbound.{
  acquire_credits, took, must_wait, is_positive, OutPhase, reading, finished, first_charge,
  first_send, rest_charge, split, split_send, closing,
}

-- The wire bytes of the current chunk that no frame has taken yet.
abbrev pub unsent : OutPhase → Bytes
unsent reading = []
unsent finished = []
unsent (first_charge c) = c.wire
unsent (first_send c charged) = c.wire
unsent (rest_charge n charged) = []
unsent (split c charged off limit) = drop off c.wire
unsent (split_send c charged off limit) = drop off c.wire
unsent (closing clean) = []

-- The logical bytes of the current chunk that are not charged yet.
abbrev pub debt : OutPhase → ℕ
debt reading = 0
debt finished = 0
debt (first_charge c) = c.logical
debt (first_send c charged) = c.logical - charged
debt (rest_charge n charged) = n - charged
debt (split c charged off limit) = c.logical - charged
debt (split_send c charged off limit) = c.logical - charged
debt (closing clean) = 0

-- The payload of the DATA frame that a step from this phase sends.
abbrev pub piece : OutPhase → Bytes
piece reading = []
piece finished = []
piece (first_charge c) = []
piece (first_send c charged) = c.wire
piece (rest_charge n charged) = []
piece (split c charged off limit) = []
piece (split_send c charged off limit) = take (min limit (length c.wire - off)) (drop off c.wire)
piece (closing clean) = []

-- The frames that a step from this phase sends: DATA with a piece of the chunk, and at the end FIN, or
-- CLOSE after an error.
abbrev pub frames : Shared → ℕ → OutPhase → List Bytes
frames sh r reading = []
frames sh r finished = []
frames sh r (first_charge c) = []
frames sh r (first_send c charged) =
    encode_frame ft_data (if c.compressed then flag_compressed else 0) (sh.heap r).id c.wire ∷ []
frames sh r (rest_charge n charged) = []
frames sh r (split c charged off limit) = []
frames sh r (split_send c charged off limit) =
    encode_frame ft_data (if c.compressed then flag_compressed else 0) (sh.heap r).id
      (take (min limit (length c.wire - off)) (drop off c.wire))
    ∷ []
frames sh r (closing true) = encode_frame ft_data flag_fin (sh.heap r).id [] ∷ []
frames sh r (closing false) =
    encode_frame ft_close 0 (sh.heap r).id (codes "{\"code\":\"abort\"}") ∷ []

-- What the phases of a chunk keep, where a frame of the peer holds at most `limit` bytes.
abbrev pub Fits : ℕ → OutPhase → Type 0
Fits limit reading = Unit {0}
Fits limit finished = Unit {0}
Fits limit (first_charge c) = (0 < c.logical) × (length c.wire ≤ limit)
Fits limit (first_send c charged) =
    (charged ≤ c.logical) × ((0 < charged) × (length c.wire ≤ limit))
Fits limit (rest_charge n charged) = charged ≤ n
Fits limit (split c charged off l) = (charged ≤ c.logical) × ((l ≡ limit) × (0 < c.logical))
Fits limit (split_send c charged off l) = (charged ≤ c.logical) × ((l ≡ limit) × (0 < charged))
Fits limit (closing clean) = Unit {0}

-- A step of the pump while the session is up.
pub record Moved (limit r : ℕ) (sh : Shared) (a : OutPhase) (sh' : Shared) (b : OutPhase)
    : Type 0 where
  pub fits : Fits limit b
  pub small : length (piece a) ≤ limit
  pub wire : piece a ++ unsent b ≡ unsent a
  pub charge : (sh.heap r).credits + debt b ≡ (sh'.heap r).credits + debt a
  pub queued : sh'.writer.queue ≡ sh.writer.queue ++ frames sh r a
  pub up : sh'.closed ≡ false
  pub writing : sh'.writer.gone ≡ false
  pub same_limit : sh'.peer_max_data ≡ sh.peer_max_data

module _ (sh : Shared) (r want : ℕ) where
  abbrev pub taken : ℕ
  taken = min (max 1 (min (sh.heap r).credits want)) (sh.heap r).credits

  pub acquire_took :
      sh.closed ≡ false
      → is_positive (sh.heap r).credits ≡ true
      → acquire_credits sh r want
        ≡ took taken (
            set_stream sh r
              (record (sh.heap r) { credits = ((sh.heap r).credits + 2 ^ 64 - taken) % 2 ^ 64 }))
  unfolding acquire_credits
  acquire_took up pos = rw (up, pos)

  acquire_waits :
      sh.closed ≡ false
      → is_positive (sh.heap r).credits ≡ false
      → acquire_credits sh r want ≡ must_wait
  unfolding acquire_credits
  acquire_waits up neg = rw (up, neg)

  pub taken_bounds :
      is_positive (sh.heap r).credits ≡ true
      → 0 < want
      → let c = ((sh.heap r).credits + 2 ^ 64 - taken) % 2 ^ 64 in
        (0 < taken) × ((taken ≤ want) × (c + taken ≡ (sh.heap r).credits))
  taken_bounds pos h = ground arith

  -- What a round of the credit loop does while the session is up.
  pub acquire_cases :
      sh.closed ≡ false
      → 0 < want
      → (acquire_credits sh r want ≡ must_wait)
        ⊎ (n : ℕ) × (c : ℕ) × (acquire_credits sh r want
            ≡ took n (set_stream sh r (record (sh.heap r) { credits = c })))
          × ((0 < n) × ((n ≤ want) × (c + n ≡ (sh.heap r).credits)))
  acquire_cases up h = elim (Bool-cases (is_positive (sh.heap r).credits)) [
    | inl pos ↦ inr (taken, _, acquire_took up pos, taken_bounds pos h)
    | inr neg ↦ inl (acquire_waits up neg)
  ]
