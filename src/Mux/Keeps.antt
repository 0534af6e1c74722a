-- ===== src/Mux/Keeps.antt =====
-- mux.rs: operations that leave the map of streams alone, and every id in its place of the heap.
use krymux.Base.{
  ℕ, ◌≡◌, ◌^◌, refl, ◌∙◌, List, [], ◌∷◌, Option, some, none, Bool, true, false, ◌%◌, if◌then◌else◌,
  length, arith, is_empty,
}
use mathlib.Core.Path.{subst}
use mathlib.Core.Option.{some-injective}
use krymux.Base.Bytes.{Bytes}
use krymux.Mux.State.{
  Shared, StreamInner, Inbound, chunk, eof, abort, set_stream, send_control, send_window, wait_send,
  Sent, sent, writer_gone, waits, abort_stream,
}
use krymux.Mux.Inbound.{
  InPhase, receiving, finished, granting, granting_tail, growing, InPump, grow_window, add_pending,
  pop_inbound, maybe_grow, end_pump, consume, after_window, receive_decoded, receive_tail, receive,
  in_step, add_u32,
}
use krymux.Mux.Tasks.{tick_stream}
use krymux.Mux.Valid.{Opens, IsValid, Registered}

pub record Keeps (sh sh' : Shared) : Type 0 where
  pub map_kept : sh'.streams ≡ sh.streams
  pub places : sh'.next_ref ≡ sh.next_ref
  pub max_kept : sh'.max_streams ≡ sh.max_streams
  pub data_kept : sh'.peer_max_data ≡ sh.peer_max_data
  pub window_kept : sh'.peer_window ≡ sh.peer_window
  pub ids : (q : ℕ) → (sh'.heap q).id ≡ (sh.heap q).id

pub Keeps-trans : {s t u : Shared} → Keeps s t → Keeps t u → Keeps s u
Keeps-trans a b = record {
  map_kept = b.map_kept ∙ a.map_kept;
  places = b.places ∙ a.places;
  max_kept = b.max_kept ∙ a.max_kept;
  data_kept = b.data_kept ∙ a.data_kept;
  window_kept = b.window_kept ∙ a.window_kept;
  ids = λ q. b.ids q ∙ a.ids q;
}

pub Keeps-refl : (sh : Shared) → Keeps sh sh
Keeps-refl sh = ground arith

pub set_stream-Keeps :
    (sh : Shared) (r : ℕ) (s : StreamInner) → s.id ≡ (sh.heap r).id → Keeps sh (set_stream sh r s)
set_stream-Keeps sh r s e = ground arith

pub send_control-Keeps :
    (sh : Shared) (ft sid : ℕ) (payload : Bytes) → Keeps sh (send_control sh ft sid payload).0
unfolding send_control
send_control-Keeps sh ft sid payload = ground arith

pub abort_stream-Keeps : (sh : Shared) (r : ℕ) → Keeps sh (abort_stream sh r)
unfolding abort_stream
abort_stream-Keeps sh r =
    Keeps-trans (send_control-Keeps sh _ _ _) (set_stream-Keeps _ r _ (ground arith))

pub tick_stream-Keeps : (sh : Shared) (r : ℕ) → Keeps sh (tick_stream sh r)
unfolding tick_stream send_window send_control
tick_stream-Keeps sh r = ground arith

pub sent-Keeps : (sh t : Shared) (f : Bytes) → wait_send sh f ≡ sent t → Keeps sh t
unfolding wait_send
sent-Keeps sh t f e = ground arith

add_pending-Keeps : (sh : Shared) (r len : ℕ) → Keeps sh (add_pending sh r len).0
unfolding add_pending
add_pending-Keeps sh r len = ground arith

-- The branches of a test on a state and a pump.
Keeps-test :
    {D : Type 0} (sh : Shared) (b : Bool) (x y : Shared × D)
    → Keeps sh x.0
    → Keeps sh y.0
    → let q : Shared × D = if b then x else y in Keeps sh q.0
Keeps-test sh true x y hx hy = hx
Keeps-test sh false x y hx hy = hy

module _ {D : Type 0} where
  maybe_grow-Keeps :
      (now : ℕ) (sh : Shared) (r : ℕ) (p : InPump D) → Keeps sh (maybe_grow now sh r p).0
  unfolding maybe_grow grow_window
  maybe_grow-Keeps now sh r p = ground arith

  end_pump-Keeps : (sh : Shared) (r : ℕ) (p : InPump D) → Keeps sh (end_pump sh r p).0
  unfolding end_pump send_window send_control
  end_pump-Keeps sh r p = ground arith

  consume-Keeps :
      (now : ℕ) (wrote : Bool) (sh : Shared) (r : ℕ) (p : InPump D) (plain : Bytes)
      → Keeps sh (consume now wrote sh r p plain).0
  unfolding consume
  consume-Keeps now wrote sh r p plain =
      let n = add_u32 (sh.heap r).consumed_since_grow (length plain % 2 ^ 32) in
      let counted = set_stream sh r (record (sh.heap r) { consumed_since_grow = n }) in
      let added = (add_pending counted r (length plain)).0 in
      let added_keeps : Keeps sh added =
        Keeps-trans (set_stream-Keeps sh r _ refl) (add_pending-Keeps counted r (length plain)) in
      Keeps-test sh (is_empty plain) _ _ (Keeps-refl sh)
        (Keeps-test sh _ _ _ (Keeps-trans added_keeps (maybe_grow-Keeps now added r _)) added_keeps)

  decoded-Keeps :
      (now : ℕ) (wrote : Bool) (sh : Shared) (r : ℕ) (p : InPump D) (o : Option (Bytes × D))
      → Keeps sh (receive_decoded now wrote sh r p o).0
  unfolding receive_decoded
  decoded-Keeps now wrote sh r p none = Keeps-trans (abort_stream-Keeps sh r) (end_pump-Keeps _ r p)
  decoded-Keeps now wrote sh r p (some (plain, d)) =
      Keeps-test sh _ _ _ (consume-Keeps now wrote sh r _ plain)
        (Keeps-trans (abort_stream-Keeps sh r) (end_pump-Keeps _ r _))

  tail-Keeps :
      (wrote : Bool) (sh : Shared) (r : ℕ) (p : InPump D) (o : Option Bytes)
      → Keeps sh (receive_tail wrote sh r p o).0
  unfolding receive_tail
  tail-Keeps wrote sh r p none = end_pump-Keeps sh r p
  tail-Keeps wrote sh r p (some tail) =
      let added = add_pending-Keeps sh r (length tail) in
      Keeps-test sh (is_empty tail) _ _ (end_pump-Keeps sh r p)
        (Keeps-test sh _ _ _ (Keeps-trans added (end_pump-Keeps _ r _)) added)

  after_window_at :
      (sh : Shared) (p' : InPump D) (sh' : Shared) (k : Shared → Shared × InPump D) (o : Sent)
      → ((t : Shared) → o ≡ sent t → Keeps sh t)
      → ((t : Shared) → Keeps t (k t).0)
      → (elim o [ sent t ↦ some (k t) | writer_gone ↦ some (k sh) | waits ↦ none ]) ≡ some (sh', p')
      → Keeps sh sh'
  after_window_at sh p' sh' k (sent t) ht hk e =
      subst (λ (s : Shared × InPump D). Keeps sh s.0) (some-injective _ _ e)
        (Keeps-trans (ht t refl) (hk t))
  after_window_at sh p' sh' k writer_gone ht hk e =
      subst (λ (s : Shared × InPump D). Keeps sh s.0) (some-injective _ _ e) (hk sh)
  after_window_at sh p' sh' k waits ht hk e = cc e

  window-Keeps :
      (sh sh' : Shared) (r d : ℕ) (p' : InPump D) (k : Shared → Shared × InPump D)
      → ((t : Shared) → Keeps t (k t).0)
      → after_window sh r d k ≡ some (sh', p')
      → Keeps sh sh'
  unfolding after_window
  window-Keeps sh sh' r d p' k hk e =
      after_window_at sh p' sh' k _ (λ t w. sent-Keeps sh t _ w) hk e

  module _ (push : D → Bytes → Option (Bytes × D)) (finish : D → Option Bytes) where
    receive-Keeps :
        (now : ℕ) (wrote : Bool) (sh : Shared) (r : ℕ) (p : InPump D) (m : Inbound)
        → Keeps sh (receive push finish now wrote sh r p m).0
    unfolding receive
    receive-Keeps now wrote sh r p (chunk wire true) =
        decoded-Keeps now wrote sh r p (push p.decomp wire)
    receive-Keeps now wrote sh r p (chunk wire false) = consume-Keeps now wrote sh r p wire
    receive-Keeps now wrote sh r p eof = tail-Keeps wrote sh r p (finish p.decomp)
    receive-Keeps now wrote sh r p abort = end_pump-Keeps sh r p

    message-Keeps :
        (now : ℕ) (wrote : Bool) (sh sh' : Shared) (r : ℕ) (p p' : InPump D) (q : List Inbound)
        → let t = set_stream sh r (pop_inbound (sh.heap r)) in
          let o : Option (Shared × InPump D) = elim q [
            | [] ↦ none
            | m ∷ ms ↦ some (receive push finish now wrote t r p m)
          ] in
          o ≡ some (sh', p') → Keeps sh sh'
    unfolding pop_inbound
    message-Keeps now wrote sh sh' r p p' [] e = cc e
    message-Keeps now wrote sh sh' r p p' (m ∷ ms) e =
        let t = set_stream sh r (pop_inbound (sh.heap r)) in
        let k =
          Keeps-trans (set_stream-Keeps sh r (pop_inbound (sh.heap r)) refl)
            (receive-Keeps now wrote t r p m) in
        subst (λ (s : Shared × InPump D). Keeps sh s.0) (some-injective _ _ e) k

    phase-Keeps :
        (now : ℕ) (wrote : Bool) (sh sh' : Shared) (r : ℕ) (p p' : InPump D) (a : InPhase)
        → in_step push finish now wrote sh r (record p { phase = a }) ≡ some (sh', p')
        → Keeps sh sh'
    unfolding in_step
    phase-Keeps now wrote sh sh' r p p' receiving e =
        message-Keeps now wrote sh sh' r _ p' (sh.heap r).inbound e
    phase-Keeps now wrote sh sh' r p p' finished e = cc e
    phase-Keeps now wrote sh sh' r p p' (granting d) e =
        window-Keeps sh sh' r d p' _ (λ t. maybe_grow-Keeps now t r _) e
    phase-Keeps now wrote sh sh' r p p' (granting_tail d) e =
        window-Keeps sh sh' r d p' _ (λ t. end_pump-Keeps t r _) e
    phase-Keeps now wrote sh sh' r p p' (growing d) e =
        window-Keeps sh sh' r d p' _ (λ t. Keeps-refl t) e

    pub in_step-Keeps :
        (now : ℕ) (wrote : Bool) (sh sh' : Shared) (r : ℕ) (p p' : InPump D)
        → in_step push finish now wrote sh r p ≡ some (sh', p')
        → Keeps sh sh'
    in_step-Keeps now wrote sh sh' r p p' e = phase-Keeps now wrote sh sh' r p p' p.phase e

-- The map and the heap still agree.
pub Registered-Keeps :
    (h h' : ℕ → StreamInner) (n : ℕ) (m : List (ℕ × ℕ))
    → ((q : ℕ) → (h' q).id ≡ (h q).id)
    → Registered h n m
    → Registered h' n m
Registered-Keeps h h' n [] e g = tt
Registered-Keeps h h' n ((sid, r) ∷ m) e g = (e r ∙ g.0, g.1, Registered-Keeps h h' n m e g.2)

pub Keeps-IsValid :
    {opens : Opens} → {sh sh' : Shared} → Keeps sh sh' → IsValid opens sh → IsValid opens sh'
Keeps-IsValid {sh} {sh'} k v = record {
  registered =
      rw (k.map_kept, k.places)
        (Registered-Keeps sh.heap sh'.heap sh.next_ref sh.streams k.ids v.registered);
  distinct = rw k.map_kept v.distinct;
  limit = rw (k.map_kept, k.max_kept) v.limit;
  data_cap = rw k.data_kept v.data_cap;
  window = rw k.window_kept v.window;
}
