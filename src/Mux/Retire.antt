-- ===== src/Mux/Retire.antt =====
-- mux.rs, `try_retire`: a stream stays registered until its handle is gone and its outbound pump has
-- finished, in whichever order that happens.
use krymux.Base.{ℕ, ◌≡◌, ◌≢◌, some, none, false, ◌==◌, if◌then◌else◌, arith}
use krymux.Base.Bytes.{IsU32, to_be32, from_be32-to_be32}
use krymux.Mux.State.{Shared, lookup, try_retire, drop_handle, finish_outbound, set_stream}
use krymux.Mux.Handle.{handled, handle_window, add_i64}
use krymux.Mux.Streams.{lookup-remove}

module _ (sh : Shared) (r : ℕ) where
  -- While the outbound pump has not finished, dropping the handle leaves the map as it is.
  drop_handle_early : (sh.heap r).out_done ≡ false → (drop_handle sh r).streams ≡ sh.streams
  unfolding drop_handle try_retire
  drop_handle_early h = ground arith

  -- While only one of the two has come, the drop of a registered stream's handle or the end of its
  -- outbound pump, the map of streams is unchanged. Once both have come, in either order, the stream is
  -- no longer in the map, and every other id maps to what it did.
  pub retire_both :
      (j : ℕ)
      → (sh.heap r).app_gone ≡ false
      → (sh.heap r).out_done ≡ false
      → lookup (sh.heap r).id sh.streams ≡ some r
      → ((drop_handle sh r).streams ≡ sh.streams)
        × ((finish_outbound sh r).streams ≡ sh.streams)
        × (lookup j (finish_outbound (drop_handle sh r) r).streams
            ≡ (if (sh.heap r).id == j then none else lookup j sh.streams))
        × (lookup j (drop_handle (finish_outbound sh r) r).streams
            ≡ (if (sh.heap r).id == j then none else lookup j sh.streams))
  unfolding drop_handle finish_outbound try_retire
  retire_both j a o h = (
    ground arith,
    ground arith,
    ground (arith, lookup-remove (sh.heap r).id j sh.streams),
    ground (arith, lookup-remove (sh.heap r).id j sh.streams),
  )

  -- When only one of the two has come, the drop of the handle or the end of the outbound pump, the
  -- map of streams is unchanged; after the drop, a WINDOW frame still reaches the stream, and its
  -- credit grows by the delta of the frame.
  pub retire_one_keeps :
      (delta : ℕ)
      → IsU32 delta
      → (sh.heap r).app_gone ≡ false
      → (sh.heap r).out_done ≡ false
      → lookup (sh.heap r).id sh.streams ≡ some r
      → ((drop_handle sh r).streams ≡ sh.streams)
        × ((finish_outbound sh r).streams ≡ sh.streams)
        × ((sh' : Shared) × (handle_window (drop_handle sh r) (sh.heap r).id (to_be32 delta)
              ≡ handled sh')
            × ((sh'.heap r).credits ≡ add_i64 (sh.heap r).credits delta))
  unfolding drop_handle finish_outbound handle_window try_retire
  retire_one_keeps delta u a o h = (
    ground arith,
    ground arith,
    (
      set_stream (drop_handle sh r) r
          (record ((drop_handle sh r).heap r) { credits = add_i64 (sh.heap r).credits delta }),
      ground (arith, from_be32-to_be32 delta),
      ground arith,
    ),
  )

  -- A stream whose id the map holds for another stream does not unregister that one.
  pub retire_other :
      (q : ℕ)
      → lookup (sh.heap r).id sh.streams ≡ some q
      → q ≢ r
      → (try_retire sh r).streams ≡ sh.streams
  unfolding try_retire
  retire_other q h ne = ground arith
