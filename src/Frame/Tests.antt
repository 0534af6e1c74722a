-- ===== src/Frame/Tests.antt =====
-- Runs of the frame codec, and its theorems at concrete inputs.
use krymux.Base.{◌≡◌, refl, [], ◌∷◌, ok, err}
use krymux.Frame.{parse, encode_frame, unknown_frame_type}

run_encode :
    encode_frame 5 0 3 (0 ∷ 0 ∷ 1 ∷ 0 ∷ [])
    ≡ 5 ∷ 0 ∷ 0 ∷ 0 ∷ 0 ∷ 3 ∷ 0 ∷ 0 ∷ 0 ∷ 4 ∷ 0 ∷ 0 ∷ 1 ∷ 0 ∷ []
unfolding encode_frame
run_encode = refl

run_bad : parse (12 ∷ []) ≡ err (unknown_frame_type 12)
unfolding parse
run_bad = refl

run_parse :
    parse (5 ∷ 0 ∷ 0 ∷ 0 ∷ 0 ∷ 3 ∷ 0 ∷ 0 ∷ 0 ∷ 4 ∷ [])
    ≡ ok (record { frame_type = 5; flags = 0; stream_id = 3; length = 4 })
unfolding parse
run_parse = refl
