-- ===== src/Compress/Tests.antt =====
-- compress.rs: runs of the negotiation, and its theorems at concrete inputs.
use krymux.Base.{◌≡◌, refl, [], ◌∷◌, true, none, some}
use krymux.Base.Bytes.{codes}
use krymux.Compress.{
  Registry, negotiate, parse_level, base_algo, pick_zstdd, zstdd_name, is_zstdd,
  looks_precompressed, algo_zstd, algo_deflate,
}
use krymux.Compress.Negotiation.{Agreed, negotiate-Agreed}

abbrev with_dict : Registry
with_dict = record {
  zstd_feature = true;
  zstd_dict = some (record { bytes = 1 ∷ []; name = codes "zstdd:0123abcd" });
}

run_dict :
    negotiate with_dict (codes "auto") (algo_zstd ∷ codes "zstdd:0123abcd" ∷ [])
    ≡ codes "zstdd:0123abcd"
unfolding negotiate base_algo pick_zstdd zstdd_name
run_dict = refl

run_level : parse_level (codes "zstd:19") ≡ some 19
unfolding parse_level is_zstdd
run_level = refl

run_digits : parse_level (codes "zstdd:01234567") ≡ none
unfolding parse_level is_zstdd
run_digits = refl

run_sniff : looks_precompressed (0x1f ∷ 0x8b ∷ 8 ∷ 0 ∷ []) ≡ true
unfolding looks_precompressed
run_sniff = refl

negotiate-Agreed_example :
    Agreed with_dict (algo_deflate ∷ []) (negotiate with_dict (codes "auto") (algo_deflate ∷ []))
negotiate-Agreed_example = negotiate-Agreed with_dict (codes "auto") (algo_deflate ∷ [])
