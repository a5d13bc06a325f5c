-- ===== src/Segments/Tests.antt =====
-- A task state, and the descriptors of the segments as the manual has them.
use zeroxos_os.Base.{◌≡◌, ◌%◌, ◌/◌, ◌^◌, arith, refl, [], ◌∷◌}
use zeroxos_os.Segments.{tss_descriptor, kernel_code, kernel_data, user_code, user_data, flat}
use zeroxos_os.Segments.Fields.{tss_base, tss_limit, tss_descriptor-fields}

segments :
    (kernel_code ∷ kernel_data ∷ user_code ∷ user_data ∷ [])
    ≡ 0x00AF9A000000FFFF ∷ 0x00CF92000000FFFF ∷ 0x00AFFA000000FFFF ∷ 0x00CFF2000000FFFF ∷ []
unfolding kernel_code kernel_data user_code user_data flat
segments = refl

tss_descriptor-fields_example :
    (tss_base (tss_descriptor 0xDEADBEEF1234 0x67) ≡ 0xDEADBEEF1234)
    × (tss_limit (tss_descriptor 0xDEADBEEF1234 0x67) ≡ 0x67 % 2 ^ 20)
    × ((tss_descriptor 0xDEADBEEF1234 0x67).low / 2 ^ 40 % 2 ^ 8 ≡ 0x89)
tss_descriptor-fields_example =
    tss_descriptor-fields 0xDEADBEEF1234 0x67 (omega arith) (omega arith)
