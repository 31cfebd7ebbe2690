-- ===== src/Cursor/Tests.antt =====
-- A cursor of two values, under an encoding that keeps the text.
use serpent_seek.Prelude.{String, ◌≡◌, refl, some, [], ◌∷◌, all_codes, join}
use serpent_seek.Cursor.{encode_cursor, decode_cursor, decode_cursor-encode_cursor, IsCodec}

abbrev same_text : String → String
same_text s = s

same-IsCodec : IsCodec same_text some
same-IsCodec = record { decodes = λ s. refl; decodes_empty = refl }

decode_cursor-encode_cursor_example :
    decode_cursor some (encode_cursor same_text ("2024-05-01" ∷ "id-7" ∷ []))
    ≡ some ("2024-05-01" ∷ "id-7" ∷ [])
unfolding all_codes join
decode_cursor-encode_cursor_example =
    decode_cursor-encode_cursor same_text some "2024-05-01" ("id-7" ∷ []) same-IsCodec
      (refl, (refl, tt)) refl
