-- ===== src/Examples/Attributes.antt =====
-- internal/zcl, the attribute records, at concrete inputs.
use gzb.Base.{ℕ, List, arith, ◌≡◌, refl, true, none, [], ◌∷◌}
use gzb.Base.Result.{ok}
use gzb.Cursor.{new_buf, remaining}
use gzb.Zcl.Value.{
  uint64, nothing, encode_value, encode_encoding, encoding_of, bounded_uint, as_uint,
}
use gzb.Zcl.Frame.{
  Attribute, Frame, read_attributes_response, response_records, response_record, decode,
}
use gzb.Zcl.Attributes.{Decoded, attributes, read_records}
use gzb.Zcl.Attributes.Ends.{read_records-ends}
use gzb.Zcl.Attributes.Layout.{AreReceived, attributes-read_attributes_response}
use gzb.Examples.Zcl.{patterns, pattern_bound}

-- An unsupported attribute, and an on switch.
abbrev answers : List (Attribute ℕ)
answers =
    (record { id = 0x0001; status = 0x86; type = 0; value = nothing })
    ∷ (record { id = 0x0000; status = 0x00; type = 0x20; value = uint64 7 })
    ∷ []

attributes-read_attributes_response_example :
    (ds : List (Decoded ℕ)) × (f : Frame) × (decode
        (0x18 ∷ 9 ∷ 0x01 ∷ 0x01 ∷ 0x00 ∷ 0x86 ∷ 0x00 ∷ 0x00 ∷ 0x00 ∷ 0x20 ∷ 7 ∷ [])
      ≡ ok f)
    × (attributes patterns f ≡ (ds, none))
    × AreReceived patterns pattern_bound answers ds
unfolding read_attributes_response response_records response_record encode_value encode_encoding
    encoding_of bounded_uint as_uint
attributes-read_attributes_response_example =
    attributes-read_attributes_response patterns pattern_bound 9 answers _
      (omega arith, (omega arith, tt)) refl

read_records-ends_example :
    remaining (read_records patterns 5 true (new_buf (0x01 ∷ 0x00 ∷ 0x86 ∷ 0x00 ∷ 0x00 ∷ []))).1 ≡ 0
unfolding remaining
read_records-ends_example =
    read_records-ends patterns 5 true (new_buf (0x01 ∷ 0x00 ∷ 0x86 ∷ 0x00 ∷ 0x00 ∷ []))
      (omega arith)
