-- ===== src/Examples/Zdo.antt =====
-- internal/zdo/zdo.go and the reader at concrete inputs.
use gzb.Base.{◌≡◌, arith, [], ◌∷◌, ◌++◌}
use gzb.Zdo.{SimpleDescriptor, parse_simple_descriptor}
use gzb.Zdo.Layout.{start, simple_body, answered, parse_simple_descriptor_lem}

abbrev thermometer : SimpleDescriptor
thermometer = record {
  endpoint = 1;
  profile = 0x0104;
  device = 0x0302;
  version = 1;
  input = 0x0000 ∷ 0x0402 ∷ [];
  output = 0x0019 ∷ [];
}

parse_simple_descriptor_example :
    parse_simple_descriptor (start 9 0 0x90CB ++ simple_body 14 thermometer [])
    ≡ answered 0x90CB thermometer
parse_simple_descriptor_example =
    parse_simple_descriptor_lem 9 0x90CB 14 thermometer [] (omega arith) (omega arith) (omega arith)
      (omega arith) (omega arith) (omega arith)
