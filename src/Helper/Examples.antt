-- ===== src/Helper/Examples.antt =====
-- Examples on src/helper.c.
use des_aodv.Common.{arith}
use des_aodv.Helper.{MacBytes}
use des_aodv.Helper.Serial.{IsMac}

abbrev address : MacBytes
address = record { b0 = 2; b1 = 0; b2 = 255; b3 = 1; b4 = 0; b5 = 9 }

address-IsMac : IsMac address
address-IsMac = record {
  b0 = omega arith;
  b1 = omega arith;
  b2 = omega arith;
  b3 = omega arith;
  b4 = omega arith;
  b5 = omega arith;
}
