-- ===== src/HLevel/Frame/Safe/Whole.antt =====
-- src/include/dcd/hlevel-decoder.h, ProcessEmitting as a whole.
use opendcd.Prelude.Float.{Float}
use opendcd.HashList.{HashList}
